-- ===== src/Tests/Wrapper.antt =====
-- A lease of the wrapper protocol and its results.
use gateway_platform.Contracts.Events.{supported_schema_version}
use gateway_platform.Contracts.Wrapper.{
  WrapperLease, WrapperCompletion, WrapperFailure, validate_completion_lease,
  validate_failure_lease, validate_completion, validate_failure, validate_lease,
  validate_wrapper_lease_result, valid_wrapper_result, valid_wrapper_id, valid_fence_identity,
  within_envelope, lease_mismatch,
}
use gateway_platform.Base.{◌≡◌, refl, true, some, none, [], ◌∷◌, list_beq}
use gateway_platform.Base.Text.{codes, is_blank, trim_space, trim_left, is_space, byte_len}
use gateway_platform.Base.Int.{pos, int_beq}

abbrev lease : WrapperLease
lease = record {
  schema_version = pos 1;
  job_id = codes "j";
  lease_id = codes "l";
  worker_id = codes "w";
  account_id = codes "a";
  fence_epoch = pos 3;
  expires_at = 9;
}

abbrev completion : WrapperCompletion
completion = record {
  schema_version = pos 1;
  job_id = codes "j";
  lease_id = codes "l";
  worker_id = codes "w";
  account_id = codes "a";
  fence_epoch = pos 3;
  encrypted_output = 1 ∷ [];
}

-- A failure of an earlier epoch.
abbrev failure : WrapperFailure
failure = record {
  schema_version = pos 1;
  job_id = codes "j";
  lease_id = codes "l";
  worker_id = codes "w";
  account_id = codes "a";
  fence_epoch = pos 2;
  code = codes "timeout";
  retryable = true;
}

completion_is_accepted : validate_completion_lease completion lease ≡ none
unfolding validate_completion_lease validate_completion validate_wrapper_lease_result validate_lease
    valid_wrapper_result supported_schema_version valid_wrapper_id valid_fence_identity
    within_envelope is_blank trim_space trim_left is_space byte_len list_beq int_beq
completion_is_accepted = refl

old_failure_is_refused : validate_failure_lease failure lease ≡ some lease_mismatch
unfolding validate_failure_lease validate_failure validate_wrapper_lease_result validate_lease
    valid_wrapper_result supported_schema_version valid_wrapper_id valid_fence_identity is_blank
    trim_space trim_left is_space byte_len list_beq int_beq
old_failure_is_refused = refl
