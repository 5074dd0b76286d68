-- ===== src/Contracts/Wrapper.antt =====
-- pkg/contracts/wrapper.go: the messages between the control plane and the login workers.
pub mod Fence
use gateway_platform.Base.{
  ℕ, Bool, true, false, not, ◌&&◌, ◌||◌, Option, none, some, List, ltb, leb, nat_beq, if◌then◌else◌,
  ◌==◌, nat_eq, list_eq, length,
}
use gateway_platform.Base.Int.{ℤ, pos, ltb_ℤ, leb_ℤ, int_eq}
use gateway_platform.Base.Text.{Text, is_blank, byte_len}
use gateway_platform.Contracts.Types.{Time}
use gateway_platform.Contracts.Events.{supported_schema_version, reject}

abbrev pub max_wrapper_envelope_bytes : ℕ
max_wrapper_envelope_bytes = 1048576

pub data WrapperOperation : Type 0 where
  authorize refresh : WrapperOperation
  other_operation : Text → WrapperOperation

unfoldable pub operation_valid : WrapperOperation → Bool
operation_valid (other_operation _) = false
operation_valid _ = true

pub record WrapperJob : Type 0 where
  pub schema_version : ℤ
  pub job_id : Text
  pub provider : Text
  pub operation : WrapperOperation
  pub account_id : Text
  pub fence_epoch : ℤ
  pub encrypted_input : List ℕ

pub record WrapperClaim : Type 0 where
  pub schema_version : ℤ
  pub worker_id : Text
  pub lease_ttl_seconds : ℤ

pub record WrapperLease : Type 0 where
  pub schema_version : ℤ
  pub job_id : Text
  pub lease_id : Text
  pub worker_id : Text
  pub account_id : Text
  pub fence_epoch : ℤ
  pub expires_at : Time

pub record WrapperCompletion : Type 0 where
  pub schema_version : ℤ
  pub job_id : Text
  pub lease_id : Text
  pub worker_id : Text
  pub account_id : Text
  pub fence_epoch : ℤ
  pub encrypted_output : List ℕ

pub record WrapperFailure : Type 0 where
  pub schema_version : ℤ
  pub job_id : Text
  pub lease_id : Text
  pub worker_id : Text
  pub account_id : Text
  pub fence_epoch : ℤ
  pub code : Text
  pub retryable : Bool

pub data WrapperError : Type 0 where
  unsupported_version incomplete_job invalid_job_fence refresh_without_fence : WrapperError
  invalid_claim invalid_lease invalid_completion invalid_failure lease_mismatch : WrapperError

unfoldable pub valid_wrapper_id : Text → Bool
unfolding is_blank byte_len
valid_wrapper_id value = not (is_blank value) && leb (byte_len value) 256

unfoldable pub valid_fence_identity : Text → ℤ → Bool
unfolding is_blank byte_len
valid_fence_identity account_id fence_epoch =
    if is_blank account_id
    then fence_epoch == pos 0
    else leb (byte_len account_id) 256 && ltb_ℤ (pos 0) fence_epoch

unfoldable pub is_refresh : WrapperOperation → Bool
is_refresh refresh = true
is_refresh _ = false

unfoldable pub within_envelope : List ℕ → Bool
within_envelope bytes =
    not (nat_beq (length bytes) 0) && leb (length bytes) max_wrapper_envelope_bytes

unfoldable pub validate_job : WrapperJob → Option WrapperError
unfolding supported_schema_version valid_wrapper_id valid_fence_identity is_blank byte_len
    operation_valid is_refresh within_envelope
validate_job j = reject (not (supported_schema_version j.schema_version)) unsupported_version (
    reject
      (not (valid_wrapper_id j.job_id)
        || is_blank j.provider
        || ltb 64 (byte_len j.provider)
        || not (operation_valid j.operation)
        || not (within_envelope j.encrypted_input))
      incomplete_job
      (reject (not (valid_fence_identity j.account_id j.fence_epoch)) invalid_job_fence (
        reject (is_refresh j.operation && (is_blank j.account_id || leb_ℤ j.fence_epoch (pos 0)))
          refresh_without_fence none)))

unfoldable pub validate_claim : WrapperClaim → Option WrapperError
unfolding supported_schema_version valid_wrapper_id
validate_claim c =
    reject
      (not (supported_schema_version c.schema_version)
        || not (valid_wrapper_id c.worker_id)
        || leb_ℤ c.lease_ttl_seconds (pos 0))
      invalid_claim none

unfoldable pub validate_lease : WrapperLease → Option WrapperError
unfolding supported_schema_version valid_wrapper_id valid_fence_identity
validate_lease l =
    reject
      (not (supported_schema_version l.schema_version)
        || not (valid_wrapper_id l.job_id)
        || not (valid_wrapper_id l.lease_id)
        || not (valid_wrapper_id l.worker_id)
        || nat_beq l.expires_at 0
        || not (valid_fence_identity l.account_id l.fence_epoch))
      invalid_lease none

unfoldable pub valid_wrapper_result : ℤ → Text → Text → Text → Text → ℤ → Bool
unfolding supported_schema_version valid_wrapper_id valid_fence_identity
valid_wrapper_result schema_version job_id lease_id worker_id account_id fence_epoch =
    supported_schema_version schema_version
    && valid_wrapper_id job_id
    && valid_wrapper_id lease_id
    && valid_wrapper_id worker_id
    && valid_fence_identity account_id fence_epoch

unfoldable pub validate_wrapper_lease_result :
    WrapperLease → Text → Text → Text → Text → ℤ → Option WrapperError
unfolding validate_lease
validate_wrapper_lease_result lease job_id lease_id worker_id account_id fence_epoch =
    elim (validate_lease lease) [
      | some e ↦ some e
      | none ↦
          reject
            (not (job_id == lease.job_id)
              || not (lease_id == lease.lease_id)
              || not (worker_id == lease.worker_id)
              || not (account_id == lease.account_id)
              || not (fence_epoch == lease.fence_epoch))
            lease_mismatch none
    ]

unfoldable pub validate_completion : WrapperCompletion → Option WrapperError
unfolding valid_wrapper_result within_envelope
validate_completion c =
    reject
      (not (
          valid_wrapper_result c.schema_version c.job_id c.lease_id c.worker_id c.account_id
            c.fence_epoch)
        || not (within_envelope c.encrypted_output))
      invalid_completion none

unfoldable pub validate_completion_lease : WrapperCompletion → WrapperLease → Option WrapperError
unfolding validate_completion validate_wrapper_lease_result
validate_completion_lease c lease = elim (validate_completion c) [
  | some e ↦ some e
  | none ↦
      validate_wrapper_lease_result lease c.job_id c.lease_id c.worker_id c.account_id c.fence_epoch
]

unfoldable pub validate_failure : WrapperFailure → Option WrapperError
unfolding valid_wrapper_result is_blank byte_len
validate_failure f =
    reject
      (not (
          valid_wrapper_result f.schema_version f.job_id f.lease_id f.worker_id f.account_id
            f.fence_epoch)
        || is_blank f.code
        || ltb 128 (byte_len f.code))
      invalid_failure none

unfoldable pub validate_failure_lease : WrapperFailure → WrapperLease → Option WrapperError
unfolding validate_failure validate_wrapper_lease_result
validate_failure_lease f lease = elim (validate_failure f) [
  | some e ↦ some e
  | none ↦
      validate_wrapper_lease_result lease f.job_id f.lease_id f.worker_id f.account_id f.fence_epoch
]
