-- ===== src/Tests/Queue.antt =====
-- A job of the wrapper queue from its enqueuing to its result.
use gateway_platform.Contracts.Events.{supported_schema_version}
use gateway_platform.Control.Wrapper.Standing.{Stands}
use gateway_platform.Control.Wrapper.Progress.{at_instants, complete_succeeds}
use gateway_platform.Control.Wrapper.Trace.{drive-Runs}
use gateway_platform.Control.Wrapper.Agreement.{result-Stands, by_complete}
use gateway_platform.Control.Wrapper.Once.{entries_of, enqueue_idempotent, Enqueued}
use gateway_platform.Control.Wrapper.Grants.{Granted, claim_job-Granted}
use gateway_platform.Base.Map.{update}
use gateway_platform.Control.Wrapper.Program.{Inputs, drive, after, Runs, stay}
use gateway_platform.Control.Wrapper.Store.{
  Store, set_lease, Entry, done, encoded, expiry, ids, execute, terminal_ttl, found, enqueue_script,
  unix_milli,
}
use gateway_platform.Contracts.Wrapper.{
  WrapperJob, WrapperClaim, WrapperLease, WrapperCompletion, authorize, validate_claim,
  validate_job, validate_completion_lease, validate_completion, validate_wrapper_lease_result,
  validate_lease, valid_wrapper_result, valid_wrapper_id, valid_fence_identity, within_envelope,
}
use gateway_platform.Control.Wrapper.Queue.{
  TerminalEnvelope, enqueue, claim_job, completed, lease_for, failed_with, claim_loop,
  enqueued_reply, after_group, accepted, next_message, after_next, after_decode, decode_job,
  complete, write_result, after_existing,
}
use gateway_platform.Base.{
  ◌≡◌, refl, true, none, some, arith, [], ◌∷◌, list_beq, nat_eq, list_eq, ◌<◌, ◌≤◌, ℕ,
}
use gateway_platform.Base.Int.{pos, int_beq, ltb_ℤ}
use gateway_platform.Base.Text.{Text, codes, is_blank, trim_space, trim_left, is_space, byte_len}

abbrev encode : TerminalEnvelope → Text
encode (completed c) = 1 ∷ c.encrypted_output
encode (failed_with f) = 2 ∷ f.code

abbrev job : WrapperJob
job = record {
  schema_version = pos 1;
  job_id = codes "j";
  provider = codes "kiro";
  operation = authorize;
  account_id = [];
  fence_epoch = pos 0;
  encrypted_input = 7 ∷ [];
}

abbrev claim : WrapperClaim
claim = record { schema_version = pos 1; worker_id = codes "w"; lease_ttl_seconds = pos 60 }

abbrev empty_store : Store
empty_store = record {
  clock = 5000;
  terminals = λ _. none;
  enqueued = λ _. none;
  leases = λ _. none;
  owners = λ _. none;
  entries = [];
  acked = [];
  dead = [];
}

abbrev entry : Entry
entry = record { id = 1; job_id = codes "j"; payload = encoded job }

-- The store behind Enqueue.
abbrev with_job : Store
with_job = record empty_store {
  entries = entry ∷ [];
  enqueued = update empty_store.enqueued (codes "j") (1, expiry empty_store terminal_ttl);
}

-- The group is new, nothing is pending, and the entry is delivered.
abbrev inputs : Inputs
inputs = record {
  replies = done ∷ ids [] ∷ found (entry ∷ []) ∷ [];
  instants = 1000000000 ∷ [];
  lease_ids = some (codes "l") ∷ [];
}

abbrev lease : WrapperLease
lease = lease_for job (codes "l") (codes "w") 1000000000 60

abbrev completion : WrapperCompletion
completion = record {
  schema_version = pos 1;
  job_id = codes "j";
  lease_id = codes "l";
  worker_id = codes "w";
  account_id = [];
  fence_epoch = pos 0;
  encrypted_output = 9 ∷ [];
}

abbrev with_lease : Store
unfolding set_lease
with_lease = set_lease (record { message_id = 1; lease = lease }) 60 with_job

enqueue_runs : drive (enqueue job) inputs empty_store ≡ (accepted 1, with_job)
unfolding enqueue drive execute enqueue_script list_beq validate_job enqueued_reply int_beq
enqueue_runs = refl

abbrev after_claiming : Store
unfolding drive claim_job execute
after_claiming = (drive (claim_job claim) inputs with_job).1

claim-Runs : Runs (claim_job claim) with_job (accepted (job, lease)) after_claiming
unfolding claim_job drive execute list_beq validate_claim claim_loop after_group next_message
    after_next after after_decode decode_job validate_job int_beq
claim-Runs = drive-Runs (claim_job claim) inputs with_job

claim_job-Granted_example :
    Granted (codes "w") 60 with_job job lease after_claiming × (0 < 60) × (60 ≤ 900)
claim_job-Granted_example = claim_job-Granted claim claim-Runs

again-Runs : Runs (enqueue job) with_job (accepted 1) with_job
unfolding enqueue drive execute enqueue_script list_beq validate_job enqueued_reply int_beq
again-Runs = drive-Runs (enqueue job) inputs with_job

key_is_there : Enqueued with_job (codes "j") 1 604805000
unfolding list_beq
key_is_there = refl

enqueue_idempotent_example :
    (◌≡◌ {A = ℕ} 1 1)
    × (entries_of (codes "j") with_job.entries ≡ entries_of (codes "j") with_job.entries)
enqueue_idempotent_example = enqueue_idempotent job key_is_there again-Runs (omega arith)

completion_is_valid : validate_completion_lease completion lease ≡ none
unfolding validate_completion_lease validate_completion validate_wrapper_lease_result validate_lease
    valid_wrapper_result supported_schema_version valid_wrapper_id valid_fence_identity
    within_envelope is_blank trim_space trim_left is_space byte_len list_beq int_beq
completion_is_valid = refl

late : ltb_ℤ (unix_milli 3000000000) (unix_milli lease.expires_at) ≡ true
unfolding unix_milli
late = refl

complete_succeeds_example :
    (t : Store) × (drive
        (complete encode lease completion)
        (at_instants (2000000000 ∷ 3000000000 ∷ []))
        with_lease
      ≡ (accepted tt, t))
    × Stands t (codes "j") (1 ∷ 9 ∷ []) (expiry with_lease terminal_ttl)
    × (t.owners 1 ≡ none)
    × (t.leases lease.lease_id ≡ none)
    × (t.acked ≡ 1 ∷ [])
unfolding with_lease
complete_succeeds_example =
    complete_succeeds encode lease completion 1 with_lease 2000000000 3000000000 []
      (unfold list_beq in (refl, refl, refl)) completion_is_valid refl late

-- The store with the job's result, in which the same Complete is repeated.
abbrev with_result : Store
with_result = record with_job {
  terminals = update with_job.terminals (codes "j") (1 ∷ 9 ∷ [], 604805000);
}

repeated-Runs : Runs (complete encode lease completion) with_result (accepted tt) with_result
unfolding complete drive execute list_beq write_result after_existing int_beq
    validate_completion_lease validate_completion validate_wrapper_lease_result validate_lease
    valid_wrapper_result supported_schema_version valid_wrapper_id valid_fence_identity
    within_envelope is_blank trim_space trim_left is_space byte_len
repeated-Runs =
    drive-Runs (complete encode lease completion) (at_instants (99000000000 ∷ [])) with_result

result_is_there : Stands with_result (codes "j") (1 ∷ 9 ∷ []) 604805000
unfolding list_beq
result_is_there = refl

result-Stands_example : encode (completed completion) ≡ 1 ∷ 9 ∷ []
result-Stands_example =
    result-Stands encode (by_complete completion) refl result_is_there stay repeated-Runs
      (omega arith)
