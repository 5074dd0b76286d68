-- ===== src/Contracts/Wrapper/Fence.antt =====
-- pkg/contracts/wrapper.go: what a wrapper's result has to repeat of its lease, and what a refresh job
-- has to carry.
use gateway_platform.Contracts.Wrapper.{
  WrapperLease, validate_wrapper_lease_result, validate_completion_lease, validate_failure_lease,
  WrapperCompletion, WrapperFailure, validate_lease, validate_completion, validate_failure,
}
use gateway_platform.Base.{◌≡◌, none, arith, ◌↔◌}
use gateway_platform.Base.Text.{Text, text_beq_iff}
use gateway_platform.Base.Int.{ℤ, int_beq_iff}

-- The identity of a result is the lease's.
abbrev pub Names : WrapperLease → Text → Text → Text → Text → ℤ → Type 0
Names l job_id lease_id worker_id account_id fence_epoch =
    (job_id ≡ l.job_id)
    × (lease_id ≡ l.lease_id)
    × (worker_id ≡ l.worker_id)
    × (account_id ≡ l.account_id)
    × (fence_epoch ≡ l.fence_epoch)

lease_result_iff :
    (l : WrapperLease) (job_id lease_id worker_id account_id : Text) (fence_epoch : ℤ)
    → (validate_wrapper_lease_result l job_id lease_id worker_id account_id fence_epoch ≡ none)
      ↔ ((validate_lease l ≡ none) × Names l job_id lease_id worker_id account_id fence_epoch)
unfolding validate_wrapper_lease_result
lease_result_iff l job_id lease_id worker_id account_id fence_epoch = ground (
  arith,
  text_beq_iff job_id l.job_id,
  text_beq_iff lease_id l.lease_id,
  text_beq_iff worker_id l.worker_id,
  text_beq_iff account_id l.account_id,
  int_beq_iff fence_epoch l.fence_epoch,
)

completion_iff :
    (c : WrapperCompletion) (l : WrapperLease)
    → (validate_completion_lease c l ≡ none) ↔ (
        (validate_completion c ≡ none)
        × (validate_lease l ≡ none)
        × Names l c.job_id c.lease_id c.worker_id c.account_id c.fence_epoch)
unfolding validate_completion_lease
completion_iff c l =
    ground (arith, lease_result_iff l c.job_id c.lease_id c.worker_id c.account_id c.fence_epoch)

failure_iff :
    (f : WrapperFailure) (l : WrapperLease)
    → (validate_failure_lease f l ≡ none) ↔ (
        (validate_failure f ≡ none)
        × (validate_lease l ≡ none)
        × Names l f.job_id f.lease_id f.worker_id f.account_id f.fence_epoch)
unfolding validate_failure_lease
failure_iff f l =
    ground (arith, lease_result_iff l f.job_id f.lease_id f.worker_id f.account_id f.fence_epoch)

-- A completion or a failure is accepted for a lease exactly if it is valid, the lease is, and it
-- repeats the lease's job, id, worker, account and fence epoch.
pub lease_results_iff :
    (c : WrapperCompletion) (f : WrapperFailure) (l : WrapperLease)
    → ((validate_completion_lease c l ≡ none) ↔ (
        (validate_completion c ≡ none)
        × (validate_lease l ≡ none)
        × Names l c.job_id c.lease_id c.worker_id c.account_id c.fence_epoch))
      × ((validate_failure_lease f l ≡ none) ↔ (
          (validate_failure f ≡ none)
          × (validate_lease l ≡ none)
          × Names l f.job_id f.lease_id f.worker_id f.account_id f.fence_epoch))
lease_results_iff c f l = (completion_iff c l, failure_iff f l)
