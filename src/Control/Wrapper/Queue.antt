-- ===== src/Control/Wrapper/Queue.antt =====
-- internal/control/wrapper/queue.go: Enqueue, Claim, Complete, Fail and Terminal, call by call. The queue has
-- a client; json.Marshal of a terminal result is the argument `encode`.
use gateway_platform.Base.{
  ℕ, zero, suc, Bool, true, false, not, ◌&&◌, Option, none, some, List, [], ◌∷◌, ◌++◌, ◌+◌, ◌*◌,
  ltb, if◌then◌else◌, ◌==◌, nat_eq, list_eq,
}
use gateway_platform.Base.Int.{pos, negsuc, ltb_ℤ, int_eq, pos_part}
use gateway_platform.Base.Text.{Text, codes, is_blank, is_empty}
use gateway_platform.Contracts.Types.{Time}
use gateway_platform.Contracts.Events.{schema_version}
use gateway_platform.Contracts.Wrapper.{
  WrapperJob, WrapperClaim, WrapperLease, WrapperCompletion, WrapperFailure, validate_job,
  validate_claim, validate_lease, validate_completion_lease, validate_failure_lease, incomplete_job,
  WrapperError,
}
use gateway_platform.Control.Wrapper.Store.{
  missing, undecodable, encoded, Entry, QueueError, invalid, lease_too_long, payload_missing,
  payload_undecodable, identity_differs, call_failed, nothing, lease_lost, terminal_conflict,
  not_dead_lettered, unix_milli, create_group, pending_ids, lease_exists, get_owner, drop_owner,
  ack, take_owner, claim_entry, read_new, terminal_exists, get_terminal, get_lease, add_dead,
  store_lease, run_enqueue, run_terminal, Reply, missing_key, busy_group, done, flag, number, text,
  ids, found, leased, message, max_lease_seconds,
}
use gateway_platform.Control.Wrapper.Program.{Program, finish, call, read_clock, draw_id, after}

pub data QueueResult (A : Type 0) : Type 0 where
  accepted : A → QueueResult A
  refused : QueueError → QueueResult A

pub data TerminalEnvelope : Type 0 where
  completed : WrapperCompletion → TerminalEnvelope
  failed_with : WrapperFailure → TerminalEnvelope

abbrev pub refuse : {A : Type 0} → QueueError → Program (QueueResult A)
refuse e = finish (refused e)

-- if err := …Validate(); err != nil { return err }
abbrev pub unless_invalid :
    {A : Type 0} → Option WrapperError → Program (QueueResult A) → Program (QueueResult A)
unless_invalid none p = p
unless_invalid (some e) p = refuse (invalid e)

unfoldable pub enqueued_reply : Reply → Program (QueueResult ℕ)
enqueued_reply (message id) = finish (accepted id)
enqueued_reply _ = refuse call_failed

unfoldable pub enqueue : WrapperJob → Program (QueueResult ℕ)
unfolding enqueued_reply
enqueue job = unless_invalid (validate_job job) (call (run_enqueue job) enqueued_reply)

unfoldable pub decode_job : Entry → QueueResult WrapperJob
decode_job e = elim e.payload [
  | missing ↦ refused payload_missing
  | undecodable ↦ refused payload_undecodable
  | encoded job ↦ elim (validate_job job) [
    | some err ↦ refused (invalid err)
    | none ↦ if e.job_id == job.job_id then accepted job else refused identity_differs
  ]
]

unfoldable pub same_lease : WrapperLease → WrapperLease → Bool
same_lease left right =
    left.schema_version == right.schema_version
    && left.job_id == right.job_id
    && left.lease_id == right.lease_id
    && left.worker_id == right.worker_id
    && left.account_id == right.account_id
    && left.fence_epoch == right.fence_epoch
    && left.expires_at == right.expires_at

-- The marker "claiming:" of a worker.
abbrev pub claiming : Text → Text
claiming worker = codes "claiming:" ++ worker

abbrev Found : Type 0
Found = QueueResult (Option Entry)

-- The marker is dropped if it is still the worker's own.
drop_if_own : ℕ → Text → Program Found → Reply → Program Found
drop_if_own id worker k (text owner) =
    if owner == claiming worker then call (drop_owner id) (λ _. k) else k
drop_if_own id worker k _ = k

unfoldable pub drop_marker : ℕ → Text → Program Found → Program Found
unfolding drop_if_own
drop_marker id worker k = call (get_owner id) (drop_if_own id worker k)

after_claim : ℕ → Text → Program Found → Reply → Program Found
unfolding drop_marker
after_claim id worker next (found (e ∷ [])) = finish (accepted (some e))
after_claim id worker next (found _) = drop_marker id worker next
after_claim id worker next _ = drop_marker id worker (refuse call_failed)

after_marker : ℕ → Text → Program Found → Reply → Program Found
unfolding after_claim
after_marker id worker next (flag true) = call (claim_entry worker id) (after_claim id worker next)
after_marker id worker next (flag false) = next
after_marker id worker next _ = refuse call_failed

after_exists : ℕ → Text → ℕ → Program Found → Reply → Program Found
unfolding after_marker
after_exists id worker ttl next (flag true) = next
after_exists id worker ttl next (flag false) =
    call (take_owner id (claiming worker) ttl) (after_marker id worker next)
after_exists id worker ttl next _ = refuse call_failed

after_take : Entry → Reply → Program Found
after_take e (flag true) = finish (accepted (some e))
after_take e (flag false) = finish (accepted none)
after_take e _ = refuse call_failed

after_read : Text → ℕ → Reply → Program Found
unfolding after_take
after_read worker ttl missing_key = finish (accepted none)
after_read worker ttl (found []) = finish (accepted none)
after_read worker ttl (found (e ∷ _)) = call (take_owner e.id (claiming worker) ttl) (after_take e)
after_read worker ttl _ = refuse call_failed

-- The entries that the group has delivered and that no lease holds, then a new one.
scan_pending : Text → ℕ → List ℕ → Program Found
unfolding after_exists after_read
scan_pending worker ttl [] = call (read_new worker) (after_read worker ttl)
scan_pending worker ttl (id ∷ pending) =
    call (lease_exists id) (after_exists id worker ttl (scan_pending worker ttl pending))

after_pending : Text → ℕ → Reply → Program Found
unfolding scan_pending
after_pending worker ttl (ids pending) = scan_pending worker ttl pending
after_pending worker ttl missing_key = scan_pending worker ttl []
after_pending worker ttl _ = refuse call_failed

unfoldable pub next_message : Text → ℕ → Program Found
unfolding after_pending
next_message worker ttl = call pending_ids (after_pending worker ttl)

abbrev pub Claimed : Type 0
Claimed = QueueResult (WrapperJob × WrapperLease)

abbrev pub lease_for : WrapperJob → Text → Text → Time → ℕ → WrapperLease
lease_for job lease_id worker now ttl = record {
  schema_version = schema_version;
  job_id = job.job_id;
  lease_id = lease_id;
  worker_id = worker;
  account_id = job.account_id;
  fence_epoch = job.fence_epoch;
  expires_at = now + ttl * 1000000000;
}

unfoldable pub after_store : WrapperJob → WrapperLease → Reply → Program Claimed
after_store job lease done = finish (accepted (job, lease))
after_store job lease _ = refuse call_failed

unfoldable pub grant : Entry → WrapperJob → Text → ℕ → Option Text → Program Claimed
unfolding after_store
grant e job worker ttl none = refuse call_failed
grant e job worker ttl (some lease_id) = read_clock (λ now.
    let lease = lease_for job lease_id worker now ttl in
    call (store_lease (record { message_id = e.id; lease = lease }) ttl) (after_store job lease))

unfoldable pub after_ack : Program Claimed → Reply → Program Claimed
after_ack next done = next
after_ack next _ = refuse call_failed

unfoldable pub after_terminal :
    Entry → WrapperJob → Text → ℕ → Program Claimed → Reply → Program Claimed
unfolding grant after_ack
after_terminal e job worker ttl next (flag true) = call (ack e.id) (after_ack next)
after_terminal e job worker ttl next (flag false) = draw_id (grant e job worker ttl)
after_terminal e job worker ttl next _ = refuse call_failed

unfoldable pub dead_ack : QueueError → Program Claimed → Reply → Program Claimed
dead_ack reason next done = next
dead_ack reason next _ = refuse (not_dead_lettered reason)

unfoldable pub dead_added : ℕ → QueueError → Program Claimed → Reply → Program Claimed
unfolding dead_ack
dead_added id reason next done = call (ack id) (dead_ack reason next)
dead_added id reason next _ = refuse (not_dead_lettered reason)

unfoldable pub dead_letter : ℕ → QueueError → Program Claimed → Program Claimed
unfolding dead_added
dead_letter id reason next =
    read_clock (λ now. call (add_dead id reason now) (dead_added id reason next))

unfoldable pub after_decode :
    Entry → Text → ℕ → Program Claimed → QueueResult WrapperJob → Program Claimed
unfolding dead_letter after_terminal
after_decode e worker ttl next (refused reason) = dead_letter e.id reason next
after_decode e worker ttl next (accepted job) =
    call (terminal_exists job.job_id) (after_terminal e job worker ttl next)

unfoldable pub after_next : Text → ℕ → Program Claimed → Found → Program Claimed
unfolding after_decode decode_job
after_next worker ttl next (refused e) = refuse e
after_next worker ttl next (accepted none) = refuse nothing
after_next worker ttl next (accepted (some e)) = after_decode e worker ttl next (decode_job e)

unfoldable pub claim_loop : Text → ℕ → ℕ → Program Claimed
unfolding next_message after_next
claim_loop worker ttl zero = refuse nothing
claim_loop worker ttl (suc attempts) =
    after (next_message worker ttl) (after_next worker ttl (claim_loop worker ttl attempts))

unfoldable pub after_group : Text → ℕ → Reply → Program Claimed
unfolding claim_loop
after_group worker ttl done = claim_loop worker ttl 32
after_group worker ttl busy_group = claim_loop worker ttl 32
after_group worker ttl _ = refuse call_failed

unfoldable pub claim_job : WrapperClaim → Program Claimed
unfolding after_group
claim_job c = unless_invalid (validate_claim c) (
    if ltb_ℤ (pos max_lease_seconds) c.lease_ttl_seconds
    then refuse lease_too_long
    else call create_group (after_group c.worker_id (pos_part c.lease_ttl_seconds)))

abbrev pub Settled : Type 0
Settled = QueueResult (Unit {0})

unfoldable pub after_script : Reply → Program Settled
after_script (number n) =
    if n == pos 0
    then finish (accepted tt)
    else if n == pos 1
    then finish (accepted tt)
    else if n == negsuc 1
    then refuse terminal_conflict
    else refuse lease_lost
after_script _ = refuse call_failed

-- Line 220: the script, at the instant that the clock shows.
unfoldable pub run_script : WrapperLease → Text → ℕ → Program Settled
unfolding after_script
run_script lease payload message_id = read_clock (λ now.
    call
      (run_terminal (record {
        job_id = lease.job_id;
        payload = payload;
        lease_id = lease.lease_id;
        message_id = message_id;
        now = unix_milli now;
        expires = unix_milli lease.expires_at;
      }))
      after_script)

unfoldable pub after_owner : WrapperLease → Text → ℕ → Reply → Program Settled
unfolding run_script
after_owner lease payload message_id (text owner) =
    if owner == lease.lease_id then run_script lease payload message_id else refuse lease_lost
after_owner lease payload message_id _ = refuse lease_lost

-- `existed` is len(existing) > 0, of what the first GET found.
unfoldable pub after_record : WrapperLease → Text → Bool → Reply → Program Settled
unfolding after_owner
after_record lease payload existed missing_key =
    if existed then finish (accepted tt) else refuse lease_lost
after_record lease payload existed (leased r) =
    if same_lease r.lease lease
    then call (get_owner r.message_id) (after_owner lease payload r.message_id)
    else refuse lease_lost
after_record lease payload existed _ = refuse call_failed

unfoldable pub check_record : WrapperLease → Text → Bool → Program Settled
unfolding after_record
check_record lease payload existed = read_clock (λ now.
    if not (ltb now lease.expires_at)
    then refuse lease_lost
    else call (get_lease lease.lease_id) (after_record lease payload existed))

unfoldable pub after_existing : WrapperLease → Text → Reply → Program Settled
unfolding check_record
after_existing lease payload (text existing) =
    if not (existing == payload)
    then refuse terminal_conflict
    else read_clock (λ now.
      if not (ltb now lease.expires_at)
      then finish (accepted tt)
      else check_record lease payload (not (is_empty existing)))
after_existing lease payload missing_key = check_record lease payload false
after_existing lease payload _ = refuse call_failed

unfoldable pub write_result : WrapperLease → Text → Program Settled
unfolding after_existing
write_result lease payload =
    unless_invalid (validate_lease lease)
      (call (get_terminal lease.job_id) (after_existing lease payload))

after_get : Reply → Program (QueueResult Text)
after_get (text value) = finish (accepted value)
after_get missing_key = refuse nothing
after_get _ = refuse call_failed

unfoldable pub terminal : Text → Program (QueueResult Text)
unfolding after_get
terminal job_id =
    if is_blank job_id
    then refuse (invalid incomplete_job)
    else call (get_terminal job_id) after_get

module _ (encode : TerminalEnvelope → Text) where
  unfoldable pub complete : WrapperLease → WrapperCompletion → Program Settled
  unfolding write_result
  complete lease c =
      unless_invalid (validate_completion_lease c lease) (write_result lease (encode (completed c)))

  unfoldable pub fail : WrapperLease → WrapperFailure → Program Settled
  unfolding write_result
  fail lease f =
      unless_invalid (validate_failure_lease f lease) (write_result lease (encode (failed_with f)))
