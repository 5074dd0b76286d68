-- ===== src/Control/Wrapper/Grants.antt =====
-- Claim: what a worker that is given a job has been given, whatever the others do meanwhile.
use gateway_platform.Base.Int.{pos_part, ltb_ℤ, pos}
use gateway_platform.Control.Wrapper.Trace.{
  Steps-trans, Runs-Parts, Runs-after, Runs-Steps, Runs-unless_invalid,
}
use gateway_platform.Control.Wrapper.Program.{
  Steps, Runs, Answers, computed, chosen, unanswered, unreached, Program, stay, then_step, other,
  call,
}
use gateway_platform.Contracts.Types.{Time}
use gateway_platform.Contracts.Wrapper.{
  WrapperLease, WrapperJob, validate_job, validate_claim, WrapperClaim,
}
use gateway_platform.Control.Wrapper.Queue.{
  after_store, accepted, lease_for, grant, Claimed, after_ack, dead_ack, dead_added, dead_letter,
  after_terminal, decode_job, refuse, after_next, claim_loop, after_group, claim_job, after_decode,
  QueueResult, refused, next_message,
}
use gateway_platform.Control.Wrapper.Store.{
  Store, execute, set_lease, expiry, Reply, LeasedMessage, store_lease, live, done, failed,
  terminal_exists, Entry, flag, Command, QueueError, call_failed, ack, add_dead, nothing,
  busy_group, max_lease_seconds, create_group,
}
use gateway_platform.Base.{
  ℕ, false, Option, none, some, ◌≡◌, refl, sym, subst, arith, nat_eq, list_eq, is_some, true, ◌<◌,
  suc, ◌≤◌, Bool-cases, inl, inr, zero,
}
use gateway_platform.Base.Text.{Text, text_beq_iff}

-- The lease is recorded, and owns its message.
abbrev pub Holds : Store → ℕ → WrapperLease → ℕ → Type 0
Holds s id lease ttl =
    (s.leases lease.lease_id ≡ some (record { message_id = id; lease = lease }, expiry s ttl))
    × (s.owners id ≡ some (lease.lease_id, expiry s ttl))

-- The job is valid; at one moment of the run it has no result, and at a later one the lease, which
-- repeats the job's identity, is recorded and owns the message.
abbrev pub Granted : Text → ℕ → Store → WrapperJob → WrapperLease → Store → Type 0
Granted worker ttl s job lease t =
    (u : Store) × (v : Store) × (id : ℕ) × (now : Time) × Steps s u
    × Steps u v
    × Steps v t
    × (validate_job job ≡ none)
    × (is_some (live u.clock (u.terminals job.job_id)) ≡ false)
    × Holds v id lease ttl
    × (lease ≡ lease_for job lease.lease_id worker now ttl)

Granted-later :
    {s u v : Store} (worker : Text) (ttl : ℕ) (job : WrapperJob) (lease : WrapperLease)
    → Steps s u
    → Granted worker ttl u job lease v
    → Granted worker ttl s job lease v
Granted-later worker ttl job lease p (a, b, id, now, q, r, e, ok, fresh, held, names) =
    (a, b, id, now, Steps-trans p q, r, e, ok, fresh, held, names)

after_store-accepted :
    (job : WrapperJob) (lease : WrapperLease) (r : Reply) {s t : Store}
    {a : WrapperJob × WrapperLease}
    → Runs (after_store job lease r) s (accepted a) t
    → (r ≡ done) × (a ≡ (job, lease)) × Steps s t
unfolding after_store
after_store-accepted job lease failed run = cc ((Runs-Parts run).0)
after_store-accepted job lease done run = let (e, q) = Runs-Parts run in (refl, cc, q)
after_store-accepted job lease _ run = cc ((Runs-Parts run).0)

store_lease-Holds :
    {m : LeasedMessage} {ttl : ℕ} {r : Reply} {s t : Store}
    → Answers (store_lease m ttl) s r t
    → r ≡ done
    → Holds t m.message_id m.lease ttl
unfolding execute set_lease
store_lease-Holds {m} {ttl} {r} {s} {t} (computed h) e =
    (ground (arith, text_beq_iff m.lease.lease_id m.lease.lease_id), ground arith)
store_lease-Holds (chosen _ h) e = cc
store_lease-Holds unreached e = cc
store_lease-Holds (unanswered h) e = cc

-- The moment at which EXISTS found no result, and the grant behind it.
grant-Granted :
    (e : Entry) (job : WrapperJob) (worker : Text) (ttl : ℕ) (o : Option Text) {u s t : Store}
    {a : WrapperJob × WrapperLease}
    → validate_job job ≡ none
    → is_some (live u.clock (u.terminals job.job_id)) ≡ false
    → Steps u s
    → Runs (grant e job worker ttl o) s (accepted a) t
    → Granted worker ttl u a.0 a.1 t
unfolding grant
grant-Granted e job worker ttl none ok fresh before run = cc ((Runs-Parts run).0)
grant-Granted e job worker ttl (some lease_id) {u} {s} {t} ok fresh before run =
    let (now, v, p, called) = Runs-Parts run in
    let (w, r, x, q, h, more) = Runs-Parts called in
    let lease = lease_for job lease_id worker now ttl in
    let (reply, result, rest) = after_store-accepted job lease r more in
    let held = store_lease-Holds h reply in
    let steps = then_step (Steps-trans before (Steps-trans p q)) (other h) in
    let granted : Granted worker ttl u job lease t =
      (u, x, e.id, now, stay, steps, rest, ok, fresh, held, refl) in
    subst (λ a. Granted worker ttl u a.0 a.1 t) (sym result) granted

terminal_missing :
    {job_id : Text} {r : Reply} {s t : Store}
    → Answers (terminal_exists job_id) s r t
    → r ≡ flag false
    → is_some (live t.clock (t.terminals job_id)) ≡ false
unfolding execute
terminal_missing (computed h) e = ground arith
terminal_missing (chosen _ h) e = cc
terminal_missing unreached e = cc
terminal_missing (unanswered h) e = cc

-- Every accepted run of the program is a grant.
abbrev Grants : Text → ℕ → Program Claimed → Type 0
Grants worker ttl p =
    (s t : Store) (a : WrapperJob × WrapperLease)
    → Runs p s (accepted a) t
    → Granted worker ttl s a.0 a.1 t

-- After one call, the program goes on as one that grants.
call-Grants :
    (worker : Text) (ttl : ℕ) (c : Command) (k : Reply → Program Claimed)
    → ((r : Reply) → Grants worker ttl (k r))
    → Grants worker ttl (call c k)
call-Grants worker ttl c k safe s t a run =
    let (u, r, v, p, h, more) = Runs-Parts run in
    Granted-later worker ttl a.0 a.1 (then_step p (other h)) (safe r v t a more)

refuse-Grants : (worker : Text) (ttl : ℕ) (e : QueueError) → Grants worker ttl (refuse e)
refuse-Grants worker ttl e s t a run = cc ((Runs-Parts run).0)

decode_job-valid :
    (e : Entry) (job : WrapperJob) → decode_job e ≡ accepted job → validate_job job ≡ none
unfolding decode_job
decode_job-valid e job h = ground arith

validate_claim-ttl : (c : WrapperClaim) → validate_claim c ≡ none → 0 < pos_part c.lease_ttl_seconds
unfolding validate_claim
validate_claim-ttl c h = ground arith

module _ (worker : Text) (ttl : ℕ) (next : Program Claimed) (safe : Grants worker ttl next) where
  after_ack-Grants : (r : Reply) → Grants worker ttl (after_ack next r)
  unfolding after_ack
  after_ack-Grants failed = refuse-Grants worker ttl call_failed
  after_ack-Grants done = safe
  after_ack-Grants _ = refuse-Grants worker ttl call_failed

  dead_ack-Grants : (e : QueueError) (r : Reply) → Grants worker ttl (dead_ack e next r)
  unfolding dead_ack
  dead_ack-Grants e failed = refuse-Grants worker ttl _
  dead_ack-Grants e done = safe
  dead_ack-Grants e _ = refuse-Grants worker ttl _

  dead_added-Grants :
      (id : ℕ) (e : QueueError) (r : Reply) → Grants worker ttl (dead_added id e next r)
  unfolding dead_added
  dead_added-Grants id e failed = refuse-Grants worker ttl _
  dead_added-Grants id e done =
      call-Grants worker ttl (ack id) (dead_ack e next) (dead_ack-Grants e)
  dead_added-Grants id e _ = refuse-Grants worker ttl _

  dead_letter-Grants : (id : ℕ) (e : QueueError) → Grants worker ttl (dead_letter id e next)
  unfolding dead_letter
  dead_letter-Grants id e s t a run =
      let (now, u, p, more) = Runs-Parts run in
      Granted-later worker ttl a.0 a.1 p (
        call-Grants worker ttl (add_dead id e now) (dead_added id e next) (dead_added-Grants id e) u
          t a more)

  after_terminal-Grants :
      (e : Entry) (job : WrapperJob) (r : Reply) (s t : Store) (a : WrapperJob × WrapperLease)
      → validate_job job ≡ none
      → (r ≡ flag false → is_some (live s.clock (s.terminals job.job_id)) ≡ false)
      → Runs (after_terminal e job worker ttl next r) s (accepted a) t
      → Granted worker ttl s a.0 a.1 t
  unfolding after_terminal
  after_terminal-Grants e job failed s t a ok fresh run = refuse-Grants worker ttl _ s t a run
  after_terminal-Grants e job (flag true) s t a ok fresh run =
      call-Grants worker ttl (ack e.id) (after_ack next) after_ack-Grants s t a run
  after_terminal-Grants e job (flag false) s t a ok fresh run =
      let (id, u, p, more) = Runs-Parts run in
      grant-Granted e job worker ttl id ok (fresh refl) p more
  after_terminal-Grants e job _ s t a ok fresh run = refuse-Grants worker ttl _ s t a run

  after_next-Grants :
      (f : QueueResult (Option Entry)) → Grants worker ttl (after_next worker ttl next f)
  unfolding after_next after_decode
  after_next-Grants (refused e) s t a run = refuse-Grants worker ttl e s t a run
  after_next-Grants (accepted none) s t a run = refuse-Grants worker ttl nothing s t a run
  after_next-Grants (accepted (some e)) s t a run = decoded (decode_job e) refl run
    where
      decoded :
          (d : QueueResult WrapperJob)
          → decode_job e ≡ d
          → Runs (after_decode e worker ttl next d) s (accepted a) t
          → Granted worker ttl s a.0 a.1 t
      decoded (refused reason) eq run = dead_letter-Grants e.id reason s t a run
      decoded (accepted job) eq run =
          let (u, r, v, p, h, more) = Runs-Parts run in
          Granted-later worker ttl a.0 a.1 (then_step p (other h)) (
            after_terminal-Grants e job r v t a (decode_job-valid e job eq) (terminal_missing h)
              more)

claim_loop-Grants :
    (worker : Text) (ttl attempts : ℕ) → Grants worker ttl (claim_loop worker ttl attempts)
unfolding claim_loop
claim_loop-Grants worker ttl zero s t a run = refuse-Grants worker ttl nothing s t a run
claim_loop-Grants worker ttl (suc attempts) s t a run =
    let (f, u, first, more) = Runs-after (next_message worker ttl) _ run in
    let rest = claim_loop worker ttl attempts in
    Granted-later worker ttl a.0 a.1 (Runs-Steps first)
      (after_next-Grants worker ttl rest (claim_loop-Grants worker ttl attempts) f u t a more)

after_group-Grants :
    (worker : Text) (ttl : ℕ) (r : Reply) → Grants worker ttl (after_group worker ttl r)
unfolding after_group
after_group-Grants worker ttl failed = refuse-Grants worker ttl call_failed
after_group-Grants worker ttl done = claim_loop-Grants worker ttl 32
after_group-Grants worker ttl busy_group = claim_loop-Grants worker ttl 32
after_group-Grants worker ttl _ = refuse-Grants worker ttl call_failed

-- A claim that succeeds returns a valid job and a lease under the claim's worker that repeats the job's
-- identity; at some moment of the run the job had no result, and at a later one the lease was
-- recorded and owned its message for the claim's time to live, of fifteen minutes at most.
pub claim_job-Granted :
    (c : WrapperClaim) {s t : Store} {job : WrapperJob} {lease : WrapperLease}
    → Runs (claim_job c) s (accepted (job, lease)) t
    → Granted c.worker_id (pos_part c.lease_ttl_seconds) s job lease t
      × (0 < pos_part c.lease_ttl_seconds)
      × (pos_part c.lease_ttl_seconds ≤ max_lease_seconds)
unfolding claim_job
claim_job-Granted c {s} {t} {job} {lease} run =
    let (ok, sent) = Runs-unless_invalid (validate_claim c) _ run in
    elim (Bool-cases (ltb_ℤ (pos max_lease_seconds) c.lease_ttl_seconds)) [
      | inl long ↦ cc ((Runs-Parts (rw long at sent)).0)
      | inr short ↦ (
        call-Grants c.worker_id (pos_part c.lease_ttl_seconds) create_group _
            (after_group-Grants c.worker_id (pos_part c.lease_ttl_seconds)) s t (job, lease)
            (rw short at sent),
        validate_claim-ttl c ok,
        ground arith,
      )
    ]
