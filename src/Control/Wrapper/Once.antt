-- ===== src/Control/Wrapper/Once.antt =====
-- Enqueue is idempotent for as long as the key of the job lives.
use gateway_platform.Control.Wrapper.Trace.{Runs-Parts, Runs-Steps, Runs-unless_invalid}
use gateway_platform.Control.Wrapper.Standing.{Step-clock, Answers-clock, Steps-clock}
use gateway_platform.Control.Wrapper.Queue.{enqueued_reply, enqueue, accepted}
use gateway_platform.Control.Wrapper.Program.{
  Step, Steps, other, then_step, Answers, Runs, computed, tick, chosen, unanswered, stay, unreached,
}
use gateway_platform.Contracts.Wrapper.{WrapperJob, validate_job}
use gateway_platform.Base.Text.{Text, text_beq_iff}
use gateway_platform.Base.{
  ◌≡◌, ℕ, List, some, ◌∷◌, ◌<◌, ◌++◌, if◌then◌else◌, arith, Bool-cases, ◌==◌, [], inl, nat_eq,
  list_eq, refl, ==→eq, inr, false, ◌∙◌, subst,
}
use gateway_platform.Control.Wrapper.Store.{
  Entry, Store, enqueue_script, added_entry, execute, Command, terminal_script, Reply,
  write_terminal, run_enqueue, set_owner, message, set_lease, create_group, failed,
}

-- The key that marks a job as enqueued, and the entries that bear the job's id.
abbrev pub Enqueued : Store → Text → ℕ → ℕ → Type 0
Enqueued s job_id id x = s.enqueued job_id ≡ some (id, x)

unfoldable pub entries_of : Text → List Entry → List Entry
entries_of job_id [] = []
entries_of job_id (e ∷ es) =
    if e.job_id == job_id then e ∷ entries_of job_id es else entries_of job_id es

entries_of-other :
    (job_id : Text) (es : List Entry) (e : Entry)
    → (e.job_id == job_id) ≡ false
    → entries_of job_id (es ++ e ∷ []) ≡ entries_of job_id es
unfolding entries_of
entries_of-other job_id [] e h = ground arith
entries_of-other job_id (f ∷ es) e h = ground (arith, entries_of-other job_id es e)

-- The job stays enqueued and gets no second entry.
abbrev pub SameEntries : Store → Store → Text → ℕ → ℕ → Type 0
SameEntries s t job_id id x =
    Enqueued t job_id id x × (entries_of job_id t.entries ≡ entries_of job_id s.entries)

enqueue_script-SameEntries :
    (job : WrapperJob) (s : Store) (job_id : Text) (id x : ℕ)
    → Enqueued s job_id id x
    → s.clock < x
    → SameEntries s (enqueue_script job s).1 job_id id x
unfolding enqueue_script entries_of
enqueue_script-SameEntries job s job_id id x h lt = elim (Bool-cases (job.job_id == job_id)) [
  | inl e ↦
      let there : s.enqueued job.job_id ≡ some (id, x) = rw (==→eq job.job_id job_id e) h in
      ground arith
  | inr e ↦ ground (
    arith,
    text_beq_iff job_id job.job_id,
    text_beq_iff job.job_id job_id,
    entries_of-other job_id s.entries (added_entry job s),
  )
]

execute-SameEntries :
    (c : Command) (s : Store) (r : Reply) (t : Store) (job_id : Text) (id x : ℕ)
    → execute c s ≡ some (r, t)
    → s.clock < x
    → Enqueued s job_id id x
    → SameEntries s t job_id id x
unfolding execute terminal_script write_terminal set_owner set_lease
execute-SameEntries create_group s r t job_id id x h lt st = cc
execute-SameEntries (run_enqueue job) s r t job_id id x h lt st =
    ground (arith, enqueue_script-SameEntries job s job_id id x)
execute-SameEntries c s r t job_id id x h lt st = ground arith

Answers-SameEntries :
    {c : Command} {s : Store} {r : Reply} {t : Store} (job_id : Text) (id x : ℕ)
    → Answers c s r t
    → s.clock < x
    → Enqueued s job_id id x
    → SameEntries s t job_id id x
Answers-SameEntries {c} {s} {r} {t} job_id id x (computed h) lt st =
    execute-SameEntries c s r t job_id id x h lt st
Answers-SameEntries job_id id x (chosen r h) lt st = (st, refl)
Answers-SameEntries job_id id x unreached lt st = (st, refl)
Answers-SameEntries {c} {s} {r} {t} job_id id x (unanswered {r = q} h) lt st =
    execute-SameEntries c s q t job_id id x h lt st

Step-SameEntries :
    {s t : Store} (job_id : Text) (id x : ℕ)
    → Step s t
    → s.clock < x
    → Enqueued s job_id id x
    → SameEntries s t job_id id x
Step-SameEntries job_id id x (other h) lt st = Answers-SameEntries job_id id x h lt st
Step-SameEntries job_id id x (tick now h) lt st = (st, refl)

Steps-SameEntries :
    {s t : Store} (job_id : Text) (id x : ℕ)
    → Steps s t
    → t.clock < x
    → Enqueued s job_id id x
    → SameEntries s t job_id id x
Steps-SameEntries job_id id x stay lt st = (st, refl)
Steps-SameEntries job_id id x (then_step {t = u} q step) lt st =
    let before : u.clock < x = omega (arith, Step-clock step) in
    let (kept, same) = Steps-SameEntries job_id id x q before st in
    let (now, then_same) = Step-SameEntries job_id id x step before kept in (now, then_same ∙ same)

enqueued_reply-accepted :
    (r : Reply) {s t : Store} {id : ℕ} → Runs (enqueued_reply r) s (accepted id) t → r ≡ message id
unfolding enqueued_reply
enqueued_reply-accepted failed run = cc ((Runs-Parts run).0)
enqueued_reply-accepted (message id) run = cc ((Runs-Parts run).0)
enqueued_reply-accepted _ run = cc ((Runs-Parts run).0)

-- The script answers the id of a key that lives.
enqueue_message :
    {job : WrapperJob} {s t : Store} {n id x : ℕ}
    → Answers (run_enqueue job) s (message n) t
    → Enqueued s job.job_id id x
    → s.clock < x
    → n ≡ id
unfolding execute enqueue_script
enqueue_message (computed h) st lt = ground arith
enqueue_message (chosen _ h) st lt = cc

-- Whatever the other clients do meanwhile, enqueuing a job again while its key lives answers the id of
-- the entry that is there, and the stream gets no second entry for the job.
pub enqueue_idempotent :
    (job : WrapperJob) {s t : Store} {id again x : ℕ}
    → Enqueued s job.job_id id x
    → Runs (enqueue job) s (accepted again) t
    → t.clock < x
    → (again ≡ id) × (entries_of job.job_id t.entries ≡ entries_of job.job_id s.entries)
unfolding enqueue
enqueue_idempotent job {id = id} {again = again} {x = x} st run lt =
    let (_, sent) = Runs-unless_invalid (validate_job job) _ run in
    let (u, r, v, q, h, more) = Runs-Parts sent in
    let before : u.clock < x = omega (arith, Answers-clock h, Steps-clock (Runs-Steps more)) in
    let (kept, _) = Steps-SameEntries job.job_id id x q before st in
    let reply = enqueued_reply-accepted r more in
    let answer = subst (λ r. Answers (run_enqueue job) u r v) reply h in
    (
      enqueue_message answer kept before,
      (Steps-SameEntries job.job_id id x (Runs-Steps run) lt st).1,
    )
