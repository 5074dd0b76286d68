-- ===== src/Control/Wrapper/Agreement.antt =====
-- Complete and Fail against all that the other workers do between their calls.
use gateway_platform.Contracts.Wrapper.{
  WrapperLease, validate_lease, WrapperCompletion, validate_completion_lease, WrapperFailure,
  validate_failure_lease,
}
use gateway_platform.Control.Wrapper.Queue.{
  after_script, run_script, after_owner, after_record, check_record, accepted, same_lease,
  after_existing, write_result, TerminalEnvelope, complete, Settled, fail, completed, failed_with,
}
use gateway_platform.Control.Wrapper.Trace.{
  Steps-trans, Runs-Parts, Runs-Steps, Runs-unless_invalid,
}
use gateway_platform.Control.Wrapper.Standing.{
  Stands, clock-execute, live-some, Steps-clock, Steps-Stands,
}
use gateway_platform.Control.Wrapper.Program.{
  Steps, Answers, computed, Runs, chosen, then_step, other, stay, unanswered, Program, unreached,
}
use gateway_platform.Control.Wrapper.Store.{
  Store, TerminalCall, get_terminal, run_terminal, text, number, or_missing, execute,
  terminal_script, write_terminal, Reply, live, leased, failed, missing_key,
}
use gateway_platform.Base.{
  ℕ, true, false, Option, none, some, ◌≡◌, refl, subst, ◌<◌, arith, ◌⊎◌, inl, inr, Bool-cases, ◌==◌,
  nat_eq, list_eq, Bool, Option-cases, ltb, ==→eq,
}
use gateway_platform.Base.Text.{Text, text_beq_iff}
use gateway_platform.Base.Int.{int_beq_iff, pos, negsuc, ℤ, int_eq}

-- At some moment of the run from `s` to `t` the table held the result.
abbrev pub Recorded : Store → Store → Text → Text → Type 0
Recorded s t job_id payload =
    (u : Store) × (x : ℕ) × Steps s u × Steps u t × Stands u job_id payload x × (u.clock < x)

Recorded-within :
    {s u v t : Store} (job_id payload : Text)
    → Steps s u
    → Recorded u v job_id payload
    → Steps v t
    → Recorded s t job_id payload
Recorded-within job_id payload p (w, x, q, r, st, lt) more =
    (w, x, Steps-trans p q, Steps-trans r more, st, lt)

or_missing_text : (o : Option Text) (value : Text) → or_missing text o ≡ text value → o ≡ some value
or_missing_text none value h = cc
or_missing_text (some v) value h = cc

get_terminal_text :
    {job_id value : Text} {s t : Store}
    → Answers (get_terminal job_id) s (text value) t
    → (x : ℕ) × Stands t job_id value x × (t.clock < x)
unfolding execute
get_terminal_text {job_id} {value} {s} {t} (computed h) =
    let seen : or_missing text (live s.clock (s.terminals job_id)) ≡ text value = cc in
    let same : s ≡ t = cc in
    subst (λ t. (x : ℕ) × Stands t job_id value x × (t.clock < x)) same
      (live-some s.clock (s.terminals job_id) value (or_missing_text _ value seen))
get_terminal_text (chosen _ h) = cc

-- What the table holds where the script accepts.
terminal_script-accepts :
    (c : TerminalCall) (s : Store) (n : ℤ)
    → (terminal_script c s).0 ≡ number n
    → (n ≡ pos 0) ⊎ (n ≡ pos 1)
    → live s.clock ((terminal_script c s).1.terminals c.job_id) ≡ some c.payload
unfolding terminal_script write_terminal
terminal_script-accepts c s n h a = elim (Option-cases (live s.clock (s.terminals c.job_id))) [
  | inl e ↦ ground (arith, text_beq_iff c.job_id c.job_id)
  | inr (existing, e) ↦ ground (arith, text_beq_iff existing c.payload)
]

run_terminal_number :
    {c : TerminalCall} {s t : Store} {r : Reply} {n : ℤ}
    → Answers (run_terminal c) s r t
    → r ≡ number n
    → (n ≡ pos 0) ⊎ (n ≡ pos 1)
    → (x : ℕ) × Stands t c.job_id c.payload x × (t.clock < x)
unfolding execute
run_terminal_number {c} {s} {t} {r} {n} (computed h) e a =
    let clock : t.clock ≡ s.clock = clock-execute (run_terminal c) s r t h in
    let seen : live s.clock (t.terminals c.job_id) ≡ some c.payload =
      ground (arith, terminal_script-accepts c s n) in
    live-some t.clock (t.terminals c.job_id) c.payload (rw clock seen)
run_terminal_number (chosen _ h) e a = cc
run_terminal_number unreached e a = cc
run_terminal_number (unanswered h) e a = cc

after_script-accepted :
    (r : Reply) {s t : Store}
    → Runs (after_script r) s (accepted tt) t
    → (n : ℤ) × (r ≡ number n) × ((n ≡ pos 0) ⊎ (n ≡ pos 1))
unfolding after_script
after_script-accepted failed run = cc ((Runs-Parts run).0)
after_script-accepted (number n) run = elim (Bool-cases (n == pos 0)) [
  | inl e ↦ (n, refl, inl ((int_beq_iff n (pos 0)).0 e))
  | inr e ↦ elim (Bool-cases (n == pos 1)) [
    | inl f ↦ (n, refl, inr ((int_beq_iff n (pos 1)).0 f))
    | inr f ↦ elim (Bool-cases (n == negsuc 1)) [
      | inl g ↦ cc ((Runs-Parts (rw (e, f, g) at run)).0)
      | inr g ↦ cc ((Runs-Parts (rw (e, f, g) at run)).0)
    ]
  ]
]
after_script-accepted _ run = cc ((Runs-Parts run).0)

-- The call of the script, with the arguments of a lease.
run_script-Recorded :
    (lease : WrapperLease) (payload : Text) (id : ℕ) {s t : Store}
    → Runs (run_script lease payload id) s (accepted tt) t
    → Recorded s t lease.job_id payload
unfolding run_script
run_script-Recorded lease payload id run =
    let (now, u, p, called) = Runs-Parts run in
    let (v, r, w, q, h, more) = Runs-Parts called in
    let (n, reply, ok) = after_script-accepted r more in
    let (x, st, lt) = run_terminal_number h reply ok in
    (w, x, then_step (Steps-trans p q) (other h), Runs-Steps more, st, lt)

after_owner-Recorded :
    (lease : WrapperLease) (payload : Text) (id : ℕ) (r : Reply) {s t : Store}
    → Runs (after_owner lease payload id r) s (accepted tt) t
    → Recorded s t lease.job_id payload
unfolding after_owner
after_owner-Recorded lease payload id failed run = cc ((Runs-Parts run).0)
after_owner-Recorded lease payload id (text owner) run =
    elim (Bool-cases (owner == lease.lease_id)) [
      | inl e ↦ run_script-Recorded lease payload id (rw e at run)
      | inr e ↦ cc ((Runs-Parts (rw e at run)).0)
    ]
after_owner-Recorded lease payload id _ run = cc ((Runs-Parts run).0)

after_record-Recorded :
    (lease : WrapperLease) (payload : Text) (existed : Bool) (r : Reply) {s t : Store}
    → Runs (after_record lease payload existed r) s (accepted tt) t
    → (existed ≡ true) ⊎ Recorded s t lease.job_id payload
unfolding after_record
after_record-Recorded lease payload existed failed run = cc ((Runs-Parts run).0)
after_record-Recorded lease payload true missing_key run = inl refl
after_record-Recorded lease payload false missing_key run = cc ((Runs-Parts run).0)
after_record-Recorded lease payload existed (leased r) run =
    elim (Bool-cases (same_lease r.lease lease)) [
      | inl e ↦
          let (u, q, v, p, h, more) = Runs-Parts (rw e at run) in
          inr (
            Recorded-within lease.job_id payload (then_step p (other h))
              (after_owner-Recorded lease payload r.message_id q more) stay)
      | inr e ↦ cc ((Runs-Parts (rw e at run)).0)
    ]
after_record-Recorded lease payload existed _ run = cc ((Runs-Parts run).0)

check_record-Recorded :
    (lease : WrapperLease) (payload : Text) (existed : Bool) {s t : Store}
    → Runs (check_record lease payload existed) s (accepted tt) t
    → (existed ≡ true) ⊎ Recorded s t lease.job_id payload
unfolding check_record
check_record-Recorded lease payload existed run =
    let (now, u, p, tested) = Runs-Parts run in
    elim (Bool-cases (ltb now lease.expires_at)) [
      | inl e ↦
          let (v, r, w, q, h, more) = Runs-Parts (rw e at tested) in
          elim (after_record-Recorded lease payload existed r more) [
            | inl was ↦ inl was
            | inr rec ↦ inr (
                Recorded-within lease.job_id payload (then_step (Steps-trans p q) (other h)) rec
                  stay)
          ]
      | inr e ↦ cc ((Runs-Parts (rw e at tested)).0)
    ]

after_existing-Recorded :
    (lease : WrapperLease) (payload : Text) (r : Reply) {u s t : Store}
    → Answers (get_terminal lease.job_id) u r s
    → Runs (after_existing lease payload r) s (accepted tt) t
    → Recorded s t lease.job_id payload
unfolding after_existing
after_existing-Recorded lease payload failed h run = cc ((Runs-Parts run).0)
after_existing-Recorded lease payload missing_key h run =
    elim (check_record-Recorded lease payload false run) [ inl e ↦ cc | inr rec ↦ rec ]
after_existing-Recorded lease payload (text existing) {s = s} {t = t} h run =
    elim (Bool-cases (existing == payload)) [
      | inl e ↦
          let (x, st, lt) = get_terminal_text h in
          let here = subst (λ p. Stands s lease.job_id p x) (==→eq existing payload e) st in
          (s, x, stay, Runs-Steps run, here, lt)
      | inr e ↦ cc ((Runs-Parts (rw e at run)).0)
    ]
after_existing-Recorded lease payload _ h run = cc ((Runs-Parts run).0)

pub write_result-Recorded :
    (lease : WrapperLease) (payload : Text) {s t : Store}
    → Runs (write_result lease payload) s (accepted tt) t
    → Recorded s t lease.job_id payload
unfolding write_result
write_result-Recorded lease payload run =
    let (_, sent) = Runs-unless_invalid (validate_lease lease) _ run in
    let (u, r, v, q, h, more) = Runs-Parts sent in
    Recorded-within lease.job_id payload (then_step q (other h))
      (after_existing-Recorded lease payload r h more) stay

-- A call is Complete or Fail under a lease, with the result that it reports.
module _ (encode : TerminalEnvelope → Text) where
  pub data Reports (lease : WrapperLease) : TerminalEnvelope → Program Settled → Type 0 where
    by_complete : (c : WrapperCompletion) → Reports lease (completed c) (complete encode lease c)
    by_fail : (f : WrapperFailure) → Reports lease (failed_with f) (fail encode lease f)

  -- Whatever the other workers do between its calls, a Complete or Fail that succeeds has its result in
  -- the table at some moment of the run.
  pub Reports-Recorded :
      {lease : WrapperLease} {e : TerminalEnvelope} {p : Program Settled} {s t : Store}
      → Reports lease e p
      → Runs p s (accepted tt) t
      → Recorded s t lease.job_id (encode e)
  unfolding complete fail
  Reports-Recorded {lease} (by_complete c) run =
      let (_, sent) = Runs-unless_invalid (validate_completion_lease c lease) _ run in
      write_result-Recorded lease (encode (completed c)) sent
  Reports-Recorded {lease} (by_fail f) run =
      let (_, sent) = Runs-unless_invalid (validate_failure_lease f lease) _ run in
      write_result-Recorded lease (encode (failed_with f)) sent

  -- Once a job has a result, a Complete or Fail for the job that returns before the result expires
  -- succeeds only if it reports the same result, under whatever lease and whatever the others do.
  pub result-Stands :
      {lease : WrapperLease} {e : TerminalEnvelope} {p : Program Settled} {u s t : Store}
      {job_id payload : Text} {x : ℕ}
      → Reports lease e p
      → lease.job_id ≡ job_id
      → Stands u job_id payload x
      → Steps u s
      → Runs p s (accepted tt) t
      → t.clock < x
      → encode e ≡ payload
  result-Stands {lease} {e} {t = t} {job_id} {payload} {x} rep same st q run lt =
      let (v, y, before, after, found, alive) = Reports-Recorded rep run in
      let early : v.clock < x = omega (arith, Steps-clock after) in
      let kept = Steps-Stands job_id payload x (Steps-trans q before) early st in
      let there : Stands v job_id (encode e) y = subst (λ j. Stands v j (encode e) y) same found in
      cc
