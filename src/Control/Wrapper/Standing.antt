-- ===== src/Control/Wrapper/Standing.antt =====
-- What the other clients leave alone: a recorded result, until it expires.
use gateway_platform.Control.Wrapper.Program.{
  Answers, computed, Step, Steps, chosen, other, then_step, unanswered, tick, stay, unreached,
}
use gateway_platform.Base.{
  ℕ, some, ◌≡◌, ◌<◌, arith, inl, inr, Bool-cases, ◌==◌, nat_eq, list_eq, ==→eq, ◌≤◌, refl, Option,
  none,
}
use gateway_platform.Base.Text.{Text, text_beq_iff}
use gateway_platform.Control.Wrapper.Store.{
  Store, TerminalCall, Command, Reply, execute, terminal_script, create_group, run_terminal,
  write_terminal, enqueue_script, set_owner, set_lease, live,
}

-- The result stands in the table, and expires at `x`.
abbrev pub Stands : Store → Text → Text → ℕ → Type 0
Stands s job_id payload x = s.terminals job_id ≡ some (payload, x)

-- A value that is read has not expired.
pub live-some {ℓ} :
    {A : Type ℓ} (now : ℕ) (o : Option (A × ℕ)) (a : A)
    → live now o ≡ some a
    → (x : ℕ) × (o ≡ some (a, x)) × (now < x)
live-some now none a h = cc
live-some now (some (b, x)) a h = (x, ground arith, ground arith)

terminal_script-Stands :
    (c : TerminalCall) (s : Store) (job_id payload : Text) (x : ℕ)
    → Stands s job_id payload x
    → s.clock < x
    → Stands (terminal_script c s).1 job_id payload x
unfolding terminal_script write_terminal
terminal_script-Stands c s job_id payload x h lt = elim (Bool-cases (c.job_id == job_id)) [
  | inl e ↦
      let there : s.terminals c.job_id ≡ some (payload, x) = rw (==→eq c.job_id job_id e) h in
      ground (arith, text_beq_iff c.job_id job_id)
  | inr e ↦ ground (arith, text_beq_iff job_id c.job_id, text_beq_iff c.job_id job_id)
]

pub clock-execute :
    (c : Command) (s : Store) (r : Reply) (t : Store)
    → execute c s ≡ some (r, t)
    → t.clock ≡ s.clock
unfolding execute enqueue_script terminal_script write_terminal set_owner set_lease
clock-execute create_group s r t h = cc
clock-execute c s r t h = ground arith

pub execute-Stands :
    (c : Command) (s : Store) (r : Reply) (t : Store) (job_id payload : Text) (x : ℕ)
    → execute c s ≡ some (r, t)
    → s.clock < x
    → Stands s job_id payload x
    → Stands t job_id payload x
unfolding execute enqueue_script set_owner set_lease
execute-Stands create_group s r t job_id payload x h lt st = cc
execute-Stands (run_terminal c) s r t job_id payload x h lt st =
    ground (arith, terminal_script-Stands c s job_id payload x)
execute-Stands c s r t job_id payload x h lt st = ground arith

pub Answers-Stands :
    {c : Command} {s : Store} {r : Reply} {t : Store} (job_id payload : Text) (x : ℕ)
    → Answers c s r t
    → s.clock < x
    → Stands s job_id payload x
    → Stands t job_id payload x × (t.clock ≡ s.clock)
Answers-Stands {c} {s} {r} {t} job_id payload x (computed h) lt st =
    (execute-Stands c s r t job_id payload x h lt st, clock-execute c s r t h)
Answers-Stands job_id payload x (chosen r h) lt st = (st, refl)
Answers-Stands job_id payload x unreached lt st = (st, refl)
Answers-Stands {c} {s} {r} {t} job_id payload x (unanswered {r = q} h) lt st =
    (execute-Stands c s q t job_id payload x h lt st, clock-execute c s q t h)

pub Answers-clock :
    {c : Command} {s : Store} {r : Reply} {t : Store} → Answers c s r t → t.clock ≡ s.clock
Answers-clock {c} {s} {r} {t} (computed h) = clock-execute c s r t h
Answers-clock (chosen r h) = refl
Answers-clock unreached = refl
Answers-clock {c} {s} {r} {t} (unanswered {r = q} h) = clock-execute c s q t h

pub Step-clock : {s t : Store} → Step s t → s.clock ≤ t.clock
Step-clock (other h) = omega (arith, Answers-clock h)
Step-clock (tick now h) = h

-- The server's clock does not go back.
pub Steps-clock : {s t : Store} → Steps s t → s.clock ≤ t.clock
Steps-clock stay = omega arith
Steps-clock (then_step q st) = omega (arith, Steps-clock q, Step-clock st)

Step-Stands :
    {s t : Store} (job_id payload : Text) (x : ℕ)
    → Step s t
    → s.clock < x
    → Stands s job_id payload x
    → Stands t job_id payload x
Step-Stands job_id payload x (other h) lt st = (Answers-Stands job_id payload x h lt st).0
Step-Stands job_id payload x (tick now h) lt st = st

-- Whatever the other clients do, a result that is recorded stands until it expires.
pub Steps-Stands :
    {s t : Store} (job_id payload : Text) (x : ℕ)
    → Steps s t
    → t.clock < x
    → Stands s job_id payload x
    → Stands t job_id payload x
Steps-Stands job_id payload x stay lt st = st
Steps-Stands job_id payload x (then_step {t = u} q step) lt st =
    let before : u.clock < x = omega (arith, Step-clock step) in
    Step-Stands job_id payload x step before (Steps-Stands job_id payload x q before st)
