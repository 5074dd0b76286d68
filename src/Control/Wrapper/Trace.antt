-- ===== src/Control/Wrapper/Trace.antt =====
-- Runs of the queue's methods taken apart call by call.
use gateway_platform.Control.Wrapper.Queue.{QueueResult, unless_invalid, accepted}
use gateway_platform.Contracts.Wrapper.{WrapperError}
use gateway_platform.Base.Text.{Text}
use gateway_platform.Contracts.Types.{Time}
use gateway_platform.Base.{Option, ◌≡◌, refl, Option-cases, inl, inr, none, some}
use gateway_platform.Control.Wrapper.Store.{Reply, Store, execute}
use gateway_platform.Control.Wrapper.Program.{
  Program, finish, call, read_clock, draw_id, after, Answers, computed, chosen, Step, other, Steps,
  stay, then_step, Runs, finished, meanwhile, answered, told, drawn, Inputs, drive,
}

pub Steps-trans : {s t u : Store} → Steps s t → Steps t u → Steps s u
Steps-trans p stay = p
Steps-trans p (then_step q r) = then_step (Steps-trans p q) r

pub Steps-cons : {s t u : Store} → Step s t → Steps t u → Steps s u
Steps-cons p q = Steps-trans (then_step stay p) q

-- What a run of each kind of program consists of.
abbrev pub Parts : {A : Type 0} → Program A → Store → A → Store → Type 0
Parts (finish b) s a t = (a ≡ b) × Steps s t
Parts (call c k) s a t =
    (u : Store) × (r : Reply) × (v : Store) × Steps s u × Answers c u r v × Runs (k r) v a t
Parts (read_clock k) s a t = (now : Time) × (u : Store) × Steps s u × Runs (k now) u a t
Parts (draw_id k) s a t = (id : Option Text) × (u : Store) × Steps s u × Runs (k id) u a t

Parts-later :
    {A : Type 0} (p : Program A) (a : A) (u : Store) {s t : Store}
    → Step s t
    → Parts p t a u
    → Parts p s a u
Parts-later (finish b) a z st (e, q) = (e, Steps-cons st q)
Parts-later (call c k) a z st (u, r, v, q, h, run) = (u, r, v, Steps-cons st q, h, run)
Parts-later (read_clock k) a z st (now, u, q, run) = (now, u, Steps-cons st q, run)
Parts-later (draw_id k) a z st (id, u, q, run) = (id, u, Steps-cons st q, run)

pub Runs-Parts : {A : Type 0} {p : Program A} {s t : Store} {a : A} → Runs p s a t → Parts p s a t
Runs-Parts finished = (refl, stay)
Runs-Parts (meanwhile {p = p} st run) = Parts-later p _ _ st (Runs-Parts run)
Runs-Parts (answered {s = s} {t = v} {r = r} h run) = (s, r, v, stay, h, run)
Runs-Parts (told {s = s} now run) = (now, s, stay, run)
Runs-Parts (drawn {s = s} id run) = (id, s, stay, run)

-- A run is, for the others, a sequence of steps.
pub Runs-Steps : {A : Type 0} {p : Program A} {s t : Store} {a : A} → Runs p s a t → Steps s t
Runs-Steps finished = stay
Runs-Steps (meanwhile st run) = Steps-cons st (Runs-Steps run)
Runs-Steps (answered h run) = Steps-cons (other h) (Runs-Steps run)
Runs-Steps (told now run) = Runs-Steps run
Runs-Steps (drawn id run) = Runs-Steps run

Steps-Runs :
    {A : Type 0} {p : Program A} {s t u : Store} {a : A} → Steps s t → Runs p t a u → Runs p s a u
Steps-Runs stay run = run
Steps-Runs (then_step q st) run = Steps-Runs q (meanwhile st run)

-- A sequence of two programs runs one after the other.
pub Runs-after :
    {A B : Type 0} (p : Program A) (f : A → Program B) {s t : Store} {b : B}
    → Runs (after p f) s b t
    → (a : A) × (u : Store) × Runs p s a u × Runs (f a) u b t
unfolding after
Runs-after (finish a) f {s} run = (a, s, finished, run)
Runs-after (call c k) f run =
    let (u, r, v, q, h, more) = Runs-Parts run in
    let (a, w, p, rest) = Runs-after (k r) f more in (a, w, Steps-Runs q (answered h p), rest)
Runs-after (read_clock k) f run =
    let (now, u, q, more) = Runs-Parts run in
    let (a, w, p, rest) = Runs-after (k now) f more in (a, w, Steps-Runs q (told now p), rest)
Runs-after (draw_id k) f run =
    let (id, u, q, more) = Runs-Parts run in
    let (a, w, p, rest) = Runs-after (k id) f more in (a, w, Steps-Runs q (drawn id p), rest)

-- The run that `drive` computes is one of the runs.
pub drive-Runs :
    {A : Type 0} (p : Program A) (i : Inputs) (s : Store) → Runs p s (drive p i s).0 (drive p i s).1
unfolding drive
drive-Runs (finish a) i s = finished
drive-Runs (call c k) i s = elim (Option-cases (execute c s)) [
  | inl e ↦ rw (e, drive) (answered (chosen _ e) (drive-Runs (k _) _ s))
  | inr ((r, t), e) ↦ rw (e, drive) (answered (computed e) (drive-Runs (k r) i t))
]
drive-Runs (read_clock k) i s = told _ (drive-Runs (k _) _ s)
drive-Runs (draw_id k) i s = drawn _ (drive-Runs (k _) _ s)

-- A method that accepts has passed its validation.
pub Runs-unless_invalid :
    {A : Type 0} (o : Option WrapperError) (p : Program (QueueResult A)) {s t : Store} {a : A}
    → Runs (unless_invalid o p) s (accepted a) t
    → (o ≡ none) × Runs p s (accepted a) t
Runs-unless_invalid none p run = (refl, run)
Runs-unless_invalid (some e) p run = cc ((Runs-Parts run).0)
