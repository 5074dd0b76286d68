-- ===== src/Control/Wrapper/Program.antt =====
-- A method of the queue as the tree of its calls: between two calls of one worker the others run, and the
-- server's clock moves. `Runs` is every way in which that can go; `drive` is one of them.
use gateway_platform.Base.{ℕ, Option, none, some, List, [], ◌∷◌, ◌≤◌, ◌≡◌}
use gateway_platform.Base.Text.{Text}
use gateway_platform.Contracts.Types.{Time}
use gateway_platform.Control.Wrapper.Store.{Command, Reply, Store, failed, execute}

-- `read_clock` is q.now(), `draw_id` newLeaseID, which can fail.
pub data Program (A : Type 0) : Type 0 where
  finish : A → Program A
  call : Command → (Reply → Program A) → Program A
  read_clock : (Time → Program A) → Program A
  draw_id : (Option Text → Program A) → Program A

unfoldable pub after : {A B : Type 0} → Program A → (A → Program B) → Program B
after (finish a) f = f a
after (call c k) f = call c (λ r. after (k r) f)
after (read_clock k) f = read_clock (λ t. after (k t) f)
after (draw_id k) f = draw_id (λ i. after (k i) f)

-- A call is made and answered, answered by the server's choice, or fails before or after it took effect.
pub data Answers (c : Command) (s : Store) : Reply → Store → Type 0 where
  computed : {r : Reply} {t : Store} → execute c s ≡ some (r, t) → Answers c s r t
  chosen : (r : Reply) → execute c s ≡ none → Answers c s r s
  unreached : Answers c s failed s
  unanswered : {r : Reply} {t : Store} → execute c s ≡ some (r, t) → Answers c s failed t

-- A step of the rest of the system: any call of any client, or the passing of time.
pub data Step (s : Store) : Store → Type 0 where
  other : {c : Command} {r : Reply} {t : Store} → Answers c s r t → Step s t
  tick : (now : ℕ) → s.clock ≤ now → Step s (record s { clock = now })

pub data Steps (s : Store) : Store → Type 0 where
  stay : Steps s s
  then_step : {t u : Store} → Steps s t → Step t u → Steps s u

pub data Runs {A : Type 0} : Program A → Store → A → Store → Type 0 where
  finished : {a : A} {s : Store} → Runs (finish a) s a s
  meanwhile : {p : Program A} {s t u : Store} {a : A} → Step s t → Runs p t a u → Runs p s a u
  answered :
      {c : Command} {k : Reply → Program A} {s t u : Store} {r : Reply} {a : A}
      → Answers c s r t
      → Runs (k r) t a u
      → Runs (call c k) s a u
  told :
      {k : Time → Program A} {s t : Store} {a : A} (now : Time)
      → Runs (k now) s a t
      → Runs (read_clock k) s a t
  drawn :
      {k : Option Text → Program A} {s t : Store} {a : A} (id : Option Text)
      → Runs (k id) s a t
      → Runs (draw_id k) s a t

-- A run without interference, on the given choices of the server, instants and ids.
pub record Inputs : Type 0 where
  pub replies : List Reply
  pub instants : List Time
  pub lease_ids : List (Option Text)

abbrev first {ℓ} : {A : Type ℓ} → A → List A → A
first a [] = a
first a (x ∷ xs) = x

abbrev rest {ℓ} : {A : Type ℓ} → List A → List A
rest [] = []
rest (x ∷ xs) = xs

unfoldable pub drive : {A : Type 0} → Program A → Inputs → Store → A × Store
drive (finish a) i s = (a, s)
drive (call c k) i s = elim (execute c s) [
  | some (r, t) ↦ drive (k r) i t
  | none ↦ drive (k (first failed i.replies)) (record i { replies = rest i.replies }) s
]
drive (read_clock k) i s =
    drive (k (first 0 i.instants)) (record i { instants = rest i.instants }) s
drive (draw_id k) i s =
    drive (k (first none i.lease_ids)) (record i { lease_ids = rest i.lease_ids }) s
