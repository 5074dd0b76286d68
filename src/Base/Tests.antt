-- ===== src/Base/Tests.antt =====
-- Boolean tests on the native numbers, and the conditional.
use Prim.Native.Nat.{ℕ, ◌≤◌, ◌<◌, compare, Ordering}
use mathlib.Core.Path.{◌≡◌, refl, ap}
use mathlib.Core.Logic.{◌↔◌, ◌⊎◌, inl, inr}
use mathlib.Core.Bool.{Bool, true, false}
use mathlib.Core.Option.{Option, none, some}
use native.Mathlib.Omega.{arith}

abbrev pub ltb : ℕ → ℕ → Bool
ltb a b = elim (compare a b) [ Ordering.lt ↦ true | _ ↦ false ]

abbrev pub leb : ℕ → ℕ → Bool
leb a b = elim (compare a b) [ Ordering.gt ↦ false | _ ↦ true ]

abbrev pub nat_beq : ℕ → ℕ → Bool
nat_beq a b = elim (compare a b) [ Ordering.eq ↦ true | _ ↦ false ]

infix 1 if◌then◌else◌
abbrev pub if◌then◌else◌ {ℓ} : {A : Type ℓ} → Bool → A → A → A
if true then x else y = x
if false then x else y = y

pub ltb→lt : (a b : ℕ) → ltb a b ≡ true → a < b
ltb→lt a b h = ground arith

pub lt→ltb : (a b : ℕ) → a < b → ltb a b ≡ true
lt→ltb a b h = ground arith

pub leb→le : (a b : ℕ) → leb a b ≡ true → a ≤ b
leb→le a b h = ground arith

pub nat_beq_iff : (a b : ℕ) → (nat_beq a b ≡ true) ↔ (a ≡ b)
nat_beq_iff a b = ground arith

-- To split on a computed value and keep the equation.
pub Bool-cases : (b : Bool) → (b ≡ true) ⊎ (b ≡ false)
Bool-cases true = inl refl
Bool-cases false = inr refl

pub Option-cases {ℓ} : {A : Type ℓ} (o : Option A) → (o ≡ none) ⊎ ((a : A) × (o ≡ some a))
Option-cases none = inl refl
Option-cases (some a) = inr (a, refl)

-- The comma-ok form of a lookup, and the test of a pointer against nil.
abbrev pub is_some {ℓ} : {A : Type ℓ} → Option A → Bool
is_some none = false
is_some (some _) = true

abbrev pub get_or {ℓ} : {A : Type ℓ} → A → Option A → A
get_or d none = d
get_or d (some a) = a

pub some_inj {ℓ} : {A : Type ℓ} {x y : A} → some x ≡ some y → x ≡ y
some_inj {x = x} h = ap (get_or x) h

-- A test on what a pointer refers to; a nil pointer fails it.
abbrev pub some_and {ℓ} : {A : Type ℓ} → (A → Bool) → Option A → Bool
some_and p none = false
some_and p (some a) = p a

-- A test fails on a pointer exactly if it fails on whatever the pointer refers to.
pub some_and-false {ℓ} :
    {A : Type ℓ} (p : A → Bool) (o : Option A)
    → (some_and p o ≡ false) ↔ ((a : A) → o ≡ some a → p a ≡ false)
some_and-false p none = (λ _ a e. cc, λ _. refl)
some_and-false p (some b) = (λ h a e. cc, λ h. h b refl)

-- A test that decides a statement fails exactly if the statement does.
pub false_iff {ℓ} : {P : Type ℓ} (b : Bool) → (b ≡ true) ↔ P → (b ≡ false) ↔ (P → ⊥)
false_iff true h = (λ e p. cc, λ n. absurd (n (h.0 refl)))
false_iff false h = (λ _ p. false_true (h.1 p), λ _. refl)
  where
    false_true : false ≡ true → ⊥
    false_true e = cc

-- The chain of optional results that a do block stands for.
infixl 5 ◌>>=◌
abbrev pub ◌>>=◌ {ℓ κ} : {A : Type ℓ} {B : Type κ} → Option A → (A → Option B) → Option B
none >>= f = none
some a >>= f = f a
