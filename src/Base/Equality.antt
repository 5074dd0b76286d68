-- ===== src/Base/Equality.antt =====
-- Go's `==` on comparable types: an interface with an instance for each type the program compares.
use Prim.Native.Nat.{ℕ}
use mathlib.Core.Path.{◌≡◌, refl, sym, ◌∙◌}
use mathlib.Core.Logic.{◌↔◌, ◌≢◌, inl, inr}
use mathlib.Core.Bool.{Bool, true, false, ◌&&◌}
use mathlib.Core.List.{List, [], ◌∷◌}
use native.Mathlib.Omega.{arith}
use gateway_platform.Base.Tests.{nat_beq, nat_beq_iff, Bool-cases}

pub record Eq {ℓ} (A : Type ℓ) : Type ℓ where
  pub equal : A → A → Bool
  pub equal_iff : (a b : A) → (equal a b ≡ true) ↔ (a ≡ b)

infix 50 ◌==◌
abbrev pub ◌==◌ {ℓ} : {A : Type ℓ} ⦃eq : Eq A⦄ → A → A → Bool
◌==◌ ⦃eq⦄ a b = eq.equal a b

module _ {ℓ} {A : Type ℓ} ⦃e : Eq A⦄ where
  pub ==_refl : (a : A) → (a == a) ≡ true
  ==_refl a = (e.equal_iff a a).1 refl

  pub ==→eq : (a b : A) → (a == b) ≡ true → a ≡ b
  ==→eq a b h = (e.equal_iff a b).0 h

  pub ne→== : (a b : A) → a ≢ b → (a == b) ≡ false
  ne→== a b h = elim (Bool-cases (a == b)) [ inl t ↦ absurd (h (==→eq a b t)) | inr f ↦ f ]

  pub ==_sym : (a b : A) → (a == b) ≡ (b == a)
  ==_sym a b = elim (Bool-cases (a == b)) [
    | inl t ↦ t ∙ sym ((e.equal_iff b a).1 (sym (==→eq a b t)))
    | inr f ↦ f ∙ sym (ne→== b a (λ q. absurd (false_true (sym f ∙ (e.equal_iff a b).1 (sym q)))))
  ]
    where
      false_true : false ≡ true → ⊥
      false_true h = cc

  unfoldable pub list_beq : List A → List A → Bool
  list_beq [] [] = true
  list_beq [] (y ∷ ys) = false
  list_beq (x ∷ xs) [] = false
  list_beq (x ∷ xs) (y ∷ ys) = (x == y) && list_beq xs ys

  pub list_beq_iff : (xs ys : List A) → (list_beq xs ys ≡ true) ↔ (xs ≡ ys)
  unfolding list_beq
  list_beq_iff [] [] = (λ _. refl, λ _. refl)
  list_beq_iff [] (y ∷ ys) = (λ h. cc, λ h. cc)
  list_beq_iff (x ∷ xs) [] = (λ h. cc, λ h. cc)
  list_beq_iff (x ∷ xs) (y ∷ ys) = ground (arith, e.equal_iff x y, list_beq_iff xs ys)

instance abbrev pub nat_eq : Eq ℕ
nat_eq = record { equal = nat_beq; equal_iff = nat_beq_iff }

instance abbrev pub list_eq {ℓ} : {A : Type ℓ} ⦃e : Eq A⦄ → Eq (List A)
list_eq = record { equal = list_beq; equal_iff = list_beq_iff }
