-- ===== src/Base/Map.antt =====
-- Go maps. One that the program only looks up, writes and clears by a test is a function; one that
-- it ranges over or counts is an association list, whose keys `put` keeps distinct.
use mathlib.Core.Path.{◌≡◌, refl}
use mathlib.Core.Bool.{Bool}
use mathlib.Core.List.{List, [], ◌∷◌}
use mathlib.Core.Option.{Option, none, some}
use mathlib.Core.Logic.{◌⊎◌, inl, inr}
use native.Mathlib.Omega.{arith}
use gateway_platform.Base.Tests.{Bool-cases, if◌then◌else◌}
use gateway_platform.Base.Equality.{==→eq, Eq, ◌==◌}

module _ {ℓ κ} {K : Type ℓ} {V : Type κ} ⦃e : Eq K⦄ where
  -- m[k] = v
  abbrev pub update : (K → Option V) → K → V → K → Option V
  update m k v j = if j == k then some v else m j

  -- delete(m, k)
  abbrev pub remove : (K → Option V) → K → K → Option V
  remove m k j = if j == k then none else m j

  -- for k, v := range m { if drop(k, v) { delete(m, k) } }
  abbrev pub remove_if : (K → V → Bool) → (K → Option V) → K → Option V
  remove_if drop m j = elim (m j) [ none ↦ none | some v ↦ if drop j v then none else some v ]

  unfoldable pub lookup : K → List (K × V) → Option V
  lookup k [] = none
  lookup k ((j, v) ∷ m) = if j == k then some v else lookup k m

  unfoldable pub put : K → V → List (K × V) → List (K × V)
  put k v [] = (k, v) ∷ []
  put k v ((j, w) ∷ m) = if j == k then (k, v) ∷ m else (j, w) ∷ put k v m

  unfoldable pub delete : K → List (K × V) → List (K × V)
  delete k [] = []
  delete k ((j, w) ∷ m) = if j == k then delete k m else (j, w) ∷ delete k m

  pub lookup-put :
      (k j : K) (v : V) (m : List (K × V))
      → lookup j (put k v m) ≡ (if k == j then some v else lookup j m)
  unfolding lookup put
  lookup-put k j v [] = refl
  lookup-put k j v ((i, w) ∷ m) =
      ground (arith, e.equal_iff k j, e.equal_iff i k, e.equal_iff i j, lookup-put k j v m)

  pub lookup-delete :
      (k j : K) (m : List (K × V)) → lookup j (delete k m) ≡ (if k == j then none else lookup j m)
  unfolding lookup delete
  lookup-delete k j [] = ground arith
  lookup-delete k j ((i, w) ∷ m) =
      ground (arith, e.equal_iff k j, e.equal_iff i k, e.equal_iff i j, lookup-delete k j m)

  -- Each key stands once, as in a Go map.
  abbrev pub Distinct : List (K × V) → Type κ
  Distinct [] = Unit
  Distinct ((k, v) ∷ m) = (lookup k m ≡ none) × Distinct m

module _ {K V : Type 0} ⦃e : Eq K⦄ where
  -- The pair stands in the list.
  abbrev pub Entry : K → V → List (K × V) → Type 0
  Entry k v [] = ⊥
  Entry k v ((j, w) ∷ m) = ((j ≡ k) × (w ≡ v)) ⊎ Entry k v m

  pub Entry-of_lookup : (k : K) (v : V) (m : List (K × V)) → lookup k m ≡ some v → Entry k v m
  unfolding lookup
  Entry-of_lookup k v [] h = cc
  Entry-of_lookup k v ((j, w) ∷ m) h = ground (arith, e.equal_iff j k, Entry-of_lookup k v m)

  pub lookup_of_Entry :
      (k : K) (v : V) (m : List (K × V)) → Distinct m → Entry k v m → lookup k m ≡ some v
  unfolding lookup
  lookup_of_Entry k v [] d h = elim h [ ]
  lookup_of_Entry k v ((j, w) ∷ m) d (inl (p, q)) = ground (arith, e.equal_iff j k)
  lookup_of_Entry k v ((j, w) ∷ m) d (inr h) = elim (Bool-cases (j == k)) [
    | inl t ↦
        let found : lookup j m ≡ some v = rw (==→eq j k t) (lookup_of_Entry k v m d.1 h) in
        cc (found, d.0)
    | inr f ↦ rw f (lookup_of_Entry k v m d.1 h)
  ]

  -- Writing and deleting keep the keys distinct.
  pub put-Distinct : (k : K) (v : V) (m : List (K × V)) → Distinct m → Distinct (put k v m)
  unfolding put
  put-Distinct k v [] d = (unfold lookup in refl, tt)
  put-Distinct k v ((j, w) ∷ m) d = elim (Bool-cases (j == k)) [
    | inl t ↦ rw t (rw (← ==→eq j k t) d.0, d.1)
    | inr f ↦ rw f (
      ground (arith, lookup-put k j v m, e.equal_iff k j, e.equal_iff j k),
      put-Distinct k v m d.1,
    )
  ]

  pub delete-Distinct : (k : K) (m : List (K × V)) → Distinct m → Distinct (delete k m)
  unfolding delete
  delete-Distinct k [] d = tt
  delete-Distinct k ((j, w) ∷ m) d = elim (Bool-cases (j == k)) [
    | inl t ↦ rw t (delete-Distinct k m d.1)
    | inr f ↦ rw f (ground (arith, lookup-delete k j m), delete-Distinct k m d.1)
  ]
