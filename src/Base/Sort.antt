-- ===== src/Base/Sort.antt =====
-- sort.Strings: the ascending permutation of its argument, by insertion.
use mathlib.Core.Path.{◌≡◌}
use mathlib.Core.Bool.{true, false}
use mathlib.Core.List.{List, [], ◌∷◌, Perm}
use mathlib.Core.List.Perm
use mathlib.Core.Logic.{◌↔◌, ◌⊎◌, inl, inr}
use native.Mathlib.Omega.{arith}
use gateway_platform.Base.Tests.{if◌then◌else◌, Bool-cases}
use gateway_platform.Base.Lists.{All, Elem}
use gateway_platform.Base.Text.{Text, text_leb, text_leb_total, text_leb_trans}

unfoldable pub insert_text : Text → List Text → List Text
insert_text s [] = s ∷ []
insert_text s (t ∷ ts) = if text_leb s t then s ∷ t ∷ ts else t ∷ insert_text s ts

unfoldable pub sort_strings : List Text → List Text
unfolding insert_text text_leb
sort_strings [] = []
sort_strings (s ∷ ts) = insert_text s (sort_strings ts)

pub insert_text-perm : (s : Text) (ts : List Text) → Perm (insert_text s ts) (s ∷ ts)
unfolding insert_text
insert_text-perm s [] = Perm.refl _
insert_text-perm s (t ∷ ts) = elim (Bool-cases (text_leb s t)) [
  | inl e ↦ rw e (Perm.refl _)
  | inr e ↦ rw e (Perm.trans (Perm.cons t (insert_text-perm s ts)) (Perm.swap s t ts))
]

-- The sorted list holds the same strings, as often.
pub sort_strings-perm : (ts : List Text) → Perm (sort_strings ts) ts
unfolding sort_strings
sort_strings-perm [] = Perm.refl _
sort_strings-perm (s ∷ ts) =
    Perm.trans (insert_text-perm s (sort_strings ts)) (Perm.cons s (sort_strings-perm ts))

-- Ascending, each string against the one behind it.
abbrev pub IsSorted : List Text → Type 0
IsSorted [] = Unit
IsSorted (s ∷ ts) = All (λ t. text_leb s t ≡ true) ts × IsSorted ts

All-insert_text :
    (u s : Text) (ts : List Text)
    → text_leb u s ≡ true
    → All (λ t. text_leb u t ≡ true) ts
    → All (λ t. text_leb u t ≡ true) (insert_text s ts)
unfolding insert_text
All-insert_text u s [] h k = (h, tt)
All-insert_text u s (t ∷ ts) h k = elim (Bool-cases (text_leb s t)) [
  | inl e ↦ rw e (h, k)
  | inr e ↦ rw e (k.0, All-insert_text u s ts h k.1)
]

All-text_leb_trans :
    (u s : Text) (ts : List Text)
    → text_leb u s ≡ true
    → All (λ t. text_leb s t ≡ true) ts
    → All (λ t. text_leb u t ≡ true) ts
All-text_leb_trans u s [] h k = tt
All-text_leb_trans u s (t ∷ ts) h k = (text_leb_trans u s t h k.0, All-text_leb_trans u s ts h k.1)

insert_text-IsSorted : (s : Text) (ts : List Text) → IsSorted ts → IsSorted (insert_text s ts)
unfolding insert_text
insert_text-IsSorted s [] h = (tt, tt)
insert_text-IsSorted s (t ∷ ts) h = elim (Bool-cases (text_leb s t)) [
  | inl e ↦ rw e ((e, All-text_leb_trans s t ts e h.0), h)
  | inr e ↦ rw e (All-insert_text t s ts (above e) h.0, insert_text-IsSorted s ts h.1)
]
  where
    above : text_leb s t ≡ false → text_leb t s ≡ true
    above e = ground (arith, text_leb_total s t)

pub sort_strings-IsSorted : (ts : List Text) → IsSorted (sort_strings ts)
unfolding sort_strings
sort_strings-IsSorted [] = tt
sort_strings-IsSorted (s ∷ ts) = insert_text-IsSorted s (sort_strings ts) (sort_strings-IsSorted ts)

Elem-insert_text : (a s : Text) (ts : List Text) → Elem a (insert_text s ts) → (s ≡ a) ⊎ Elem a ts
unfolding insert_text
Elem-insert_text a s [] h = h
Elem-insert_text a s (t ∷ ts) h = ground (arith, Elem-insert_text a s ts)

insert_text-Elem : (a s : Text) (ts : List Text) → (s ≡ a) ⊎ Elem a ts → Elem a (insert_text s ts)
unfolding insert_text
insert_text-Elem a s [] h = h
insert_text-Elem a s (t ∷ ts) h = ground (arith, insert_text-Elem a s ts)

-- Sorting loses no string and makes none up.
pub Elem-sort_strings : (a : Text) (ts : List Text) → Elem a (sort_strings ts) ↔ Elem a ts
unfolding sort_strings
Elem-sort_strings a [] = (λ h. h, λ h. h)
Elem-sort_strings a (s ∷ ts) = (
  λ h. elim (Elem-insert_text a s (sort_strings ts) h) [
    | inl p ↦ inl p
    | inr q ↦ inr ((Elem-sort_strings a ts).0 q)
  ],
  λ h.
      insert_text-Elem a s (sort_strings ts)
        (elim h [ inl p ↦ inl p | inr q ↦ inr ((Elem-sort_strings a ts).1 q) ]),
)
