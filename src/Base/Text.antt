-- ===== src/Base/Text.antt =====
-- Go strings as lists of code points: valid UTF-8 only. `len` counts bytes, `range` code points,
-- and the byte order of two strings is the order of their code points.
pub mod Numerals
use gateway_platform.Base.{suc, ◌/◌, ◌%◌, zero}
use Prim.Native.Nat.{ℕ, ◌+◌, suc}
use Prim.Native.Char.{code}
use Prim.Native.String.{String}
use mathlib.Core.Path.{◌≡◌, refl}
use mathlib.Core.Logic.{◌↔◌, ◌⊎◌, inl, inr}
use mathlib.Core.Bool.{Bool, true, false, ◌&&◌, ◌||◌}
use mathlib.Core.List.{List, [], ◌∷◌, reverse}
use native.Mathlib.Omega.{arith}
use gateway_platform.Base.Equality.{◌==◌, list_beq_iff, nat_eq, list_eq}
use gateway_platform.Base.Tests.{ltb, leb, nat_beq, if◌then◌else◌}

abbrev pub Text : Type 0
Text = List ℕ

-- A string literal.
abbrev pub codes : String → Text
codes String.[] = []
codes (String.◌∷◌ c s) = code c ∷ codes s

-- unicode.IsSpace.
unfoldable pub is_space : ℕ → Bool
is_space c =
    (leb 9 c && leb c 13)
    || nat_beq c 32
    || nat_beq c 0x85
    || nat_beq c 0xa0
    || nat_beq c 0x1680
    || (leb 0x2000 c && leb c 0x200a)
    || nat_beq c 0x2028
    || nat_beq c 0x2029
    || nat_beq c 0x202f
    || nat_beq c 0x205f
    || nat_beq c 0x3000

unfoldable pub trim_left : (ℕ → Bool) → Text → Text
trim_left p [] = []
trim_left p (c ∷ s) = if p c then trim_left p s else c ∷ s

-- strings.TrimSpace.
unfoldable pub trim_space : Text → Text
unfolding is_space trim_left
trim_space s = reverse (trim_left is_space (reverse (trim_left is_space s)))

abbrev pub is_empty : Text → Bool
is_empty [] = true
is_empty (c ∷ s) = false

-- strings.TrimSpace(s) == "".
unfoldable pub is_blank : Text → Bool
unfolding trim_space
is_blank s = is_empty (trim_space s)

-- strings.HasPrefix and strings.Contains.
unfoldable pub has_prefix : Text → Text → Bool
has_prefix [] s = true
has_prefix (c ∷ p) [] = false
has_prefix (c ∷ p) (d ∷ s) = nat_beq c d && has_prefix p s

unfoldable pub contains_text : Text → Text → Bool
unfolding has_prefix
contains_text p [] = has_prefix p []
contains_text p (c ∷ s) = has_prefix p (c ∷ s) || contains_text p s

-- `==` on strings, as an equation.
pub text_beq_iff : (s t : Text) → ((s == t) ≡ true) ↔ (s ≡ t)
text_beq_iff s t = list_beq_iff s t

abbrev rune_len : ℕ → ℕ
rune_len c = if ltb c 0x80 then 1 else if ltb c 0x800 then 2 else if ltb c 0x10000 then 3 else 4

-- len(s).
unfoldable pub byte_len : Text → ℕ
byte_len [] = 0
byte_len (c ∷ s) = rune_len c + byte_len s

-- s <= t, as sort.Strings compares.
unfoldable pub text_leb : Text → Text → Bool
text_leb [] t = true
text_leb (c ∷ s) [] = false
text_leb (c ∷ s) (d ∷ t) = if ltb c d then true else nat_beq c d && text_leb s t

pub text_leb_refl : (s : Text) → text_leb s s ≡ true
unfolding text_leb
text_leb_refl [] = refl
text_leb_refl (c ∷ s) = ground (arith, text_leb_refl s)

pub text_leb_total : (s t : Text) → (text_leb s t ≡ true) ⊎ (text_leb t s ≡ true)
unfolding text_leb
text_leb_total [] t = inl refl
text_leb_total (c ∷ s) [] = inr refl
text_leb_total (c ∷ s) (d ∷ t) = ground (arith, text_leb_total s t)

pub text_leb_trans :
    (s t u : Text) → text_leb s t ≡ true → text_leb t u ≡ true → text_leb s u ≡ true
unfolding text_leb
text_leb_trans [] t u h k = refl
text_leb_trans (c ∷ s) [] u h k = cc
text_leb_trans (c ∷ s) (d ∷ t) [] h k = cc
text_leb_trans (c ∷ s) (d ∷ t) (e ∷ u) h k = ground (arith, text_leb_trans s t u)

pub text_leb_antisymm : (s t : Text) → text_leb s t ≡ true → text_leb t s ≡ true → s ≡ t
unfolding text_leb
text_leb_antisymm [] [] h k = refl
text_leb_antisymm [] (d ∷ t) h k = cc
text_leb_antisymm (c ∷ s) [] h k = cc
text_leb_antisymm (c ∷ s) (d ∷ t) h k = ground (arith, text_leb_antisymm s t)

-- The decimal digits of a number in front of a text; each step takes one digit off, and a number has
-- fewer digits than its successor counts.
digits : ℕ → ℕ → Text → Text
digits zero n after = after
digits (suc fuel) n after =
    let rest = digits fuel (n / 10) ((48 + n % 10) ∷ after) in
    if ltb n 10 then (48 + n) ∷ after else rest

-- %d of a number that is not negative.
unfoldable pub format_nat : ℕ → Text
unfolding digits
format_nat n = digits (suc n) n []
