-- ===== src/Base/Text/Numerals.antt =====
-- strconv.FormatInt and strconv.ParseInt in base ten.
use gateway_platform.Base.{◌∙◌, All}
use Prim.Native.Nat.{ℕ, zero, suc, ◌+◌, ◌-◌, ◌*◌, ◌/◌, ◌%◌, ◌<◌}
use mathlib.Core.Path.{◌≡◌, refl, ◌∙◌}
use mathlib.Core.Bool.{Bool, true, false, ◌&&◌}
use mathlib.Core.List.{[], ◌∷◌}
use mathlib.Core.Option.{Option, none, some}
use native.Mathlib.Omega.{arith}
use gateway_platform.Base.Tests.{ltb, leb, nat_beq, if◌then◌else◌, Bool-cases}
use gateway_platform.Base.Int.{ℤ, pos, negsuc, sub_ℕ}
use gateway_platform.Base.Text.{Text, digits, format_nat, inl, inr}

abbrev pub is_digit : ℕ → Bool
is_digit c = leb b'0' c && leb c b'9'

unfoldable pub parse_digits : ℕ → Text → Option ℕ
parse_digits acc [] = some acc
parse_digits acc (c ∷ s) =
    let rest = parse_digits (acc * 10 + (c - 48)) s in if is_digit c then rest else none

unfoldable pub parse_nat : Text → Option ℕ
unfolding parse_digits
parse_nat [] = none
parse_nat (c ∷ s) = parse_digits 0 (c ∷ s)

-- The range of an int64: an error outside of it.
abbrev in_range : Bool → ℕ → Option ℤ
in_range negative n =
    if negative
    then (if leb n 9223372036854775808 then some (sub_ℕ 0 n) else none)
    else (if ltb n 9223372036854775808 then some (pos n) else none)

abbrev ranged : Bool → Option ℕ → Option ℤ
ranged negative none = none
ranged negative (some n) = in_range negative n

unfoldable pub parse_int : Text → Option ℤ
unfolding parse_nat
parse_int [] = none
parse_int (c ∷ s) =
    if nat_beq c b'-'
    then ranged true (parse_nat s)
    else if nat_beq c b'+'
    then ranged false (parse_nat s)
    else ranged false (parse_nat (c ∷ s))

unfoldable pub format_int : ℤ → Text
format_int (pos n) = format_nat n
format_int (negsuc n) = b'-' ∷ format_nat (suc n)

parse_digits-digits :
    (fuel n : ℕ) (after : Text)
    → n < fuel
    → parse_digits 0 (digits fuel n after) ≡ parse_digits n after
unfolding digits parse_digits
parse_digits-digits zero n after h = absurd (omega arith)
parse_digits-digits (suc fuel) n after h = elim (Bool-cases (ltb n 10)) [
  | inl e ↦ rw e (ground arith)
  | inr e ↦ rw e (
      parse_digits-digits fuel (n / 10) ((48 + n % 10) ∷ after) (ground arith)
      ∙ digit_taken n after)
]
  where
    digit_taken :
        (n : ℕ) (after : Text)
        → parse_digits (n / 10) ((48 + n % 10) ∷ after) ≡ parse_digits n after
    digit_taken n after =
        let last : is_digit (48 + n % 10) ≡ true = ground arith in
        let whole : n / 10 * 10 + (48 + n % 10 - 48) ≡ n = omega arith in rw (last, whole) refl

-- The first digit.
digits-cons :
    (fuel n : ℕ) (after : Text)
    → n < fuel
    → (c : ℕ) × (s : Text) × (digits fuel n after ≡ c ∷ s) × (is_digit c ≡ true)
unfolding digits
digits-cons zero n after h = absurd (omega arith)
digits-cons (suc fuel) n after h = elim (Bool-cases (ltb n 10)) [
  | inl e ↦ rw e (48 + n, after, refl, ground arith)
  | inr e ↦ rw e (digits-cons fuel (n / 10) ((48 + n % 10) ∷ after) (ground arith))
]

parse_nat-cons : (s : Text) (c : ℕ) (r : Text) → s ≡ c ∷ r → parse_nat s ≡ parse_digits 0 s
unfolding parse_nat
parse_nat-cons [] c r h = cc
parse_nat-cons (d ∷ s) c r h = refl

parse_nat-format_nat : (n : ℕ) → parse_nat (format_nat n) ≡ some n
unfolding format_nat
parse_nat-format_nat n =
    let (c, r, e, _) = digits-cons (suc n) n [] (omega arith) in
    parse_nat-cons (digits (suc n) n []) c r e
    ∙ (parse_digits-digits (suc n) n [] (omega arith) ∙ (unfold parse_digits in refl))

-- A number that starts with a digit has no sign.
parse_int-unsigned :
    (s : Text) (c : ℕ) (r : Text)
    → s ≡ c ∷ r
    → is_digit c ≡ true
    → parse_int s ≡ ranged false (parse_nat s)
unfolding parse_int
parse_int-unsigned [] c r e h = cc
parse_int-unsigned (d ∷ s) c r e h =
    let first : is_digit d ≡ true = rw (cons_head d s c r e) h in ground arith
  where
    cons_head : (d : ℕ) (s : Text) (c : ℕ) (r : Text) → d ∷ s ≡ c ∷ r → d ≡ c
    cons_head d s c r e = cc

-- The values of an int64.
abbrev pub IsInt64 : ℤ → Type 0
IsInt64 (pos n) = n < 9223372036854775808
IsInt64 (negsuc n) = n < 9223372036854775808

-- What FormatInt writes, ParseInt reads back.
pub parse_int-format_int : (z : ℤ) → IsInt64 z → parse_int (format_int z) ≡ some z
unfolding format_int
parse_int-format_int (pos n) h =
    let (c, r, e, digit) = digits-cons (suc n) n [] (omega arith) in
    parse_int-unsigned (format_nat n) c r (unfold format_nat in e) digit
    ∙ rw (parse_nat-format_nat n) (ground arith)
parse_int-format_int (negsuc n) h =
    unfold parse_int in rw (parse_nat-format_nat (suc n)) (ground arith)

digits-IsByte :
    (fuel n : ℕ) (after : Text)
    → All (λ c. c < 256) after
    → All (λ c. c < 256) (digits fuel n after)
unfolding digits
digits-IsByte zero n after h = h
digits-IsByte (suc fuel) n after h = elim (Bool-cases (ltb n 10)) [
  | inl e ↦ rw e (ground arith, h)
  | inr e ↦ rw e (digits-IsByte fuel (n / 10) ((48 + n % 10) ∷ after) (omega arith, h))
]

-- A formatted number is ASCII.
pub format_int-IsByte : (z : ℤ) → All (λ c. c < 256) (format_int z)
unfolding format_int format_nat
format_int-IsByte (pos n) = digits-IsByte (suc n) n [] tt
format_int-IsByte (negsuc n) = (omega arith, digits-IsByte (suc (suc n)) (suc n) [] tt)
