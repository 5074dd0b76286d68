-- ===== src/Contracts/Decimal.antt =====
-- pkg/contracts/contracts.go: `Decimal.Valid` and `Decimal.Sign`.
use gateway_platform.Base.{
  ℕ, ◌+◌, ◌-◌, ◌*◌, Bool, true, false, not, ◌&&◌, ◌||◌, Option, none, some, [], ◌∷◌, nat_beq, leb,
  if◌then◌else◌, all, length,
}
use gateway_platform.Base.Int.{ℤ, pos, negsuc, sub_ℕ, ◌-ℤ◌, pos_part, neg_part}
use gateway_platform.Base.Text.{Text, trim_space}

abbrev pub is_digit : ℕ → Bool
is_digit c = leb b'0' c && leb c b'9'

abbrev is_e : ℕ → Bool
is_e c = nat_beq c b'e' || nat_beq c b'E'

-- [0-9]+ up to the end.
unfoldable pub is_digits : Text → Bool
is_digits [] = false
is_digits (c ∷ s) = is_digit c && all is_digit s

-- [+-]?[0-9]+ up to the end.
unfoldable pub is_exponent : Text → Bool
unfolding is_digits
is_exponent [] = false
is_exponent (c ∷ s) = if nat_beq c b'+' || nat_beq c b'-' then is_digits s else is_digits (c ∷ s)

-- [0-9]*([eE][+-]?[0-9]+)? up to the end.
unfoldable pub is_fraction_tail : Text → Bool
unfolding is_exponent
is_fraction_tail [] = true
is_fraction_tail (c ∷ s) = if is_digit c then is_fraction_tail s else is_e c && is_exponent s

-- [0-9]+([eE][+-]?[0-9]+)? up to the end.
unfoldable pub is_fraction : Text → Bool
unfolding is_fraction_tail
is_fraction [] = false
is_fraction (c ∷ s) = is_digit c && is_fraction_tail s

-- (\.[0-9]+)?([eE][+-]?[0-9]+)? up to the end.
unfoldable pub after_integer : Text → Bool
unfolding is_fraction is_exponent
after_integer [] = true
after_integer (c ∷ s) = if nat_beq c b'.' then is_fraction s else is_e c && is_exponent s

-- [0-9]*(\.[0-9]+)?([eE][+-]?[0-9]+)? up to the end.
unfoldable pub integer_tail : Text → Bool
unfolding after_integer
integer_tail [] = true
integer_tail (c ∷ s) = if is_digit c then integer_tail s else after_integer (c ∷ s)

-- (0|[1-9][0-9]*)(\.[0-9]+)?([eE][+-]?[0-9]+)? up to the end.
unfoldable pub unsigned_matches : Text → Bool
unfolding integer_tail
unsigned_matches [] = false
unsigned_matches (c ∷ s) = if nat_beq c b'0' then after_integer s else is_digit c && integer_tail s

-- decimalPattern.MatchString.
unfoldable pub pattern_matches : Text → Bool
unfolding unsigned_matches
pattern_matches [] = false
pattern_matches (c ∷ s) = if nat_beq c b'-' then unsigned_matches s else unsigned_matches (c ∷ s)

-- `Decimal.Valid`: the pattern matches no empty text, so the test for one is part of it.
unfoldable pub valid : Text → Bool
unfolding pattern_matches trim_space
valid d = pattern_matches (trim_space d)

-- The text up to the first `e` or `E`, as strings.IndexAny(raw, "eE") cuts it.
unfoldable pub before_e : Text → Text
before_e [] = []
before_e (c ∷ s) = if is_e c then [] else c ∷ before_e s

-- The text behind that letter; `none` where there is none.
unfoldable pub after_e : Text → Option Text
after_e [] = none
after_e (c ∷ s) = if is_e c then some s else after_e s

-- The text up to the first dot, and the text behind it.
unfoldable pub before_dot : Text → Text
before_dot [] = []
before_dot (c ∷ s) = if nat_beq c b'.' then [] else c ∷ before_dot s

unfoldable pub after_dot : Text → Option Text
after_dot [] = none
after_dot (c ∷ s) = if nat_beq c b'.' then some s else after_dot s

-- The number that a text of digits spells.
unfoldable pub digits_value : ℕ → Text → ℕ
digits_value acc [] = acc
digits_value acc (c ∷ s) = digits_value (acc * 10 + (c - b'0')) s

abbrev pub int64_max : ℕ
int64_max = 9223372036854775807

clamp_pos : ℕ → ℤ
clamp_pos n = if leb n int64_max then pos n else pos int64_max

clamp_neg : ℕ → ℤ
clamp_neg n = if leb n (int64_max + 1) then sub_ℕ 0 n else negsuc int64_max

-- strconv.Atoi with its error dropped: 0 for what is no number, the bound for what is out of range.
unfoldable pub atoi : Text → ℤ
unfolding clamp_pos clamp_neg is_digits digits_value
atoi [] = pos 0
atoi (c ∷ s) =
    if nat_beq c b'-'
    then (if is_digits s then clamp_neg (digits_value 0 s) else pos 0)
    else if nat_beq c b'+'
    then (if is_digits s then clamp_pos (digits_value 0 s) else pos 0)
    else if is_digits (c ∷ s)
    then clamp_pos (digits_value 0 (c ∷ s))
    else pos 0

-- Whether the spelled exponent fits an int64, which `scanExponent` requires.
unfoldable pub exponent_fits : Text → Bool
unfolding digits_value
exponent_fits [] = true
exponent_fits (c ∷ s) =
    if nat_beq c b'-'
    then leb (digits_value 0 s) (int64_max + 1)
    else if nat_beq c b'+'
    then leb (digits_value 0 s) int64_max
    else leb (digits_value 0 (c ∷ s)) int64_max

abbrev pub is_zero_or_dot : ℕ → Bool
is_zero_or_dot c = nat_beq c b'0' || nat_beq c b'.'

-- |n| <= 1e6.
abbrev small_exponent : ℤ → Bool
small_exponent n = leb (pos_part n) 1000000 && leb (neg_part n) 1000000

exponent_of : Option Text → ℤ
unfolding atoi
exponent_of none = pos 0
exponent_of (some s) = atoi s

exponent_scans : Option Text → Bool
unfolding exponent_fits
exponent_scans none = true
exponent_scans (some s) = exponent_fits s

fraction_length : Option Text → ℕ
fraction_length none = 0
fraction_length (some s) = length s

unfoldable pub drop_sign : Text → Text
drop_sign [] = []
drop_sign (c ∷ s) = if nat_beq c b'-' then s else c ∷ s

is_negative : Text → Bool
is_negative [] = false
is_negative (c ∷ s) = nat_beq c b'-'

-- big.Rat.SetString(raw) and its Sign, for a text that the pattern matches: `none` where the
-- conversion fails, which it does for an exponent beyond an int64 and, unless every digit is 0,
-- where the exponent less the fractional digits passes a million either way.
unfoldable pub rat_sign : Text → Option ℤ
unfolding drop_sign before_e after_e after_dot exponent_of exponent_scans fraction_length
    is_negative ◌-ℤ◌
rat_sign raw =
    let mantissa = before_e (drop_sign raw) in
    let exponent = after_e (drop_sign raw) in
    if not (exponent_scans exponent)
    then none
    else if all is_zero_or_dot mantissa
    then some (pos 0)
    else if not
        (small_exponent (exponent_of exponent -ℤ pos (fraction_length (after_dot mantissa))))
    then none
    else if is_negative raw
    then some (negsuc 0)
    else some (pos 1)

-- `Decimal.Sign`: `none` is the false of its second result.
unfoldable pub sign : Text → Option ℤ
unfolding valid rat_sign
sign d = if valid d then rat_sign (trim_space d) else none
