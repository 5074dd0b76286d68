-- ===== src/Control/Console/Cursor.antt =====
-- internal/control/console_cursor.go. A cursor names the last row of a page; its sort value is a string of
-- bytes.
use mathlib.Core.List.{reverse, reverse-append, reverse-reverse}
use gateway_platform.Base.Text.Numerals.{
  parse_int, format_int, IsInt64, format_int-IsByte, parse_int-format_int,
}
use gateway_platform.Control.Console.Base64.{
  encode64, decode64, IsSymbol, IsByte, encode64-IsSymbol, decode64-encode64,
}
use gateway_platform.Base.{
  ℕ, Option, none, some, List, [], ◌∷◌, ◌++◌, ◌≡◌, ◌≢◌, refl, arith, nat_beq, if◌then◌else◌, All,
  false,
}
use gateway_platform.Base.Int.{ℤ, pos, ◌+ℤ◌}
use gateway_platform.Base.Text.{Text, is_empty, trim_space, trim_left, is_space}

pub record ConsoleCursor : Type 0 where
  pub sort : List ℕ
  pub id : ℤ

pub data CursorResult : Type 0 where
  cursor : ConsoleCursor → CursorResult
  bad_cursor : CursorResult

unfoldable pub encode_cursor : List ℕ → ℤ → Text
encode_cursor sort id = encode64 (sort ++ (0 ∷ format_int id))

-- SplitN at the first zero byte, into two parts; `none` where there is none.
unfoldable pub split_zero : List ℕ → Option (List ℕ × List ℕ)
split_zero [] = none
split_zero (c ∷ s) =
    if nat_beq c 0
    then some ([], s)
    else elim (split_zero s) [ none ↦ none | some (a, b) ↦ some (c ∷ a, b) ]

abbrev with_id : List ℕ → Option ℤ → CursorResult
with_id sort none = bad_cursor
with_id sort (some id) = cursor (record { sort = sort; id = id })

abbrev positioned : Option (List ℕ × List ℕ) → CursorResult
positioned none = bad_cursor
positioned (some (sort, id)) = with_id sort (parse_int id)

abbrev decoded : Option (List ℕ) → CursorResult
decoded none = bad_cursor
decoded (some bytes) = positioned (split_zero bytes)

unfoldable pub parse_cursor : Text → CursorResult
parse_cursor raw =
    let text = trim_space raw in
    if is_empty text then cursor (record { sort = []; id = pos 0 }) else decoded (decode64 text)

-- One row more than the page holds.
unfoldable pub fetch_limit : ℤ → ℤ
fetch_limit limit = limit +ℤ pos 1

split_zero-append :
    (sort rest : List ℕ)
    → All (λ b. b ≢ 0) sort
    → split_zero (sort ++ (0 ∷ rest)) ≡ some (sort, rest)
unfolding split_zero
split_zero-append [] rest h = refl
split_zero-append (c ∷ s) rest h = ground (arith, split_zero-append s rest h.1)

trim_left-symbols : (s : Text) → All IsSymbol s → trim_left is_space s ≡ s
unfolding trim_left is_space
trim_left-symbols [] h = refl
trim_left-symbols (c ∷ s) h = ground arith

All-append : (P : ℕ → Type 0) (xs ys : List ℕ) → All P xs → All P ys → All P (xs ++ ys)
All-append P [] ys h k = k
All-append P (x ∷ xs) ys h k = (h.0, All-append P xs ys h.1 k)

All-reverse : (P : ℕ → Type 0) (xs : List ℕ) → All P xs → All P (reverse xs)
All-reverse P [] h = tt
All-reverse P (x ∷ xs) h =
    rw (reverse-append (x ∷ []) xs)
      (All-append P (reverse xs) (x ∷ []) (All-reverse P xs h.1) (h.0, tt))

trim_space-symbols : (s : Text) → All IsSymbol s → trim_space s ≡ s
unfolding trim_space
trim_space-symbols s h =
    rw (trim_left-symbols s h, trim_left-symbols (reverse s) (All-reverse IsSymbol s h))
      (reverse-reverse s)

encode64-cons : (b : ℕ) (bytes : List ℕ) → is_empty (encode64 (b ∷ bytes)) ≡ false
unfolding encode64
encode64-cons a [] = refl
encode64-cons a (b ∷ []) = refl
encode64-cons a (b ∷ c ∷ bytes) = refl

encode_cursor-filled : (sort : List ℕ) (id : ℤ) → is_empty (encode_cursor sort id) ≡ false
unfolding encode_cursor
encode_cursor-filled [] id = encode64-cons 0 (format_int id)
encode_cursor-filled (b ∷ sort) id = encode64-cons b (sort ++ (0 ∷ format_int id))

-- A sort value that has no zero byte, and an id of 64 bits, are read back from their cursor.
pub parse_cursor-encode_cursor :
    (sort : List ℕ) (id : ℤ)
    → All IsByte sort
    → All (λ b. b ≢ 0) sort
    → IsInt64 id
    → parse_cursor (encode_cursor sort id) ≡ cursor (record { sort = sort; id = id })
unfolding parse_cursor
parse_cursor-encode_cursor sort id bytes plain small =
    let all_bytes =
      All-append IsByte sort (0 ∷ format_int id) bytes (omega arith, format_int-IsByte id) in
    let text =
      trim_space-symbols (encode_cursor sort id)
        (unfold encode_cursor in encode64-IsSymbol (sort ++ (0 ∷ format_int id)) all_bytes) in
    let back : decode64 (encode_cursor sort id) ≡ some (sort ++ (0 ∷ format_int id)) =
      unfold encode_cursor in decode64-encode64 (sort ++ (0 ∷ format_int id)) all_bytes in
    rw
      (
        text,
        encode_cursor-filled sort id,
        back,
        split_zero-append sort (format_int id) plain,
        parse_int-format_int id small,
      )
      refl
