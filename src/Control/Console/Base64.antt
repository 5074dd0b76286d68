-- ===== src/Control/Console/Base64.antt =====
-- encoding/base64, RawURLEncoding: no padding, and the alphabet with '-' and '_'.
use gateway_platform.Base.{
  ℕ, Bool, false, ◌&&◌, ◌||◌, not, Option, none, some, List, [], ◌∷◌, ◌++◌, ◌+◌, ◌-◌, ◌*◌, ◌/◌, ◌%◌,
  ◌<◌, ◌≡◌, arith, ltb, leb, nat_beq, if◌then◌else◌, keep, map, All, ◌≤◌, refl,
}
use gateway_platform.Base.Text.{Text}

-- The character for six bits.
unfoldable pub symbol : ℕ → ℕ
symbol v =
    if ltb v 26
    then v + 65
    else if ltb v 52
    then v + 71
    else if ltb v 62
    then v - 4
    else if nat_beq v 62
    then 45
    else 95

unfoldable pub value_of : ℕ → Option ℕ
value_of c =
    if leb 65 c && leb c 90
    then some (c - 65)
    else if leb 97 c && leb c 122
    then some (c - 71)
    else if leb 48 c && leb c 57
    then some (c + 4)
    else if nat_beq c 45
    then some 62
    else if nat_beq c 95
    then some 63
    else none

unfoldable pub encode64 : List ℕ → Text
encode64 [] = []
encode64 (a ∷ []) = symbol (a / 4) ∷ symbol (a % 4 * 16) ∷ []
encode64 (a ∷ b ∷ []) = symbol (a / 4) ∷ symbol (a % 4 * 16 + b / 16) ∷ symbol (b % 16 * 4) ∷ []
encode64 (a ∷ b ∷ c ∷ bytes) =
    symbol (a / 4)
    ∷ symbol (a % 4 * 16 + b / 16)
    ∷ symbol (b % 16 * 4 + c / 64)
    ∷ symbol (c % 64)
    ∷ encode64 bytes

-- The six bits of each character; an error at a character that is not of the alphabet.
unfoldable pub all_values : Text → Option (List ℕ)
all_values [] = some []
all_values (c ∷ s) = elim (value_of c) [
  | none ↦ none
  | some v ↦ elim (all_values s) [ none ↦ none | some vs ↦ some (v ∷ vs) ]
]

abbrev prepend : List ℕ → Option (List ℕ) → Option (List ℕ)
prepend xs none = none
prepend xs (some ys) = some (xs ++ ys)

-- A single character left over is an error; the bits behind the last byte are not looked at.
unfoldable pub join_values : List ℕ → Option (List ℕ)
join_values [] = some []
join_values (a ∷ []) = none
join_values (a ∷ b ∷ []) = some ((a * 4 + b / 16) ∷ [])
join_values (a ∷ b ∷ c ∷ []) = some ((a * 4 + b / 16) ∷ (b % 16 * 16 + c / 4) ∷ [])
join_values (a ∷ b ∷ c ∷ d ∷ vs) =
    prepend ((a * 4 + b / 16) ∷ (b % 16 * 16 + c / 4) ∷ (c % 4 * 64 + d) ∷ []) (join_values vs)

abbrev is_newline : ℕ → Bool
is_newline c = nat_beq c 10 || nat_beq c 13

abbrev joined : Option (List ℕ) → Option (List ℕ)
joined none = none
joined (some vs) = join_values vs

-- DecodeString, which skips newlines.
unfoldable pub decode64 : Text → Option (List ℕ)
decode64 s = joined (all_values (keep (λ c. not (is_newline c)) s))

abbrev pub IsByte : ℕ → Type 0
IsByte b = b < 256

-- A character of the alphabet: it is no newline, and its value is read back.
symbol_lem : (v : ℕ) → v < 64 → (value_of (symbol v) ≡ some v) × (is_newline (symbol v) ≡ false)
unfolding symbol value_of
symbol_lem v h = ground arith

-- The six bits that are encoded.
abbrev values : List ℕ → List ℕ
values [] = []
values (a ∷ []) = (a / 4) ∷ (a % 4 * 16) ∷ []
values (a ∷ b ∷ []) = (a / 4) ∷ (a % 4 * 16 + b / 16) ∷ (b % 16 * 4) ∷ []
values (a ∷ b ∷ c ∷ bytes) =
    (a / 4) ∷ (a % 4 * 16 + b / 16) ∷ (b % 16 * 4 + c / 64) ∷ (c % 64) ∷ values bytes

encode64-values : (bytes : List ℕ) → encode64 bytes ≡ map symbol (values bytes)
unfolding encode64
encode64-values [] = refl
encode64-values (a ∷ []) = refl
encode64-values (a ∷ b ∷ []) = refl
encode64-values (a ∷ b ∷ c ∷ bytes) = rw (encode64-values bytes) refl

values-small : (bytes : List ℕ) → All IsByte bytes → All (λ v. v < 64) (values bytes)
values-small [] h = tt
values-small (a ∷ []) h = omega arith
values-small (a ∷ b ∷ []) h = omega arith
values-small (a ∷ b ∷ c ∷ bytes) h =
    (omega arith, (omega arith, (omega arith, (omega arith, values-small bytes h.1.1.1))))

join_values-values : (bytes : List ℕ) → All IsByte bytes → join_values (values bytes) ≡ some bytes
unfolding join_values
join_values-values [] h = refl
join_values-values (a ∷ []) h =
    let first : a / 4 * 4 + a % 4 * 16 / 16 ≡ a = omega arith in rw first refl
join_values-values (a ∷ b ∷ []) h =
    let first : a / 4 * 4 + (a % 4 * 16 + b / 16) / 16 ≡ a = omega arith in
    let second : (a % 4 * 16 + b / 16) % 16 * 16 + b % 16 * 4 / 4 ≡ b = omega arith in
    rw (first, second) refl
join_values-values (a ∷ b ∷ c ∷ bytes) h =
    let first : a / 4 * 4 + (a % 4 * 16 + b / 16) / 16 ≡ a = omega arith in
    let second : (a % 4 * 16 + b / 16) % 16 * 16 + (b % 16 * 4 + c / 64) / 4 ≡ b = omega arith in
    let third : (b % 16 * 4 + c / 64) % 4 * 64 + c % 64 ≡ c = omega arith in
    rw (first, second, third, join_values-values bytes h.1.1.1) refl

all_values-symbols :
    (vs : List ℕ)
    → All (λ v. v < 64) vs
    → all_values (keep (λ c. not (is_newline c)) (map symbol vs)) ≡ some vs
unfolding all_values
all_values-symbols [] h = refl
all_values-symbols (v ∷ vs) h = ground (arith, symbol_lem v h.0, all_values-symbols vs h.1)

-- What is encoded is decoded.
pub decode64-encode64 : (bytes : List ℕ) → All IsByte bytes → decode64 (encode64 bytes) ≡ some bytes
unfolding decode64
decode64-encode64 bytes h =
    rw (encode64-values bytes, all_values-symbols (values bytes) (values-small bytes h))
      (join_values-values bytes h)

-- An encoded text is made of characters of the alphabet.
abbrev pub IsSymbol : ℕ → Type 0
IsSymbol c = (45 ≤ c) × (c ≤ 122)

symbols-IsSymbol : (vs : List ℕ) → All (λ v. v < 64) vs → All IsSymbol (map symbol vs)
unfolding symbol
symbols-IsSymbol [] h = tt
symbols-IsSymbol (v ∷ vs) h = (ground arith, symbols-IsSymbol vs h.1)

pub encode64-IsSymbol : (bytes : List ℕ) → All IsByte bytes → All IsSymbol (encode64 bytes)
encode64-IsSymbol bytes h =
    rw (encode64-values bytes) (symbols-IsSymbol (values bytes) (values-small bytes h))
