-- ===== src/Gateway/Sticky.antt =====
-- internal/gateway/sticky.go: the pins of sessions to accounts. The digest is the first sixteen bytes of
-- SHA-256 in hexadecimal, and `lifetime` the client's conversion of a duration to milliseconds.
use gateway_platform.Base.{
  ℕ, Bool, true, false, ◌||◌, not, Option, none, some, [], ◌∷◌, ◌++◌, ◌+◌, ◌<◌, ◌≡◌, ◌≢◌, refl, ap,
  arith, ltb, nat_beq, any, if◌then◌else◌, ◌==◌, nat_eq, list_eq, length, length-append, ne→==,
  ==_refl, lt→ltb,
}
use gateway_platform.Base.Int.{ℤ, pos, leb_ℤ}
use gateway_platform.Base.Text.{Text, codes, is_empty, trim_space, byte_len}
use gateway_platform.Base.Map.{update}

-- Five minutes, in nanoseconds.
abbrev default_sticky_ttl : ℤ
default_sticky_ttl = pos 300000000000

abbrev pub max_session_key_len : ℕ
max_session_key_len = 256

pub data SessionKey : Type 0 where
  session_key : Text → SessionKey
  too_long has_control : SessionKey

abbrev is_control : ℕ → Bool
is_control c = ltb c 0x20 || nat_beq c 0x7f

unfoldable pub normalize_session_key : Text → SessionKey
normalize_session_key raw =
    let key = trim_space raw in
    if is_empty key
    then session_key []
    else if ltb max_session_key_len (byte_len key)
    then too_long
    else if any is_control key
    then has_control
    else session_key key

-- The pins in Redis; `clock` is the server's.
pub record Pins : Type 0 where
  pub clock : ℕ
  pub pinned : Text → Option (Text × ℕ)

-- The value of a key that has not expired, or "".
abbrev pub read_pin : ℕ → Option (Text × ℕ) → Text
read_pin now none = []
read_pin now (some (account_id, expires)) = if ltb now expires then account_id else []

module _ (digest : Text → Text) (lifetime : ℤ → ℕ) where
  unfoldable pub sticky_key : Text → Text → Text
  sticky_key tenant_id session = codes "gateway:sticky:" ++ (tenant_id ++ b':' ∷ digest session)

  -- `reachable` is whether there is a client and its call succeeds.
  unfoldable pub lookup_pin : Bool → Text → Text → Pins → Text
  lookup_pin reachable tenant_id session s =
      if not reachable || is_empty tenant_id || is_empty session
      then []
      else read_pin s.clock (s.pinned (sticky_key tenant_id session))

  unfoldable pub pin : Bool → Text → Text → Text → ℤ → Pins → Pins
  pin reachable tenant_id session account_id ttl s =
      if not reachable || is_empty tenant_id || is_empty session || is_empty account_id
      then s
      else let kept = if leb_ℤ ttl (pos 0) then default_sticky_ttl else ttl in
        record s {
          pinned =
              update s.pinned (sticky_key tenant_id session) (account_id, s.clock + lifetime kept);
        }

-- Two texts with ends of one length are equal only if their fronts are.
append_cancel : (xs ys us vs : Text) → length us ≡ length vs → xs ++ us ≡ ys ++ vs → xs ≡ ys
append_cancel [] [] us vs n e = refl
append_cancel [] (y ∷ ys) us vs n e =
    absurd (omega (arith, n, ap length e, length-append {0} ys vs))
append_cancel (x ∷ xs) [] us vs n e =
    absurd (omega (arith, n, ap length e, length-append {0} xs us))
append_cancel (x ∷ xs) (y ∷ ys) us vs n e = cc (append_cancel xs ys us vs n (cc))

module _ (digest : Text → Text) (same_length : (a b : Text) → length (digest a) ≡ length (digest b))
    (lifetime : ℤ → ℕ) where
  sticky_key-tenant :
      (t u a b : Text) → sticky_key digest lifetime t a ≡ sticky_key digest lifetime u b → t ≡ u
  unfolding sticky_key
  sticky_key-tenant t u a b e =
      append_cancel t u (b':' ∷ digest a) (b':' ∷ digest b) (omega (arith, same_length a b)) (cc)

  -- A pinned session is looked up as its account until the pin expires, and no pin changes what another
  -- tenant looks up, whatever session keys the two choose.
  pub pin_lookup :
      (tenant_id session account_id other theirs : Text) (ttl : ℤ) (now : ℕ) (s : Pins)
      → is_empty tenant_id ≡ false
      → is_empty session ≡ false
      → is_empty account_id ≡ false
      → leb_ℤ ttl (pos 0) ≡ false
      → now < s.clock + lifetime ttl
      → other ≢ tenant_id
      → let t = pin digest lifetime true tenant_id session account_id ttl s in
        (lookup_pin digest lifetime true tenant_id session (record t { clock = now }) ≡ account_id)
        × (lookup_pin digest lifetime true other theirs t
            ≡ lookup_pin digest lifetime true other theirs s)
  unfolding pin lookup_pin
  pin_lookup tenant_id session account_id other theirs ttl now s h1 h2 h3 h4 lt apart = (
    rw
        (
          h1,
          h2,
          h3,
          h4,
          ==_refl (sticky_key digest lifetime tenant_id session),
          lt→ltb now (s.clock + lifetime ttl) lt,
        )
        refl,
    rw (h1, h2, h3, other_key) refl,
  )
    where
      other_key :
          (sticky_key digest lifetime other theirs == sticky_key digest lifetime tenant_id session)
          ≡ false
      other_key = ne→== _ _ (λ e. apart (sticky_key-tenant other tenant_id theirs session e))
