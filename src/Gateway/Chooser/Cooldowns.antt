-- ===== src/Gateway/Chooser/Cooldowns.antt =====
-- internal/gateway/chooser.go: MarkEgressRejected, MarkFailure, ClearAccount and the jitter.
-- Durations are int64 nanoseconds; the random byte is an argument, `none` where rand.Read fails.
pub mod Jitter
pub mod Penalty
pub mod Egress
use gateway_platform.Base.{
  ℕ, ◌+◌, ◌-◌, ◌*◌, ◌%◌, ◌^◌, Bool, true, false, not, ◌&&◌, Option, none, some, List, [], ◌∷◌, ◌==◌,
  nat_eq, list_eq, nat_beq, ltb, if◌then◌else◌, length, get_or,
}
use gateway_platform.Base.Int.{ℤ, pos, ltb_ℤ, leb_ℤ, wrap64, quot, int_eq, pos_part}
use gateway_platform.Base.Text.{Text}
use gateway_platform.Base.Map.{lookup, put, update, remove_if}
use gateway_platform.Contracts.Types.{
  Time, Account, Lease, ErrorClass, auth_expired, auth_invalid, forbidden_transport,
  rate_limited_known, rate_limited_unknown, upstream_5xx, blocked, network_error,
}
use gateway_platform.Gateway.Chooser.{
  Chooser, CooldownKey, cooldown_key, cooldown_key_eq, egress_key, seconds, add_time,
}

abbrev pub egress_short_circuit : ℤ
egress_short_circuit = pos (seconds 7)

abbrev pub egress_signal_window : ℕ
egress_signal_window = seconds 60

abbrev pub egress_signal_accounts : ℕ
egress_signal_accounts = 2

unfoldable pub cooldown_duration : ErrorClass → ℤ
cooldown_duration auth_expired = pos (seconds 60)
cooldown_duration rate_limited_known = pos (seconds 30)
cooldown_duration rate_limited_unknown = pos (seconds 15)
cooldown_duration upstream_5xx = pos (seconds 3)
cooldown_duration blocked = pos (seconds 60)
cooldown_duration _ = pos 0

-- `100 + pct` is 80 plus the byte modulo 41.
unfoldable pub with_jitter : Option ℕ → ℤ → ℤ
unfolding wrap64 quot
with_jitter none base = base
with_jitter (some raw) base =
    if leb_ℤ base (pos 0) then base else quot (wrap64 (pos (pos_part base * (80 + raw % 41)))) 100

-- `if now.Sub(at) > egressSignalWindow { delete(seen, accountID) }`
unfoldable pub drop_old : Time → List (Text × Time) → List (Text × Time)
drop_old now [] = []
drop_old now ((id, at) ∷ rest) =
    let kept = drop_old now rest in
    if ltb egress_signal_window (now - at) then kept else (id, at) ∷ kept

later_exists : Option Time → Time → Bool
later_exists none until = false
later_exists (some current) until = ltb until current

-- The evidence on the lease's path, with this rejection in it.
unfoldable pub evidence : Chooser → Lease → Time → List (Text × Time)
unfolding drop_old egress_key
evidence c lease now =
    drop_old now (put lease.account_id now (c.egress_seen (egress_key lease.profile)))

set_evidence : Chooser → Text → List (Text × Time) → Chooser
set_evidence c key seen = record c { egress_seen = λ k. if k == key then seen else c.egress_seen k }

unfoldable pub mark_egress_rejected : Option ℕ → Time → Chooser → Lease → Chooser × Bool
unfolding evidence with_jitter later_exists set_evidence egress_key
mark_egress_rejected raw now c lease =
    let key = egress_key lease.profile in
    let seen = evidence c lease now in
    let c' = set_evidence c key seen in
    let until = add_time now (with_jitter raw egress_short_circuit) in
    if ltb (length seen) egress_signal_accounts
    then (c', false)
    else if later_exists (c'.egress key) until
    then (c', true)
    else (record c' { egress = update c'.egress key until }, true)

-- The first, the second and every further failure in a row; `count` is the bit pattern of an int64.
unfoldable pub escalated : ℕ → ℤ
escalated count =
    if nat_beq count 1
    then pos (seconds 5)
    else if nat_beq count 2
    then pos (seconds 15)
    else pos (seconds 60)

unfoldable pub count_failure : Chooser → CooldownKey → Chooser
count_failure c key = record c {
  failures = update c.failures key ((get_or 0 (c.failures key) + 1) % 2 ^ 64);
}

credential_version_of : Option Account → ℤ
credential_version_of none = pos 0
credential_version_of (some a) = a.credential.version

set_cooldown : Chooser → CooldownKey → Time → Chooser
unfolding credential_version_of
set_cooldown c key until = record c {
  cooling = update c.cooling key (record {
    until = until;
    credential_version = credential_version_of (lookup key.account_id c.accounts);
  });
}

-- `if reset > 0 { base = reset }`
unfoldable pub base_or_reset : ℤ → ℤ → ℤ
base_or_reset base reset = if ltb_ℤ (pos 0) reset then reset else base

abbrev year : ℤ
year = pos (seconds 31536000)

cool_down : Option ℕ → Time → Chooser → CooldownKey → ℤ → ℤ → Chooser
unfolding set_cooldown base_or_reset with_jitter
cool_down raw now c key base reset =
    set_cooldown c key (add_time now (with_jitter raw (base_or_reset base reset)))

-- The clock is read once for each call: `until` is the only instant that is stored.
unfoldable pub mark_failure : Option ℕ → Time → Chooser → Text → Text → ErrorClass → ℤ → Chooser
unfolding cool_down set_cooldown count_failure escalated cooldown_duration
mark_failure raw now c account_id model forbidden_transport reset = c
mark_failure raw now c account_id model network_error reset = c
mark_failure raw now c account_id model rate_limited_unknown reset =
    let key = cooldown_key account_id model in
    let c' = count_failure c key in
    cool_down raw now c' key (escalated (get_or 0 (c'.failures key))) reset
mark_failure raw now c account_id model auth_invalid reset =
    set_cooldown c (cooldown_key account_id model) (add_time now year)
mark_failure raw now c account_id model class reset =
    cool_down raw now c (cooldown_key account_id model) (cooldown_duration class) reset

unfoldable pub clear_account : Chooser → Text → ℤ → Chooser
clear_account c account_id version = record c {
  cooling =
      remove_if (λ k v. k.account_id == account_id && not (v.credential_version == version))
        c.cooling;
}
