-- ===== src/Gateway/Chooser/Cooldowns/Penalty.antt =====
-- internal/gateway/chooser.go: what MarkFailure changes, and how long an account then rests.
use gateway_platform.Base.Map.{lookup}
use gateway_platform.Gateway.Chooser.Select.Eligible.{Eligible}
use gateway_platform.Base.Text.{Text}
use gateway_platform.Base.Int.{ℤ, pos, negsuc}
use gateway_platform.Gateway.Chooser.Cooldowns.{
  count_failure, mark_failure, set_cooldown, cool_down, lookup,
}
use gateway_platform.Contracts.Types.{
  ErrorClass, forbidden_transport, auth_expired, Time, network_error, rate_limited_known,
  rate_limited_unknown, upstream_5xx, blocked, auth_invalid,
}
use gateway_platform.Gateway.Chooser.{
  CooldownKey, Chooser, key_beq_iff, ℤ, Text, seconds, Cooldown, cooldown_key,
}
use gateway_platform.Base.{
  ◌≡◌, refl, ◌<◌, arith, some, ◌≢◌, Option, ℕ, ◌⊎◌, suc, ◌+◌, zero, get_or, ◌^◌, ==_refl, nat_eq,
  list_eq, ◌%◌,
}

-- What a failure leaves alone: every table but the two of the cooldowns, and those at other keys.
pub record Local (key : CooldownKey) (c d : Chooser) : Type 0 where
  pub accounts : d.accounts ≡ c.accounts
  pub buckets : d.buckets ≡ c.buckets
  pub owner : d.owner ≡ c.owner
  pub egress : d.egress ≡ c.egress
  pub egress_seen : d.egress_seen ≡ c.egress_seen
  pub cooling : (k : CooldownKey) → k ≢ key → d.cooling k ≡ c.cooling k
  pub failures : (k : CooldownKey) → k ≢ key → d.failures k ≡ c.failures k

abbrev pub TransportFault : ErrorClass → Type 0
TransportFault class = (class ≡ forbidden_transport) ⊎ (class ≡ network_error)

set_cooldown-Local :
    (c : Chooser) (key : CooldownKey) (until : Time) → Local key c (set_cooldown c key until)
unfolding set_cooldown
set_cooldown-Local c key until = record {
  accounts = refl;
  buckets = refl;
  owner = refl;
  egress = refl;
  egress_seen = refl;
  cooling = λ k n. ground (arith, key_beq_iff k key);
  failures = λ k n. refl;
}

cool_down-Local :
    (raw : Option ℕ) (now : Time) (c : Chooser) (key : CooldownKey) (base reset : ℤ)
    → Local key c (cool_down raw now c key base reset)
unfolding cool_down
cool_down-Local raw now c key base reset = set_cooldown-Local c key _

counted-Local :
    (c d : Chooser) (key : CooldownKey) → Local key (count_failure c key) d → Local key c d
unfolding count_failure
counted-Local c d key l = record {
  accounts = l.accounts;
  buckets = l.buckets;
  owner = l.owner;
  egress = l.egress;
  egress_seen = l.egress_seen;
  cooling = l.cooling;
  failures = λ k n. ground (arith, l.failures k n, key_beq_iff k key);
}

-- A failure of one account for one model touches the cooldown and the failure count of that pair
-- and nothing else; a transport or network failure changes nothing at all.
pub mark_failure-Local :
    (raw : Option ℕ) (now : Time) (c : Chooser) (id model : Text) (class : ErrorClass) (reset : ℤ)
    → Local (cooldown_key id model) c (mark_failure raw now c id model class reset)
      × (TransportFault class → mark_failure raw now c id model class reset ≡ c)
unfolding mark_failure
mark_failure-Local raw now c id model forbidden_transport reset = (
  record {
    accounts = refl;
    buckets = refl;
    owner = refl;
    egress = refl;
    egress_seen = refl;
    cooling = λ k n. refl;
    failures = λ k n. refl;
  },
  λ _. refl,
)
mark_failure-Local raw now c id model network_error reset = (
  record {
    accounts = refl;
    buckets = refl;
    owner = refl;
    egress = refl;
    egress_seen = refl;
    cooling = λ k n. refl;
    failures = λ k n. refl;
  },
  λ _. refl,
)
mark_failure-Local raw now c id model rate_limited_unknown reset = (
  counted-Local c _ (cooldown_key id model) (
      cool_down-Local raw now (count_failure c (cooldown_key id model)) (cooldown_key id model) _
        reset),
  λ h. absurd (ground arith),
)
mark_failure-Local raw now c id model auth_invalid reset =
    (set_cooldown-Local c _ _, λ h. absurd (ground arith))
mark_failure-Local raw now c id model class reset =
    (cool_down-Local raw now c _ _ reset, λ h. absurd (ground arith))

-- The rest after a failure of rate_limited_unknown, by the failures in a row before it.
abbrev pub escalation : ℕ → ℕ
escalation zero = seconds 5
escalation (suc zero) = seconds 15
escalation (suc (suc n)) = seconds 60

-- The rest of a class where the upstream asks for none, in nanoseconds.
abbrev pub own_rest : ErrorClass → ℕ → ℕ
own_rest auth_expired failures = seconds 60
own_rest rate_limited_known failures = seconds 30
own_rest rate_limited_unknown failures = escalation failures
own_rest upstream_5xx failures = seconds 3
own_rest blocked failures = seconds 60
own_rest _ failures = 0

-- What the upstream asked for, or else the given rest.
abbrev pub asked_or : ℕ → ℤ → ℕ
asked_or own (pos zero) = own
asked_or own (pos (suc n)) = suc n
asked_or own (negsuc n) = own

-- The rest that a failure brings; a credential that is not valid rests for a year.
abbrev pub rest : ErrorClass → ℕ → ℤ → ℕ
rest auth_invalid failures reset = seconds 31536000
rest class failures reset = asked_or (own_rest class failures) reset

abbrev pub Penalised : ErrorClass → Type 0
Penalised class =
    (class ≡ auth_expired)
    ⊎ (class ≡ auth_invalid)
    ⊎ (class ≡ rate_limited_known)
    ⊎ (class ≡ rate_limited_unknown)
    ⊎ (class ≡ upstream_5xx)
    ⊎ (class ≡ blocked)

-- The entry that a cooldown leaves reaches past `t`.
abbrev CoolingAt : Chooser → CooldownKey → Time → Type 0
CoolingAt c key t = (cd : Cooldown) × (c.cooling key ≡ some cd) × (t < cd.until)

counted :
    (c : Chooser) (key : CooldownKey)
    → get_or 0 ((count_failure c key).failures key) ≡ (get_or 0 (c.failures key) + 1) % 2 ^ 64
unfolding count_failure
counted c key = rw (==_refl key) refl
