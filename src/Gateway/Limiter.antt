-- ===== src/Gateway/Limiter.antt =====
-- internal/gateway/limiter.go: the two scripts on the counters in Redis, Acquire, AcquireTenant and the
-- release that they return. A counter expires at an instant of the server's clock, in milliseconds.
pub mod Counts
pub mod InFlight
pub mod Balance
use gateway_platform.Base.{
  ℕ, Bool, true, false, ◌&&◌, ◌||◌, Option, none, some, ◌++◌, ◌+◌, ◌-◌, ◌/◌, ltb, leb, nat_beq,
  if◌then◌else◌, ◌==◌, nat_eq, list_eq, ◌∷◌,
}
use gateway_platform.Base.Int.{ℤ, pos, negsuc, ltb_ℤ, leb_ℤ}
use gateway_platform.Base.Text.{Text, codes, is_empty, format_nat}
use gateway_platform.Base.Map.{update, remove}
use gateway_platform.Contracts.Types.{AccountLimits, with_defaults, DegradePolicy, fail_open}

-- `none` is a counter that never expires.
pub record Counters : Type 0 where
  pub clock : ℕ
  pub counts : Text → Option (ℕ × Option ℕ)

abbrev pub unexpired : ℕ → Option ℕ → Bool
unexpired now none = true
unexpired now (some at) = ltb now at

-- GET of a counter.
abbrev pub read_count : ℕ → Option (ℕ × Option ℕ) → Option (ℕ × Option ℕ)
read_count now none = none
read_count now (some (n, expires)) = if unexpired now expires then some (n, expires) else none

abbrev pub stored_count : Option (ℕ × Option ℕ) → ℕ × Option ℕ
stored_count none = (0, none)
stored_count (some c) = c

-- INCR, and PEXPIRE where the result is one.
unfoldable pub increment : Text → ℕ → Counters → ℕ × Counters
increment key ttl s =
    let c = stored_count (read_count s.clock (s.counts key)) in
    let expires = if nat_beq (c.0 + 1) 1 then some (s.clock + ttl) else c.1 in
    (c.0 + 1, record s { counts = update s.counts key (c.0 + 1, expires) })

-- DECR of a counter that is above zero.
unfoldable pub decrement : Text → Counters → ℕ × Counters
decrement key s =
    let c = stored_count (read_count s.clock (s.counts key)) in
    (c.0 - 1, record s { counts = update s.counts key (c.0 - 1, c.1) })

-- The part of the script that counts requests of the minute.
unfoldable pub count_minute : Text → Text → ℤ → ℕ → ℕ → Counters → ℤ × Counters
count_minute key rpm_key rpm ttl concurrency s =
    if ltb_ℤ (pos 0) rpm
    then (let (n, t) = increment rpm_key ttl s in
        if ltb_ℤ rpm (pos n) then (negsuc 1, (decrement key t).1) else (pos concurrency, t))
    else (pos concurrency, s)

unfoldable pub acquire_script : Text → Text → ℤ → ℤ → ℕ → Counters → ℤ × Counters
acquire_script key rpm_key max_concurrency rpm ttl s =
    let (concurrency, t) = increment key ttl s in
    if ltb_ℤ (pos 0) max_concurrency && ltb_ℤ max_concurrency (pos concurrency)
    then (negsuc 0, (decrement key t).1)
    else count_minute key rpm_key rpm ttl concurrency t

unfoldable pub release_script : Text → Counters → ℕ × Counters
release_script key s = elim (read_count s.clock (s.counts key)) [
  | none ↦ (0, s)
  | some (n, _) ↦
      if leb n 1 then (0, record s { counts = remove s.counts key }) else decrement key s
]

-- The client is nil or the call fails before the script ran, the call fails after it ran, or neither.
pub data Link : Type 0 where
  down unanswered up : Link

-- The release that a caller is handed: nothing, or a run of the release script.
pub data Permit : Type 0 where
  noop : Permit
  release_of : Text → Permit

pub data Admission : Type 0 where
  admitted : Permit → Admission
  rate_limited tenant_rate_limited unavailable : Admission

unfoldable pub fallback : Bool → Admission
fallback true = admitted noop
fallback false = unavailable

-- Two minutes, in milliseconds.
abbrev pub counter_ttl : ℕ
counter_ttl = 120000

abbrev pub verdict : Text → ℤ → Admission
verdict key (pos n) = admitted (release_of key)
verdict key (negsuc n) = rate_limited

unfoldable pub acquire_keys : Link → Text → Text → ℤ → ℤ → Bool → Counters → Admission × Counters
unfolding fallback
acquire_keys down key rpm_key max_concurrency rpm failing_open s = (fallback failing_open, s)
acquire_keys unanswered key rpm_key max_concurrency rpm failing_open s =
    (fallback failing_open, (acquire_script key rpm_key max_concurrency rpm counter_ttl s).1)
acquire_keys up key rpm_key max_concurrency rpm failing_open s =
    let (result, t) = acquire_script key rpm_key max_concurrency rpm counter_ttl s in
    (verdict key result, t)

abbrev pub concurrency_key : Text → Text
concurrency_key account_id = codes "gateway:concurrency:" ++ account_id

-- `unix` is time.Now().Unix().
abbrev pub rpm_key : Text → ℕ → Text
rpm_key account_id unix = codes "gateway:rpm:" ++ account_id ++ b':' ∷ format_nat (unix / 60)

abbrev pub tenant_key : Text → Text
tenant_key tenant_id = codes "gateway:tenant:concurrency:" ++ tenant_id

abbrev pub tenant_rpm_key : Text → ℕ → Text
tenant_rpm_key tenant_id unix =
    codes "gateway:tenant:rpm:" ++ tenant_id ++ b':' ∷ format_nat (unix / 60)

abbrev fails_open : DegradePolicy → Bool
fails_open fail_open = true
fails_open _ = false

unfoldable pub acquire : Link → Text → AccountLimits → ℕ → Counters → Admission × Counters
unfolding with_defaults
acquire link account_id limits unix s =
    let l = with_defaults limits in
    acquire_keys link (concurrency_key account_id) (rpm_key account_id unix) l.max_concurrency l.rpm
      (fails_open l.degrade_policy) s

pub record TenantLimits : Type 0 where
  pub max_concurrency : ℤ
  pub rpm : ℤ

abbrev pub as_tenant : Admission → Admission
as_tenant rate_limited = tenant_rate_limited
as_tenant a = a

unfoldable pub acquire_tenant : Link → Text → TenantLimits → ℕ → Counters → Admission × Counters
acquire_tenant link tenant_id l unix s =
    if is_empty tenant_id || (leb_ℤ l.max_concurrency (pos 0) && leb_ℤ l.rpm (pos 0))
    then (admitted noop, s)
    else let (a, t) =
        acquire_keys link (tenant_key tenant_id) (tenant_rpm_key tenant_id unix) l.max_concurrency
          l.rpm false s in
      (as_tenant a, t)

-- The function that Acquire returns; it drops the error of a call that fails.
unfoldable pub release : Link → Permit → Counters → Counters
release link noop s = s
release down (release_of key) s = s
release unanswered (release_of key) s = (release_script key s).1
release up (release_of key) s = (release_script key s).1
