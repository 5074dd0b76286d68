-- ===== src/Control/Health.antt =====
-- internal/control/health.go: applyReleaseAuthority, the statement that turns a release into the
-- persistent state of its account. The column consecutive_failures does not overflow here.
pub mod Verdicts
use gateway_platform.Base.{
  ◌≡◌, refl, true, false, some, none, inl, inr, [], ◌∷◌, arith, ℕ, Option, List, suc, max,
  if◌then◌else◌, get_or, leb, ◌+◌, ◌||◌, any, ◌==◌, ◌++◌, nat_eq, list_eq,
}
use gateway_platform.Base.Text.{Text, codes, is_empty}
use gateway_platform.Contracts.Types.{
  Time, ErrorClass, auth_invalid, ok, rate_limited_unknown, blocked, forbidden_capability,
}
use gateway_platform.Contracts.Events.{Release}

abbrev pub unknown_rate_limit_escalation : ℕ
unknown_rate_limit_escalation = 3

abbrev pub unknown_rate_limit_cooldown : ℕ
unknown_rate_limit_cooldown = 300000000000

abbrev pub blocked_cooldown : ℕ
blocked_cooldown = 60000000000

-- The columns of `accounts` that the statement writes.
pub record AccountHealth : Type 0 where
  pub status : Text
  pub last_error_class : Option ErrorClass
  pub last_error_at : Option Time
  pub consecutive_failures : ℕ
  pub cooldown_until : Option Time
  pub excluded_models : List Text

abbrev pub disabled : Text
disabled = codes "disabled"

unfoldable pub status_after : ErrorClass → Text → Text
status_after auth_invalid status = disabled
status_after _ status = status

unfoldable pub error_after : {A : Type 0} → ErrorClass → A → Option A
error_after ok a = none
error_after _ a = some a

unfoldable pub failures_after : ErrorClass → ℕ → ℕ
failures_after ok n = 0
failures_after rate_limited_unknown n = suc n
failures_after blocked n = suc n
failures_after _ n = n

-- GREATEST(COALESCE(cooldown_until, at), at + d)
unfoldable pub extend : Option Time → Time → ℕ → Option Time
extend until at d = some (max (get_or at until) (at + d))

unfoldable pub cooldown_after : ErrorClass → ℕ → Time → Option Time → Option Time
unfolding extend
cooldown_after ok n at until = none
cooldown_after blocked n at until = extend until at blocked_cooldown
cooldown_after rate_limited_unknown n at until =
    if leb unknown_rate_limit_escalation (suc n)
    then extend until at unknown_rate_limit_cooldown
    else until
cooldown_after _ n at until = until

unfoldable pub excluded_after : ErrorClass → Text → List Text → List Text
excluded_after forbidden_capability model models =
    if is_empty model || any (λ m. m == model) models then models else models ++ (model ∷ [])
excluded_after _ model models = models

-- `applyReleaseAuthority`, on the account of the release.
unfoldable pub apply_release_authority : Release → AccountHealth → AccountHealth
unfolding status_after error_after failures_after cooldown_after excluded_after
apply_release_authority r h = record {
  status = status_after r.error_class h.status;
  last_error_class = error_after r.error_class r.error_class;
  last_error_at = error_after r.error_class r.occurred_at;
  consecutive_failures = failures_after r.error_class h.consecutive_failures;
  cooldown_until =
      cooldown_after r.error_class h.consecutive_failures r.occurred_at h.cooldown_until;
  excluded_models = excluded_after r.error_class r.model h.excluded_models;
}

-- The releases of one account, one after the other.
unfoldable pub apply_releases : List Release → AccountHealth → AccountHealth
unfolding apply_release_authority
apply_releases [] h = h
apply_releases (r ∷ rs) h = apply_releases rs (apply_release_authority r h)
