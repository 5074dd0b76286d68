-- ===== src/Control/Health/Verdicts.antt =====
-- internal/control/health.go: what a sequence of releases makes of an account.
use gateway_platform.Control.Health.{
  failures_after, apply_releases, status_after, apply_release_authority, AccountHealth, disabled,
  cooldown_after, excluded_after,
}
use gateway_platform.Base.{◌≡◌, refl, [], ◌∷◌, arith, List, ℕ, All, ◌⊎◌, ◌≢◌, ◌+◌, ◌∙◌}
use gateway_platform.Base.Text.{Text}
use gateway_platform.Contracts.Types.{
  ErrorClass, ok, forbidden_transport, auth_invalid, upstream_5xx, network_error, auth_expired,
  rate_limited_known,
}
use gateway_platform.Contracts.Events.{Release}

-- The releases that count against the account.
unfoldable pub counted : List Release → ℕ
unfolding failures_after
counted [] = 0
counted (r ∷ rs) = failures_after r.error_class 0 + counted rs

abbrev pub NoneOk : List Release → Type 0
NoneOk rs = All (λ r. r.error_class ≢ ok) rs

disabled_step : (c : ErrorClass) (s : Text) → s ≡ disabled → status_after c s ≡ disabled
unfolding status_after
disabled_step c s h = ground arith

disabled_stays :
    (rs : List Release) (h : AccountHealth)
    → h.status ≡ disabled
    → (apply_releases rs h).status ≡ disabled
unfolding apply_releases apply_release_authority
disabled_stays [] h d = d
disabled_stays (r ∷ rs) h d =
    disabled_stays rs (apply_release_authority r h) (disabled_step r.error_class h.status d)

-- After a refused credential the account is disabled, whatever releases follow it.
pub auth_invalid_disables :
    (r : Release) (rs : List Release) (h : AccountHealth)
    → r.error_class ≡ auth_invalid
    → (apply_releases (r ∷ rs) h).status ≡ disabled
unfolding apply_releases apply_release_authority status_after
auth_invalid_disables r rs h c = disabled_stays rs (apply_release_authority r h) (rw c refl)

-- The failures of the path or of upstream itself.
abbrev pub Blameless : ErrorClass → Type 0
Blameless c =
    (c ≡ forbidden_transport)
    ⊎ (c ≡ upstream_5xx)
    ⊎ (c ≡ network_error)
    ⊎ (c ≡ auth_expired)
    ⊎ (c ≡ rate_limited_known)

path_failure_step :
    (r : Release) (h : AccountHealth)
    → Blameless r.error_class
    → let after = apply_release_authority r h in
      (after.status ≡ h.status)
      × (after.consecutive_failures ≡ h.consecutive_failures)
      × (after.cooldown_until ≡ h.cooldown_until)
      × (after.excluded_models ≡ h.excluded_models)
unfolding apply_release_authority status_after failures_after cooldown_after excluded_after
path_failure_step r h b = (ground arith, ground arith, ground arith, ground arith)

-- However many failures of the path or of upstream an account meets, its status, its counter, its
-- cooldown and its excluded models stay as they were.
pub path_failures_keep :
    (rs : List Release) (h : AccountHealth)
    → All (λ r. Blameless r.error_class) rs
    → let after = apply_releases rs h in
      (after.status ≡ h.status)
      × (after.consecutive_failures ≡ h.consecutive_failures)
      × (after.cooldown_until ≡ h.cooldown_until)
      × (after.excluded_models ≡ h.excluded_models)
unfolding apply_releases apply_release_authority
path_failures_keep [] h b = (refl, refl, refl, refl)
path_failures_keep (r ∷ rs) h b =
    let (status, failures, cooldown, models) =
      path_failures_keep rs (apply_release_authority r h) b.1 in
    let (s, f, c, m) = path_failure_step r h b.0 in
    (status ∙ s, failures ∙ f, cooldown ∙ c, models ∙ m)
