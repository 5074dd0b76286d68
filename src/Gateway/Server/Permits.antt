-- ===== src/Gateway/Server/Permits.antt =====
-- The permits of a request: each one that it takes is given back, whatever upstream answers.
use gateway_platform.Gateway.Server.Handler.{Setting}
use gateway_platform.Gateway.Limiter.InFlight.{rpm_key-apart, tenant_rpm_key-apart}
use gateway_platform.Gateway.Limiter.{release}
use gateway_platform.Gateway.Limiter.{unanswered, down, release}
use gateway_platform.Gateway.Limiter.Counts.{current}
use gateway_platform.Gateway.Server.Attempt.{AttemptInputs, Gateway}
use gateway_platform.Base.{ℕ, false, ◌≡◌, ◌≢◌, refl, ◌==◌, nat_eq, list_eq, list_beq}
use gateway_platform.Base.Text.{Text}
use gateway_platform.Gateway.Limiter.{
  rpm_key, concurrency_key, tenant_key, tenant_rpm_key, unanswered,
}

-- A counter of requests in flight is no counter of a minute.
pub record IsCounter (k : Text) : Type 0 where
  pub account : (a : Text) (unix : ℕ) → (rpm_key a unix == k) ≡ false
  pub tenant : (t : Text) (unix : ℕ) → (tenant_rpm_key t unix == k) ≡ false

pub concurrency_key-IsCounter : (a : Text) → IsCounter (concurrency_key a)
concurrency_key-IsCounter a = record {
  account = λ b unix. rpm_key-apart b a unix;
  tenant = λ t unix. tenant_rpm_key-apart t a unix;
}

rpm_key-tenant : (a t : Text) (unix : ℕ) → (rpm_key a unix == tenant_key t) ≡ false
unfolding list_beq
rpm_key-tenant a t unix = refl

tenant_rpm_key-tenant : (s t : Text) (unix : ℕ) → (tenant_rpm_key s unix == tenant_key t) ≡ false
unfolding list_beq
tenant_rpm_key-tenant s t unix = refl

pub tenant_key-IsCounter : (t : Text) → IsCounter (tenant_key t)
tenant_key-IsCounter t = record {
  account = λ a unix. rpm_key-tenant a t unix;
  tenant = λ s unix. tenant_rpm_key-tenant s t unix;
}

-- No acquisition takes effect without an answer, and the release takes effect.
abbrev pub CallsSettle : AttemptInputs → Type 0
CallsSettle i = (i.link ≢ unanswered) × (i.given_back ≢ down)

module _ (setting : Setting) (k : Text) (counter : IsCounter k) where
  abbrev in_flight : Gateway → ℕ
  in_flight g = current k g.counters
