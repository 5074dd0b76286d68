-- ===== src/Contracts/Types.antt =====
-- pkg/contracts/contracts.go: the enumerations and the records of accounts, leases and quotas.
-- An instant is a number of nanoseconds from Go's zero time, which `IsZero` tests for.
use gateway_platform.Base.{ℕ, Bool, true, false, ◌&&◌, Option, List}
use gateway_platform.Base.Int.{ℤ, pos, leb_ℤ}
use gateway_platform.Base.Text.{Text}

abbrev pub Time : Type 0
Time = ℕ

-- The constants of `ErrorClass`; any other string is `unrecognised`.
pub data ErrorClass : Type 0 where
  ok auth_expired auth_invalid forbidden_transport forbidden_capability : ErrorClass
  rate_limited_known rate_limited_unknown upstream_5xx blocked network_error : ErrorClass
  usage_missing : ErrorClass
  unrecognised : Text → ErrorClass

unfoldable pub error_class_valid : ErrorClass → Bool
error_class_valid (unrecognised _) = false
error_class_valid _ = true

pub data UsageIntegrity : Type 0 where
  failover zero_cost estimated_cost : UsageIntegrity
  unknown_integrity : Text → UsageIntegrity

unfoldable pub usage_integrity_valid : UsageIntegrity → Bool
usage_integrity_valid (unknown_integrity _) = false
usage_integrity_valid _ = true

pub data UsageSource : Type 0 where
  upstream estimated missing : UsageSource
  unknown_source : Text → UsageSource

-- `DegradePolicy` is a string: empty, one of two constants, or another.
pub data DegradePolicy : Type 0 where
  unset fail_closed fail_open : DegradePolicy
  unknown_policy : Text → DegradePolicy

pub record Criteria : Type 0 where
  pub platform : Text
  pub model : Text
  pub group : Text
  pub session_key : Text

pub record Credential : Type 0 where
  pub kind : Text
  pub access_token : Text
  pub proxy : Text
  pub metadata : List (Text × Text)
  pub expires_at : Time
  pub version : ℤ

pub record UpstreamProfile : Type 0 where
  pub base_url : Text
  pub proxy : Text
  pub protocol : Text
  pub inference_path : Text
  pub tls_fingerprint : Text
  pub user_agent : Text
  pub extra_headers : List (Text × Text)
  pub metadata : List (Text × Text)
  pub ws : Bool

pub record AccountLimits : Type 0 where
  pub max_concurrency : ℤ
  pub rpm : ℤ
  pub sticky_ttl : ℤ
  pub degrade_policy : DegradePolicy

default_policy : DegradePolicy → DegradePolicy
default_policy unset = fail_closed
default_policy p = p

unfoldable pub with_defaults : AccountLimits → AccountLimits
unfolding default_policy
with_defaults l = record l { degrade_policy = default_policy l.degrade_policy }

policy_valid : DegradePolicy → Bool
policy_valid fail_closed = true
policy_valid fail_open = true
policy_valid _ = false

unfoldable pub limits_valid : AccountLimits → Bool
unfolding with_defaults policy_valid
limits_valid l = check (with_defaults l)
  where
    check : AccountLimits → Bool
    check m =
        leb_ℤ (pos 0) m.max_concurrency
        && leb_ℤ (pos 0) m.rpm
        && leb_ℤ (pos 0) m.sticky_ttl
        && policy_valid m.degrade_policy

pub record Lease : Type 0 where
  pub account_id : Text
  pub provider : Text
  pub credential : Credential
  pub profile : UpstreamProfile
  pub limits : AccountLimits
  pub ttl : ℕ
  pub usage_integrity : UsageIntegrity

-- A `Decimal` is the provider's own spelling.
abbrev pub Decimal : Type 0
Decimal = Text

pub record QuotaPrecision : Type 0 where
  pub used : Option Decimal
  pub limit : Option Decimal
  pub remaining : Option Decimal
  pub overage_rate : Option Decimal
  pub overage_cap : Option Decimal
  pub overages : Option Decimal

pub record QuotaItem : Type 0 where
  pub scope : Text
  pub model : Text
  pub unit : Text
  pub limit : Option ℤ
  pub remaining : Option ℤ
  pub limit_exact : Option Decimal
  pub remaining_exact : Option Decimal
  pub remaining_fraction : Option Decimal
  pub precision : Option QuotaPrecision
  pub reset_at : Option Time

pub record QuotaInfo : Type 0 where
  pub items : List QuotaItem

pub record Account : Type 0 where
  pub id : Text
  pub provider : Text
  pub platform : Text
  pub group : Text
  pub credential : Credential
  pub profile : UpstreamProfile
  pub limits : AccountLimits
  pub status : Text
  pub fence_epoch : ℤ
  pub quota : QuotaInfo
  pub capabilities : List Text
  pub excluded_models : List Text
  pub usage_integrity : UsageIntegrity
