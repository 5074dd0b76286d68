-- ===== src/Control/Billing/Policy.antt =====
-- internal/control/billing_policy.go: what is done with usage of each trust level.
use gateway_platform.Base.Int.{ℤ, leb_ℤ, pos, ltb_ℤ}
use gateway_platform.Base.{true, false, Bool, Option, some, ◌&&◌, none}
use gateway_platform.Contracts.Types.{
  UsageSource, upstream, estimated, missing, unknown_source, ErrorClass, ok,
}

pub data Disposition : Type 0 where
  bill hold not_billable : Disposition

pub record UsageClass : Type 0 where
  pub source : UsageSource
  pub partial : Bool
  pub succeeded : Bool

unfoldable pub table : UsageSource → Bool → Bool → Option Disposition
table upstream partial true = some bill
table upstream partial false = some not_billable
table estimated partial succeeded = some hold
table missing partial true = some hold
table missing partial false = some not_billable
table (unknown_source _) partial succeeded = none

-- The map `usageDispositions`.
unfoldable pub usage_dispositions : UsageClass → Option Disposition
unfolding table
usage_dispositions class = table class.source class.partial class.succeeded

unfoldable pub disposition_for : UsageClass → Disposition × Bool
unfolding usage_dispositions
disposition_for class = elim (usage_dispositions class) [
  | none ↦ (hold, false)
  | some d ↦ (d, true)
]

unfoldable pub is_ok : ErrorClass → Bool
is_ok ok = true
is_ok _ = false

unfoldable pub release_succeeded : ℤ → ErrorClass → Bool
unfolding is_ok
release_succeeded status_code error_class =
    is_ok error_class && leb_ℤ (pos 200) status_code && ltb_ℤ status_code (pos 400)

-- The states of a usage row that the model meets.
pub data BillingState : Type 0 where
  pending billed unpriced held not_billable_state : BillingState

unfoldable pub billing_state_for : Disposition → Option BillingState
billing_state_for hold = some held
billing_state_for not_billable = some not_billable_state
billing_state_for bill = none
