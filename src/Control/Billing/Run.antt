-- ===== src/Control/Billing/Run.antt =====
-- internal/control/billing_job.go: RunOnce, one run over every tenant with pending usage. The rows of
-- `billing_runs` are its status; the tenants are visited in the order of their ids.
use gateway_platform.Control.Billing.Wallet.{ModelPrice}
use gateway_platform.Contracts.Types.{Time}
use gateway_platform.Control.Billing.Job.{
  is_pending, Settlement, JobResult, settle_tenant, Books, UsageRow, job_failed, settled,
}
use gateway_platform.Base.{
  [], ◌∷◌, List, ℕ, suc, if◌then◌else◌, ◌==◌, Bool, ltb, ◌&&◌, ◌||◌, ◌+◌, nat_eq, list_eq,
}
use gateway_platform.Base.Text.{Text, text_leb}

unfoldable pub insert_tenant : Text → List Text → List Text
insert_tenant t [] = t ∷ []
insert_tenant t (u ∷ us) =
    let rest = insert_tenant t us in
    if t == u then u ∷ us else if text_leb t u then t ∷ u ∷ us else u ∷ rest

unfoldable pub is_due : Time → UsageRow → Bool
unfolding is_pending
is_due window_end r = is_pending r.billing_state && ltb r.occurred_at window_end

-- `pendingTenants`: SELECT DISTINCT … ORDER BY tenant_id.
unfoldable pub pending_tenants : Time → List UsageRow → List Text
unfolding insert_tenant is_due
pending_tenants window_end [] = []
pending_tenants window_end (r ∷ rows) =
    let rest = pending_tenants window_end rows in
    if is_due window_end r then insert_tenant r.tenant_id rest else rest

pub data RunStatus : Type 0 where
  skipped completed run_failed : RunStatus

pub record BillingRunResult : Type 0 where
  pub status : RunStatus
  pub tenants_billed : ℕ
  pub tenants_failed : ℕ
  pub rows_billed : ℕ
  pub rows_unpriced : ℕ
  pub rows_held : ℕ
  pub rows_not_billable : ℕ
  pub rows_unknown_class : ℕ
  pub total_debited : ℕ

unfoldable pub no_run : RunStatus → BillingRunResult
no_run status = record {
  status = status;
  tenants_billed = 0;
  tenants_failed = 0;
  rows_billed = 0;
  rows_unpriced = 0;
  rows_held = 0;
  rows_not_billable = 0;
  rows_unknown_class = 0;
  total_debited = 0;
}

unfoldable pub add_settlement : Settlement → BillingRunResult → BillingRunResult
add_settlement s res = record {
  status = res.status;
  tenants_billed =
      if ltb 0 s.rows_billed || ltb 0 s.rows_unpriced
      then suc res.tenants_billed
      else res.tenants_billed;
  tenants_failed = res.tenants_failed;
  rows_billed = res.rows_billed + s.rows_billed;
  rows_unpriced = res.rows_unpriced + s.rows_unpriced;
  rows_held = res.rows_held + s.rows_held;
  rows_not_billable = res.rows_not_billable + s.rows_not_billable;
  rows_unknown_class = res.rows_unknown_class + s.rows_unknown_class;
  total_debited = res.total_debited + s.debited;
}

unfoldable pub add_failure : BillingRunResult → BillingRunResult
add_failure res = record res { tenants_failed = suc res.tenants_failed }

-- One turn of the loop: a tenant whose settlement fails is counted and left as it was.
unfoldable pub after_tenant :
    JobResult (Settlement × Books) → BillingRunResult × Books → BillingRunResult × Books
unfolding add_settlement add_failure
after_tenant (job_failed _) (res, b) = (add_failure res, b)
after_tenant (settled (s, b')) (res, b) = (add_settlement s res, b')

unfoldable pub settle_tenants :
    Text → Time → List Text → BillingRunResult × Books → BillingRunResult × Books
unfolding after_tenant settle_tenant
settle_tenants run_id window_end [] run = run
settle_tenants run_id window_end (t ∷ ts) run =
    settle_tenants run_id window_end ts (after_tenant (settle_tenant run_id t window_end run.1) run)

unfoldable pub close_run : BillingRunResult × Books → BillingRunResult × Books
close_run (res, b) =
    (record res { status = if ltb 0 res.tenants_failed then run_failed else completed }, b)

unfoldable pub run_on : List ModelPrice → Text → Time → Books → BillingRunResult × Books
unfolding pending_tenants settle_tenants no_run close_run
run_on [] run_id window_end b = (no_run skipped, b)
run_on (_ ∷ _) run_id window_end b =
    close_run
      (settle_tenants run_id window_end (pending_tenants window_end b.ledger) (no_run completed, b))

-- `RunOnce`; without any price the run is skipped.
unfoldable pub run_once : Text → Time → Books → BillingRunResult × Books
unfolding run_on
run_once run_id window_end b = run_on b.prices run_id window_end b
