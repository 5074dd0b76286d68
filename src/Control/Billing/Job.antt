-- ===== src/Control/Billing/Job.antt =====
-- internal/control/billing_job.go: the deduction job. The ledger is `usage_ledger`, in the order of
-- its rows' occurred_at and id; one tenant's settlement is one transaction.
use gateway_platform.Base.Int.{ℤ, pos, negsuc, sub_ℕ}
use gateway_platform.Control.Billing.Wallet.{
  WalletError, ModelPrice, Wallets, price_at, WalletMovement, apply_movement, failed, debit, done,
  WalletResult, WalletTransaction,
}
use gateway_platform.Base.Text.{Text, codes, format_nat}
use gateway_platform.Control.Billing.Policy.{
  release_succeeded, BillingState, UsageClass, pending, disposition_for, billed, held,
  billing_state_for, unpriced, not_billable_state,
}
use gateway_platform.Base.{
  true, false, ℕ, List, Bool, Option, ◌*◌, ◌==◌, none, ◌+◌, suc, some, ◌&&◌, ◌/◌, zero, ltb, nat_eq,
  list_eq, ◌∷◌, ◌++◌, if◌then◌else◌, [],
}
use gateway_platform.Contracts.Types.{Time, UsageSource, ErrorClass}

pub record UsageRow : Type 0 where
  pub id : ℕ
  pub event_id : Text
  pub tenant_id : Text
  pub provider : Text
  pub model : Text
  pub tokens_in : ℤ
  pub tokens_out : ℤ
  pub cache_read_tokens : ℤ
  pub cache_write_tokens : ℤ
  pub usage_source : UsageSource
  pub partial : Bool
  pub status_code : ℤ
  pub error_class : ErrorClass
  pub occurred_at : Time
  pub billing_state : BillingState
  pub billed_amount : Option ℕ
  pub billing_run_id : Text

pub record Books : Type 0 where
  pub ledger : List UsageRow
  pub wallets : Wallets
  pub prices : List ModelPrice

unfoldable pub class_of : UsageRow → UsageClass
unfolding release_succeeded
class_of r = record {
  source = r.usage_source;
  partial = r.partial;
  succeeded = release_succeeded r.status_code r.error_class;
}

unfoldable pub is_pending : BillingState → Bool
is_pending pending = true
is_pending _ = false

-- The rows that a settlement selects.
unfoldable pub selects : Text → Time → UsageRow → Bool
unfolding is_pending
selects tenant_id window_end r =
    r.tenant_id == tenant_id && is_pending r.billing_state && ltb r.occurred_at window_end

pub data JobError : Type 0 where
  negative_tokens bad_unit_scale : JobError
  wallet_error : WalletError → JobError

pub data JobResult (A : Type 0) : Type 0 where
  settled : A → JobResult A
  job_failed : JobError → JobResult A

-- tokens * unit price, for a count that is not negative.
unfoldable pub part_cost : ℤ → ℕ → Option ℕ
part_cost (negsuc _) unit = none
part_cost (pos tokens) unit = some (tokens * unit)

unfoldable pub add_cost : Option ℕ → Option ℕ → Option ℕ
add_cost (some a) (some b) = some (a + b)
add_cost _ _ = none

-- The four token counts times their unit prices; `none` where a count is negative.
unfoldable pub row_cost : UsageRow → ModelPrice → Option ℕ
unfolding part_cost add_cost
row_cost r p = add_cost (part_cost r.tokens_in p.price_input) (
    add_cost (part_cost r.tokens_out p.price_output) (
      add_cost (part_cost r.cache_read_tokens p.price_cache_read)
        (part_cost r.cache_write_tokens p.price_cache_write)))

-- big.Rat.FloatString(12) of n / d, in units: to the nearest, halves upwards.
unfoldable pub round_half_up : ℕ → ℕ → ℕ
round_half_up n d = (2 * n + d) / (2 * d)

unfoldable pub scaled : ℤ → Option ℕ → JobResult ℕ
unfolding round_half_up
scaled (negsuc _) cost = job_failed bad_unit_scale
scaled (pos zero) cost = job_failed bad_unit_scale
scaled (pos (suc d)) none = job_failed negative_tokens
scaled (pos (suc d)) (some total) = settled (round_half_up total (suc d))

-- `lineAmount` and the rounding that follows it.
unfoldable pub line_amount : UsageRow → ModelPrice → JobResult ℕ
unfolding row_cost scaled
line_amount r p = scaled p.unit_scale (row_cost r p)

pub data RowOutcome : Type 0 where
  charge : ℕ → RowOutcome
  no_price : RowOutcome
  resolved : BillingState → RowOutcome

unfoldable pub charged : JobResult ℕ → JobResult RowOutcome
charged (job_failed e) = job_failed e
charged (settled amount) = settled (charge amount)

unfoldable pub price_row_at : UsageRow → Option ModelPrice → JobResult RowOutcome
unfolding line_amount charged
price_row_at r none = settled no_price
price_row_at r (some p) = charged (line_amount r p)

unfoldable pub decide_by : UsageRow → List ModelPrice → Option BillingState → JobResult RowOutcome
unfolding price_row_at price_at
decide_by r prices (some state) = settled (resolved state)
decide_by r prices none = price_row_at r (price_at prices r.provider r.model r.occurred_at)

-- The body of the loop over a tenant's rows: the policy decides, and what it bills is priced.
unfoldable pub decide_row : List ModelPrice → UsageRow → JobResult RowOutcome
unfolding class_of decide_by disposition_for billing_state_for
decide_row prices r = decide_by r prices (billing_state_for (disposition_for (class_of r)).0)

pub record Settlement : Type 0 where
  pub rows_billed : ℕ
  pub rows_unpriced : ℕ
  pub rows_held : ℕ
  pub rows_not_billable : ℕ
  pub rows_unknown_class : ℕ
  pub debited : ℕ

abbrev pub no_settlement : Settlement
no_settlement = record {
  rows_billed = 0;
  rows_unpriced = 0;
  rows_held = 0;
  rows_not_billable = 0;
  rows_unknown_class = 0;
  debited = 0;
}

unfoldable pub tally : RowOutcome → Settlement → Settlement
tally (charge amount) s = record s { rows_billed = suc s.rows_billed; debited = amount + s.debited }
tally no_price s = record s { rows_unpriced = suc s.rows_unpriced }
tally (resolved held) s = record s { rows_held = suc s.rows_held }
tally (resolved not_billable_state) s = record s { rows_not_billable = suc s.rows_not_billable }
tally (resolved _) s = s

unfoldable pub count_unknown : Bool → Settlement → Settlement
count_unknown true s = s
count_unknown false s = record s { rows_unknown_class = suc s.rows_unknown_class }

-- The UPDATE of one settled row, which its primary key addresses.
unfoldable pub post : Text → RowOutcome → UsageRow → UsageRow
post run_id (charge amount) r = record r {
  billing_state = billed;
  billed_amount = some amount;
  billing_run_id = run_id;
}
post run_id no_price r = record r { billing_state = unpriced; billing_run_id = run_id }
post run_id (resolved state) r = record r { billing_state = state; billing_run_id = run_id }

infixl 5 ◌>>=◌
abbrev pub ◌>>=◌ : {A B : Type 0} → JobResult A → (A → JobResult B) → JobResult B
settled a >>= f = f a
job_failed e >>= f = job_failed e

-- The loop over the selected rows, and the updates that it leads to.
unfoldable pub settle_rows :
    List ModelPrice → Text → Text → Time → List UsageRow → JobResult (Settlement × List UsageRow)
unfolding decide_row tally post count_unknown disposition_for class_of
settle_rows prices run_id tenant_id window_end [] = settled (no_settlement, [])
settle_rows prices run_id tenant_id window_end (r ∷ rows) =
    let rest = settle_rows prices run_id tenant_id window_end rows in
    if selects tenant_id window_end r
    then (do
      outcome ← decide_row prices r
      (s, rows') ← rest
      settled (
        count_unknown (disposition_for (class_of r)).1 (tally outcome s),
        post run_id outcome r ∷ rows',
      ))
    else (do (s, rows') ← rest; settled (s, r ∷ rows'))

-- The run's debit of a tenant; its id is made of the run's and the tenant's.
unfoldable pub debit_of : Text → Text → ℕ → ℕ → WalletMovement
debit_of run_id tenant_id rows amount = record {
  id = run_id ++ (b':' ∷ tenant_id);
  tenant_id = tenant_id;
  kind = debit;
  amount = sub_ℕ 0 amount;
  billing_run_id = run_id;
  note =
      codes "billing run "
      ++ (run_id ++ (codes " settled " ++ (format_nat rows ++ codes " usage rows")));
}

unfoldable pub wallet_part : WalletResult (WalletTransaction × Wallets) → JobResult Wallets
wallet_part (failed e) = job_failed (wallet_error e)
wallet_part (done (entry, w)) = settled w

unfoldable pub charge_wallet : Wallets → Text → Text → ℕ → ℕ → JobResult Wallets
unfolding apply_movement debit_of wallet_part
charge_wallet w run_id tenant_id rows zero = settled w
charge_wallet w run_id tenant_id rows (suc amount) =
    wallet_part (apply_movement w (debit_of run_id tenant_id rows (suc amount)))

-- `settleTenant`: the debit and the marks on the rows land together or not at all.
unfoldable pub settle_tenant : Text → Text → Time → Books → JobResult (Settlement × Books)
unfolding settle_rows charge_wallet
settle_tenant run_id tenant_id window_end b = do
  (s, rows) ← settle_rows b.prices run_id tenant_id window_end b.ledger
  w ← charge_wallet b.wallets run_id tenant_id s.rows_billed s.debited
  settled (s, record b { ledger = rows; wallets = w })
