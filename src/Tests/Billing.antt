-- ===== src/Tests/Billing.antt =====
-- One tenant with one priced row.
use gateway_platform.Control.Billing.Completion.{run_once_completes}
use gateway_platform.Control.Billing.Conservation.{settle_tenant_final, settle_tenant_conserves}
use gateway_platform.Control.Billing.Run.{
  run_once, run_on, is_due, pending_tenants, insert_tenant, settle_tenants, after_tenant,
  add_settlement, no_run, close_run, completed,
}
use gateway_platform.Control.Billing.Worth.{Kept, run_once-Kept}
use gateway_platform.Control.Billing.Liveness.{settle_tenant_total}
use gateway_platform.Control.Billing.Journal.{
  Journaled, Reach-Journaled, applied, balance_of, ensured, empty_wallets,
}
use gateway_platform.Control.Billing.Pricing.{insert_model_price_forward}
use gateway_platform.Control.Billing.Charging.{Charge, decide_row-Charge}
use gateway_platform.Control.Billing.Settlement.{PendingUnbilled, billed_total}
use gateway_platform.Control.Billing.Policy.{
  release_succeeded, pending, is_ok, disposition_for, usage_dispositions, table, billing_state_for,
}
use gateway_platform.Base.Map.{update}
use gateway_platform.Contracts.Types.{upstream, ok}
use gateway_platform.Control.Billing.Wallet.{
  ModelPrice, Wallets, debit, apply_movement, check_movement_kind, move, has_transaction, price_at,
  in_effect, later_price, PriceRequest, insert_model_price, WalletMovement, WalletTransaction,
  ensure_wallet, done, price_amounts, topup, same_price_key, stored_time,
}
use gateway_platform.Control.Billing.Job.{
  UsageRow, Books, decide_row, Settlement, settle_rows, charge_wallet, settle_tenant, class_of,
  selects, wallet_part, post, settled, is_pending, charge, debit_of, tally, decide_by,
  count_unknown, price_row_at, line_amount, row_cost, part_cost, add_cost, scaled, round_half_up,
  charged, no_settlement, JobResult, job_failed,
}
use gateway_platform.Base.{
  ◌≡◌, refl, false, some, none, [], ◌∷◌, arith, nat_eq, list_eq, list_beq, All, List, ◌+◌, ◌<◌, ◌^◌,
  ap, ℕ,
}
use gateway_platform.Base.Text.{Text, codes, format_nat}
use gateway_platform.Base.Int.{pos, negsuc, ◌+ℤ◌, neg_part, sub_ℕ}

abbrev tenant : Text
tenant = codes "t"

abbrev row : UsageRow
row = record {
  id = 1;
  event_id = codes "e";
  tenant_id = tenant;
  provider = codes "p";
  model = codes "m";
  tokens_in = pos 3;
  tokens_out = pos 1;
  cache_read_tokens = pos 0;
  cache_write_tokens = pos 0;
  usage_source = upstream;
  partial = false;
  status_code = pos 200;
  error_class = ok;
  occurred_at = 10;
  billing_state = pending;
  billed_amount = none;
  billing_run_id = [];
}

abbrev price : ModelPrice
price = record {
  id = codes "q";
  provider = codes "p";
  model = codes "m";
  unit_scale = pos 2;
  price_input = 5;
  price_output = 2;
  price_cache_read = 0;
  price_cache_write = 0;
  effective_from = 4;
}

abbrev wallets : Wallets
wallets = record { balance = λ t. some (pos 20); journal = [] }

abbrev books : Books
books = record { ledger = row ∷ []; wallets = wallets; prices = price ∷ [] }

abbrev run : Text
run = codes "r"

-- 3 * 5 + 1 * 2 over 2 is 8.5, which rounds to 9.
row_is_charged : decide_row (price ∷ []) row ≡ settled (charge 9)
unfolding decide_row class_of release_succeeded is_ok disposition_for usage_dispositions table
    billing_state_for decide_by price_row_at price_at in_effect later_price line_amount row_cost
    part_cost add_cost scaled round_half_up charged list_beq
row_is_charged = refl

abbrev settlement : Settlement
settlement = record {
  rows_billed = 1;
  rows_unpriced = 0;
  rows_held = 0;
  rows_not_billable = 0;
  rows_unknown_class = 0;
  debited = 9;
}

abbrev charged_wallets : Wallets
charged_wallets = record {
  balance = update wallets.balance tenant (pos 11);
  journal =
      record {
        id = codes "r:t";
        tenant_id = tenant;
        kind = debit;
        amount = negsuc 8;
        balance_after = pos 11;
        billing_run_id = run;
        note = codes "billing run r settled 1 usage rows";
      }
      ∷ [];
}

abbrev settled_books : Books
settled_books = record {
  ledger = post run (charge 9) row ∷ [];
  wallets = charged_wallets;
  prices = price ∷ [];
}

settled_tenant : settle_tenant run tenant 11 books ≡ settled (settlement, settled_books)
unfolding settle_tenant settle_rows decide_row selects is_pending tally count_unknown post
    charge_wallet wallet_part apply_movement debit_of check_movement_kind move has_transaction ◌+ℤ◌
    format_nat class_of release_succeeded is_ok disposition_for usage_dispositions table
    billing_state_for decide_by price_row_at price_at in_effect later_price line_amount row_cost
    part_cost add_cost scaled round_half_up charged list_beq
settled_tenant = refl

books_unbilled : PendingUnbilled books.ledger
books_unbilled = (λ _. refl, tt)

decide_row-Charge_example : Charge (price ∷ []) row 9
decide_row-Charge_example = decide_row-Charge (price ∷ []) row 9 row_is_charged

abbrev new_price : PriceRequest
new_price = record {
  id = codes "z";
  provider = codes "p";
  model = codes "m";
  unit_scale = pos 1;
  price_input = pos 7;
  price_output = pos 7;
  price_cache_read = pos 0;
  price_cache_write = pos 0;
  effective_from = 12000;
}

new_price_is_accepted : (insert_model_price (price ∷ []) new_price 11000).1 ≡ none
unfolding insert_model_price price_amounts same_price_key stored_time list_beq
new_price_is_accepted = refl

insert_model_price_forward_example :
    price_at (insert_model_price (price ∷ []) new_price 11000).0 (codes "p") (codes "m") 10000
    ≡ price_at (price ∷ []) (codes "p") (codes "m") 10000
insert_model_price_forward_example =
    insert_model_price_forward (price ∷ []) new_price 11000 (codes "p") (codes "m") 10000
      (omega arith)

-- A wallet is opened and topped up.
abbrev no_wallets : Wallets
no_wallets = record { balance = λ _. none; journal = [] }

abbrev opened : Wallets
opened = record { balance = update no_wallets.balance tenant (pos 0); journal = [] }

abbrev topup_20 : WalletMovement
topup_20 = record {
  id = codes "w";
  tenant_id = tenant;
  kind = topup;
  amount = pos 20;
  billing_run_id = [];
  note = [];
}

abbrev topup_entry : WalletTransaction
topup_entry = record {
  id = codes "w";
  tenant_id = tenant;
  kind = topup;
  amount = pos 20;
  balance_after = pos 20;
  billing_run_id = [];
  note = [];
}

abbrev topped_up : Wallets
topped_up = record { balance = update opened.balance tenant (pos 20); journal = topup_entry ∷ [] }

wallet_opens : ensure_wallet no_wallets tenant ≡ some opened
unfolding ensure_wallet
wallet_opens = refl

topup_applies : apply_movement opened topup_20 ≡ done (topup_entry, topped_up)
unfolding apply_movement check_movement_kind move has_transaction ◌+ℤ◌ list_beq
topup_applies = refl

Reach-Journaled_example : Journaled topped_up
Reach-Journaled_example =
    Reach-Journaled topped_up
      (applied topup_20 (ensured tenant empty_wallets wallet_opens) topup_applies)

settle_tenant_conserves_example :
    (billed_total tenant settled_books.ledger ≡ billed_total tenant books.ledger + 9)
    × (balance_of settled_books.wallets tenant ≡ balance_of books.wallets tenant +ℤ sub_ℕ 0 9)
    × ((other : Text)
        → (other ≡ tenant → ⊥)
        → (billed_total other settled_books.ledger ≡ billed_total other books.ledger)
          × (settled_books.wallets.balance other ≡ books.wallets.balance other))
settle_tenant_conserves_example =
    settle_tenant_conserves run tenant 11 books settled_books settlement books_unbilled
      settled_tenant

settle_tenant_final_example :
    All (λ r. selects tenant 11 r ≡ false) settled_books.ledger
    × ((run_id : Text) (prices : List ModelPrice)
        → settle_tenant run_id tenant 11 (record settled_books { prices = prices })
          ≡ settled (no_settlement, record settled_books { prices = prices }))
settle_tenant_final_example =
    settle_tenant_final run tenant 11 books settled_books settlement settled_tenant

abbrev debited_of : JobResult (Settlement × List UsageRow) → ℕ
debited_of (settled (s, _)) = s.debited
debited_of (job_failed _) = 0

due_fits :
    (s : Settlement) (rows : List UsageRow)
    → settle_rows books.prices run tenant 11 books.ledger ≡ settled (s, rows)
    → neg_part (pos 20) + s.debited < 10 ^ 38
unfolding settle_rows decide_row selects is_pending tally count_unknown post class_of
    release_succeeded is_ok disposition_for usage_dispositions table billing_state_for decide_by
    price_row_at price_at in_effect later_price line_amount row_cost part_cost add_cost scaled
    round_half_up charged list_beq
due_fits s rows h = let due : 9 ≡ s.debited = ap debited_of h in omega arith

settle_tenant_total_example :
    (s : Settlement) × (b : Books) × (settle_tenant run tenant 11 books ≡ settled (s, b))
unfolding has_transaction
settle_tenant_total_example =
    settle_tenant_total run tenant 11 books (pos 20) refl (refl, tt) ((refl, refl, refl, refl), tt)
      refl refl (omega arith) due_fits

run_once-Kept_example : Kept books (run_once run 11 books).1
run_once-Kept_example = run_once-Kept run 11 books books_unbilled

run_completes : (run_once run 11 books).0.status ≡ completed
unfolding run_once run_on pending_tenants insert_tenant is_due settle_tenants after_tenant
    add_settlement no_run close_run settle_tenant settle_rows decide_row selects is_pending tally
    count_unknown post charge_wallet wallet_part apply_movement debit_of check_movement_kind move
    has_transaction ◌+ℤ◌ format_nat class_of release_succeeded is_ok disposition_for
    usage_dispositions table billing_state_for decide_by price_row_at price_at in_effect later_price
    line_amount row_cost part_cost add_cost scaled round_half_up charged list_beq
run_completes = refl

run_once_completes_example : All (λ r. is_due 11 r ≡ false) (run_once run 11 books).1.ledger
run_once_completes_example = run_once_completes run 11 books run_completes
