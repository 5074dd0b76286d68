-- ===== src/Control/Billing/Liveness.antt =====
-- internal/control/billing_job.go: a settlement fails only for the reasons that the tables do not rule
-- out; a balance below the amount due is none of them.
use gateway_platform.Control.Billing.Policy.{BillingState, billing_state_for, disposition_for}
use gateway_platform.Control.Billing.Pricing.{LastInEffect, no_price_yet, last_price, price_at_last}
use gateway_platform.Contracts.Types.{Time}
use gateway_platform.Control.Billing.Wallet.{
  ModelPrice, has_transaction, move, Wallets, check_movement_kind, apply_movement, WalletMovement,
  fits_column, WalletTransaction, done, debit, WalletResult, failed,
}
use gateway_platform.Base.Int.{leb_ℤ, ℤ, pos, negsuc, pos_part, neg_part, ◌+ℤ◌, sub_ℕ}
use gateway_platform.Control.Billing.Job.{
  UsageRow, part_cost, row_cost, scaled, price_row_at, decide_row, settle_rows, settle_tenant,
  add_cost, charged, line_amount, RowOutcome, Books, settled, Settlement, no_price, no_settlement,
  charge, decide_by, round_half_up, class_of, resolved, charge_wallet, selects, count_unknown,
  debit_of, tally, post, wallet_part,
}
use gateway_platform.Base.{
  ◌≡◌, refl, true, false, some, none, inl, inr, [], ◌∷◌, arith, List, ℕ, Option, All, ◌*◌, ◌+◌, suc,
  ◌++◌, All-Elem, ◌<◌, zero, ◌^◌, Bool-cases, ap, ◌∙◌,
}
use gateway_platform.Base.Text.{Text, is_empty}

-- No count of the row is negative.
abbrev pub Countable : UsageRow → Type 0
Countable r =
    (leb_ℤ (pos 0) r.tokens_in ≡ true)
    × (leb_ℤ (pos 0) r.tokens_out ≡ true)
    × (leb_ℤ (pos 0) r.cache_read_tokens ≡ true)
    × (leb_ℤ (pos 0) r.cache_write_tokens ≡ true)

part_cost_total :
    (t : ℤ) (unit : ℕ) → leb_ℤ (pos 0) t ≡ true → (c : ℕ) × (part_cost t unit ≡ some c)
unfolding part_cost
part_cost_total (pos n) unit h = (n * unit, refl)
part_cost_total (negsuc n) unit h = ground arith

row_cost_total : (r : UsageRow) (p : ModelPrice) → Countable r → (c : ℕ) × (row_cost r p ≡ some c)
unfolding row_cost add_cost
row_cost_total r p (h, i, j, k) =
    let (a, ha) = part_cost_total r.tokens_in p.price_input h in
    let (b, hb) = part_cost_total r.tokens_out p.price_output i in
    let (c, hc) = part_cost_total r.cache_read_tokens p.price_cache_read j in
    let (d, hd) = part_cost_total r.cache_write_tokens p.price_cache_write k in
    (a + (b + (c + d)), rw (ha, hb, hc, hd) refl)

scaled_total :
    (z : ℤ) (c : Option ℕ)
    → leb_ℤ (pos 1) z ≡ true
    → (n : ℕ) × (c ≡ some n)
    → (a : ℕ) × (scaled z c ≡ settled a)
unfolding scaled
scaled_total (negsuc _) c h q = ground arith
scaled_total (pos zero) c h q = ground arith
scaled_total (pos (suc d)) none h q = cc q.1
scaled_total (pos (suc d)) (some n) h q = (round_half_up n (suc d), refl)

price_row_at_total :
    (r : UsageRow) (o : Option ModelPrice)
    → Countable r
    → ((p : ModelPrice) → o ≡ some p → leb_ℤ (pos 1) p.unit_scale ≡ true)
    → (outcome : RowOutcome) × (price_row_at r o ≡ settled outcome)
unfolding price_row_at charged line_amount
price_row_at_total r none c h = (no_price, refl)
price_row_at_total r (some p) c h =
    let (a, q) = scaled_total p.unit_scale (row_cost r p) (h p refl) (row_cost_total r p c) in
    (charge a, rw q refl)

-- The scale of every price is positive, as the CHECK of the table has it.
abbrev pub Scaled : List ModelPrice → Type 0
Scaled prices = All (λ p. leb_ℤ (pos 1) p.unit_scale ≡ true) prices

price_found-Scaled :
    (prices : List ModelPrice) (provider model : Text) (at : Time) (o : Option ModelPrice)
    → Scaled prices
    → LastInEffect prices provider model at o
    → (p : ModelPrice) → o ≡ some p
    → leb_ℤ (pos 1) p.unit_scale ≡ true
price_found-Scaled prices provider model at _ s (no_price_yet _) p e = cc
price_found-Scaled prices provider model at _ s (last_price {p = q} m _ _) p e =
    let same : q ≡ p = ground arith in rw (← same) (All-Elem _ q prices s m)

decide_row_total :
    (prices : List ModelPrice) (r : UsageRow)
    → Scaled prices
    → Countable r
    → (outcome : RowOutcome) × (decide_row prices r ≡ settled outcome)
unfolding decide_row decide_by
decide_row_total prices r s c = by_policy (billing_state_for (disposition_for (class_of r)).0)
  where
    by_policy :
        (o : Option BillingState)
        → (outcome : RowOutcome) × (decide_by r prices o ≡ settled outcome)
    by_policy (some state) = (resolved state, refl)
    by_policy none = price_row_at_total r _ c (
        price_found-Scaled prices r.provider r.model r.occurred_at _ s
          (price_at_last prices r.provider r.model r.occurred_at))

settle_rows_total :
    (prices : List ModelPrice) (run_id tenant_id : Text) (window_end : Time) (rows : List UsageRow)
    → Scaled prices
    → All Countable rows
    → (s : Settlement) × (rows' : List UsageRow) × (settle_rows prices run_id tenant_id window_end
          rows
        ≡ settled (s, rows'))
unfolding settle_rows
settle_rows_total prices run_id tenant_id window_end [] s c = (no_settlement, [], refl)
settle_rows_total prices run_id tenant_id window_end (r ∷ rows) s c =
    let (o, ho) = decide_row_total prices r s c.0 in
    let (t, rest, hr) = settle_rows_total prices run_id tenant_id window_end rows s c.1 in
    elim (Bool-cases (selects tenant_id window_end r)) [
      | inl q ↦
          let counted = count_unknown (disposition_for (class_of r)).1 (tally o t) in
          (counted, post run_id o r ∷ rest, rw (q, ho, hr) refl)
      | inr q ↦ (t, r ∷ rest, rw (q, hr) refl)
    ]

not_empty : (s : Text) (c : ℕ) (t : Text) → is_empty (s ++ (c ∷ t)) ≡ false
not_empty [] c t = refl
not_empty (d ∷ s) c t = refl

move_total :
    (w : Wallets) (m : WalletMovement) (locked : ℤ)
    → fits_column (locked +ℤ m.amount) ≡ true
    → has_transaction m.id w.journal ≡ false
    → (e : WalletTransaction) × (w' : Wallets) × (move w m locked ≡ done (e, w'))
unfolding move
move_total w m locked f h = by_result (move w m locked) refl
  where
    by_result :
        (x : WalletResult (WalletTransaction × Wallets))
        → move w m locked ≡ x
        → (e : WalletTransaction) × (w' : Wallets) × (move w m locked ≡ done (e, w'))
    by_result (failed e) q = absurd (ground arith)
    by_result (done (e, w')) q = (e, w', q)

apply_movement-move :
    (w : Wallets) (m : WalletMovement) (locked : ℤ)
    → is_empty m.id ≡ false
    → is_empty m.tenant_id ≡ false
    → fits_column m.amount ≡ true
    → check_movement_kind m.kind m.amount ≡ none
    → w.balance m.tenant_id ≡ some locked
    → apply_movement w m ≡ move w m locked
unfolding apply_movement
apply_movement-move w m locked i t f k b = rw (i, t, f, k, b) refl

debit_fits :
    (locked : ℤ) (n : ℕ)
    → pos_part locked < 10 ^ 38
    → neg_part locked + suc n < 10 ^ 38
    → (fits_column (sub_ℕ 0 (suc n)) ≡ true)
      × (fits_column (locked +ℤ sub_ℕ 0 (suc n)) ≡ true)
      × (check_movement_kind debit (sub_ℕ 0 (suc n)) ≡ none)
unfolding ◌+ℤ◌ check_movement_kind
debit_fits locked n h k = (ground arith, ground arith, ground arith)

charge_wallet_total :
    (w : Wallets) (run_id tenant_id : Text) (rows amount : ℕ) (locked : ℤ)
    → is_empty tenant_id ≡ false
    → w.balance tenant_id ≡ some locked
    → has_transaction (run_id ++ (b':' ∷ tenant_id)) w.journal ≡ false
    → pos_part locked < 10 ^ 38
    → neg_part locked + amount < 10 ^ 38
    → (w' : Wallets) × (charge_wallet w run_id tenant_id rows amount ≡ settled w')
unfolding charge_wallet debit_of wallet_part
charge_wallet_total w run_id tenant_id rows zero locked named wallet fresh small bound = (w, refl)
charge_wallet_total w run_id tenant_id rows (suc n) locked named wallet fresh small bound =
    let (fits, after, kind) = debit_fits locked n small bound in
    let (e, w', h) = move_total w (debit_of run_id tenant_id rows (suc n)) locked after fresh in
    let m = debit_of run_id tenant_id rows (suc n) in
    let moves =
      apply_movement-move w m locked (not_empty run_id b':' tenant_id) named fits kind wallet in
    (w', ap wallet_part (moves ∙ h))

-- Where scales are positive, as the tables require, no row of the ledger has a negative count of tokens,
-- as `Release.Validate` requires of what is recorded, the tenant has a wallet that this run has not
-- debited yet, and neither the amount due nor the balance after it leaves the columns, the
-- settlement goes through, however little the wallet holds.
pub settle_tenant_total :
    (run_id tenant_id : Text) (window_end : Time) (b : Books) (locked : ℤ)
    → is_empty tenant_id ≡ false
    → Scaled b.prices
    → All Countable b.ledger
    → b.wallets.balance tenant_id ≡ some locked
    → has_transaction (run_id ++ (b':' ∷ tenant_id)) b.wallets.journal ≡ false
    → pos_part locked < 10 ^ 38
    → ((s : Settlement) (rows : List UsageRow)
        → settle_rows b.prices run_id tenant_id window_end b.ledger ≡ settled (s, rows)
        → neg_part locked + s.debited < 10 ^ 38)
    → (s : Settlement) × (b' : Books) × (settle_tenant run_id tenant_id window_end b
        ≡ settled (s, b'))
unfolding settle_tenant
settle_tenant_total run_id tenant_id window_end b locked named scaled countable wallet fresh small
      bound =
    let (s, rows, h) =
      settle_rows_total b.prices run_id tenant_id window_end b.ledger scaled countable in
    let (w', k) =
      charge_wallet_total b.wallets run_id tenant_id s.rows_billed s.debited locked named wallet
        fresh small (bound s rows h) in
    (s, record b { ledger = rows; wallets = w' }, rw (h, k) refl)
