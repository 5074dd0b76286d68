-- ===== src/Control/Billing/Conservation.antt =====
-- internal/control/billing_job.go: what a settlement does to the books as a whole, that it is final,
-- and when it goes through.
use gateway_platform.Base.Int.{◌+ℤ◌, sub_ℕ, ℤ, pos}
use gateway_platform.Control.Billing.Journal.{
  Moved, balance_of, Moved-balance, apply_movement-Moved,
}
use gateway_platform.Control.Billing.Settlement.{
  PendingUnbilled, billed_total, JobResult-cases, settle_rows-Settles, Settles-total,
  Settles-none_left, Settles-others,
}
use gateway_platform.Control.Billing.Wallet.{
  Wallets, WalletTransaction, ModelPrice, WalletMovement, WalletResult, apply_movement, failed,
  done,
}
use gateway_platform.Contracts.Types.{Time}
use gateway_platform.Control.Billing.Job.{
  settle_tenant, charge_wallet, Books, Settlement, settled, settle_rows, selects, debit_of,
  no_settlement, UsageRow, wallet_part,
}
use gateway_platform.Base.{
  ◌≡◌, refl, false, inl, inr, [], ◌∷◌, arith, ℕ, ◌⊎◌, All, ◌+◌, List, suc, zero, sym, ◌∙◌, ap,
}
use gateway_platform.Base.Text.{Text}

-- The parts of a settlement that went through.
pub settle_tenant_parts :
    (run_id tenant_id : Text) (window_end : Time) (b b' : Books) (s : Settlement)
    → settle_tenant run_id tenant_id window_end b ≡ settled (s, b')
    → (settle_rows b.prices run_id tenant_id window_end b.ledger ≡ settled (s, b'.ledger))
      × (charge_wallet b.wallets run_id tenant_id s.rows_billed s.debited ≡ settled b'.wallets)
      × (b'.prices ≡ b.prices)
unfolding settle_tenant
settle_tenant_parts run_id tenant_id window_end b b' s h =
    elim (JobResult-cases (settle_rows b.prices run_id tenant_id window_end b.ledger)) [
      | inl (e, f) ↦ ground arith
      | inr ((s', rows), f) ↦
          elim (JobResult-cases
            (charge_wallet b.wallets run_id tenant_id s'.rows_billed s'.debited)) [
              | inl (e, g) ↦ ground arith
              | inr (w, g) ↦ ground arith
            ]
    ]

charge_wallet_lem :
    (w w' : Wallets) (run_id tenant_id : Text) (rows amount : ℕ)
    → charge_wallet w run_id tenant_id rows amount ≡ settled w'
    → ((amount ≡ 0) × (w' ≡ w))
      ⊎ ((e : WalletTransaction) × Moved w (debit_of run_id tenant_id rows amount) e w')
unfolding charge_wallet wallet_part
charge_wallet_lem w w' run_id tenant_id rows zero h = inl (refl, ground arith)
charge_wallet_lem w w' run_id tenant_id rows (suc n) h =
    applied_debit (apply_movement w (debit_of run_id tenant_id rows (suc n))) refl
  where
    m : WalletMovement
    m = debit_of run_id tenant_id rows (suc n)

    applied_debit :
        (x : WalletResult (WalletTransaction × Wallets))
        → apply_movement w m ≡ x
        → ((suc n ≡ 0) × (w' ≡ w)) ⊎ ((e : WalletTransaction) × Moved w m e w')
    applied_debit (failed e) q = absurd (ground arith)
    applied_debit (done (e, v)) q =
        let same : v ≡ w' = ground arith in
        inr (e, apply_movement-Moved w m e w' (q ∙ ap (λ x. done (e, x)) same))

+ℤ_zero : (z : ℤ) → z +ℤ pos 0 ≡ z
unfolding ◌+ℤ◌
+ℤ_zero z = ground arith

charge_wallet_balance :
    (w w' : Wallets) (run_id tenant_id : Text) (rows amount : ℕ)
    → charge_wallet w run_id tenant_id rows amount ≡ settled w'
    → (balance_of w' tenant_id ≡ balance_of w tenant_id +ℤ sub_ℕ 0 amount)
      × ((other : Text) → (other ≡ tenant_id → ⊥) → w'.balance other ≡ w.balance other)
unfolding debit_of
charge_wallet_balance w w' run_id tenant_id rows amount h =
    elim (charge_wallet_lem w w' run_id tenant_id rows amount h) [
      | inl (z, same) ↦
          (rw (z, same) (sym (+ℤ_zero (balance_of w tenant_id))), λ other d. rw same refl)
      | inr (e, movement) ↦ Moved-balance movement
    ]

-- A settlement that goes through takes from the tenant's wallet exactly what it adds to the amounts of
-- the tenant's rows, and touches no other tenant's wallet or amounts.
pub settle_tenant_conserves :
    (run_id tenant_id : Text) (window_end : Time) (b b' : Books) (s : Settlement)
    → PendingUnbilled b.ledger
    → settle_tenant run_id tenant_id window_end b ≡ settled (s, b')
    → (billed_total tenant_id b'.ledger ≡ billed_total tenant_id b.ledger + s.debited)
      × (balance_of b'.wallets tenant_id ≡ balance_of b.wallets tenant_id +ℤ sub_ℕ 0 s.debited)
      × ((other : Text)
          → (other ≡ tenant_id → ⊥)
          → (billed_total other b'.ledger ≡ billed_total other b.ledger)
            × (b'.wallets.balance other ≡ b.wallets.balance other))
settle_tenant_conserves run_id tenant_id window_end b b' s u h =
    let (rows, wallet, _) = settle_tenant_parts run_id tenant_id window_end b b' s h in
    let settles =
      settle_rows-Settles b.prices run_id tenant_id window_end b.ledger b'.ledger s rows in
    let (balance, others) =
      charge_wallet_balance b.wallets b'.wallets run_id tenant_id _ _ wallet in
    (Settles-total settles u, balance, λ other d. (Settles-others settles other d, others other d))

settle_rows_nothing :
    (prices : List ModelPrice) (run_id tenant_id : Text) (window_end : Time) (rows : List UsageRow)
    → All (λ r. selects tenant_id window_end r ≡ false) rows
    → settle_rows prices run_id tenant_id window_end rows ≡ settled (no_settlement, rows)
unfolding settle_rows
settle_rows_nothing prices run_id tenant_id window_end [] h = refl
settle_rows_nothing prices run_id tenant_id window_end (r ∷ rows) h =
    rw (h.0, settle_rows_nothing prices run_id tenant_id window_end rows h.1) refl

-- A settlement that goes through leaves no row of the tenant pending in its window; a second one
-- over the window, with whatever run and prices, then finds nothing and changes nothing.
pub settle_tenant_final :
    (run_id tenant_id : Text) (window_end : Time) (b b' : Books) (s : Settlement)
    → settle_tenant run_id tenant_id window_end b ≡ settled (s, b')
    → All (λ r. selects tenant_id window_end r ≡ false) b'.ledger
      × ((run_id' : Text) (prices : List ModelPrice)
          → settle_tenant run_id' tenant_id window_end (record b' { prices = prices })
            ≡ settled (no_settlement, record b' { prices = prices }))
unfolding settle_tenant charge_wallet
settle_tenant_final run_id tenant_id window_end b b' s h =
    let (rows, _, _) = settle_tenant_parts run_id tenant_id window_end b b' s h in
    let settles =
      settle_rows-Settles b.prices run_id tenant_id window_end b.ledger b'.ledger s rows in
    let left = Settles-none_left settles in
    (
      left,
      λ run_id' prices.
          rw (settle_rows_nothing prices run_id' tenant_id window_end b'.ledger left) refl,
    )
