-- ===== src/Control/Billing/Worth.antt =====
-- internal/control/billing_job.go: what a run over all tenants keeps.
use gateway_platform.Control.Billing.Conservation.{settle_tenant_conserves, settle_tenant_parts}
use gateway_platform.Control.Billing.Wallet.{ModelPrice}
use gateway_platform.Control.Billing.Journal.{balance_of}
use gateway_platform.Control.Billing.Settlement.{
  PendingUnbilled, JobResult-cases, billed_total, Settles, settle_rows-Settles, Settles-Unbilled,
}
use gateway_platform.Control.Billing.Run.{
  after_tenant, settle_tenants, run_once, BillingRunResult, close_run, pending_tenants, no_run,
  completed, run_on,
}
use gateway_platform.Contracts.Types.{Time}
use gateway_platform.Base.Int.{◌+ℤ◌, ℤ, pos, sub_ℕ}
use gateway_platform.Control.Billing.Job.{
  Books, Settlement, settle_tenant, settled, settle_rows, charge_wallet,
}
use gateway_platform.Base.{
  ◌≡◌, refl, inl, inr, [], ◌∷◌, arith, List, ℕ, ◌∙◌, ◌+◌, ap, get_or, Bool-cases, ◌==◌, ==→eq,
  false_iff, nat_eq, list_eq,
}
use gateway_platform.Base.Text.{Text, text_beq_iff}

-- What a tenant has left, and what it has been charged for.
unfoldable pub worth : Books → Text → ℤ
worth b t = balance_of b.wallets t +ℤ pos (billed_total t b.ledger)

-- What a run keeps.
pub record Kept (b b' : Books) : Type 0 where
  pub same_worth : (t : Text) → worth b' t ≡ worth b t
  pub unbilled : PendingUnbilled b'.ledger
  pub same_prices : b'.prices ≡ b.prices

debit_cancels : (a : ℤ) (n k : ℕ) → (a +ℤ sub_ℕ 0 n) +ℤ pos (k + n) ≡ a +ℤ pos k
unfolding ◌+ℤ◌
debit_cancels a n k = ground arith

settle_tenant-Kept :
    (run_id tenant_id : Text) (window_end : Time) (b b' : Books) (s : Settlement)
    → PendingUnbilled b.ledger
    → settle_tenant run_id tenant_id window_end b ≡ settled (s, b')
    → Kept b b'
unfolding worth
settle_tenant-Kept run_id tenant_id window_end b b' s u h = record {
  same_worth = λ t. elim (Bool-cases (t == tenant_id)) [
    | inl q ↦ rw (==→eq t tenant_id q) (own t)
    | inr f ↦ other t ((false_iff _ (text_beq_iff t tenant_id)).0 f)
  ];
  unbilled = Settles-Unbilled settles u;
  same_prices = parts.2;
}
  where
    conserves :
        (billed_total tenant_id b'.ledger ≡ billed_total tenant_id b.ledger + s.debited)
        × (balance_of b'.wallets tenant_id ≡ balance_of b.wallets tenant_id +ℤ sub_ℕ 0 s.debited)
        × ((other : Text)
            → (other ≡ tenant_id → ⊥)
            → (billed_total other b'.ledger ≡ billed_total other b.ledger)
              × (b'.wallets.balance other ≡ b.wallets.balance other))
    conserves = settle_tenant_conserves run_id tenant_id window_end b b' s u h

    parts :
        (settle_rows b.prices run_id tenant_id window_end b.ledger ≡ settled (s, b'.ledger))
        × (charge_wallet b.wallets run_id tenant_id s.rows_billed s.debited ≡ settled b'.wallets)
        × (b'.prices ≡ b.prices)
    parts = settle_tenant_parts run_id tenant_id window_end b b' s h

    settles : Settles b.prices run_id tenant_id window_end b.ledger s.debited b'.ledger
    settles = settle_rows-Settles b.prices run_id tenant_id window_end b.ledger b'.ledger s parts.0

    own : (t : Text) → worth b' tenant_id ≡ worth b tenant_id
    own t =
        rw (conserves.0, conserves.1)
          (debit_cancels (balance_of b.wallets tenant_id) s.debited
            (billed_total tenant_id b.ledger))

    other : (t : Text) → (t ≡ tenant_id → ⊥) → worth b' t ≡ worth b t
    other t d =
        rw (conserves.2 t d).0
          (ap (λ x. get_or (pos 0) x +ℤ pos (billed_total t b.ledger)) (conserves.2 t d).1)

after_tenant-Kept :
    (run_id tenant_id : Text) (window_end : Time) (run : BillingRunResult × Books)
    → PendingUnbilled run.1.ledger
    → Kept run.1 (after_tenant (settle_tenant run_id tenant_id window_end run.1) run).1
unfolding after_tenant
after_tenant-Kept run_id tenant_id window_end run u =
    elim (JobResult-cases (settle_tenant run_id tenant_id window_end run.1)) [
      | inl (e, f) ↦ rw f (record { same_worth = λ _. refl; unbilled = u; same_prices = refl })
      | inr ((s, b'), f) ↦ rw f (settle_tenant-Kept run_id tenant_id window_end run.1 b' s u f)
    ]

settle_tenants-Kept :
    (run_id : Text) (window_end : Time) (ts : List Text) (run : BillingRunResult × Books)
    → PendingUnbilled run.1.ledger
    → Kept run.1 (settle_tenants run_id window_end ts run).1
unfolding settle_tenants
settle_tenants-Kept run_id window_end [] run u = record {
  same_worth = λ _. refl;
  unbilled = u;
  same_prices = refl;
}
settle_tenants-Kept run_id window_end (t ∷ ts) run u =
    let first = after_tenant-Kept run_id t window_end run u in
    let rest =
      settle_tenants-Kept run_id window_end ts
        (after_tenant (settle_tenant run_id t window_end run.1) run) first.unbilled in
    record {
      same_worth = λ x. rest.same_worth x ∙ first.same_worth x;
      unbilled = rest.unbilled;
      same_prices = rest.same_prices ∙ first.same_prices;
    }

run_on-Kept :
    (prices : List ModelPrice) (run_id : Text) (window_end : Time) (b : Books)
    → PendingUnbilled b.ledger
    → Kept b (run_on prices run_id window_end b).1
unfolding run_on close_run
run_on-Kept [] run_id window_end b u = record {
  same_worth = λ _. refl;
  unbilled = u;
  same_prices = refl;
}
run_on-Kept (_ ∷ _) run_id window_end b u =
    settle_tenants-Kept run_id window_end (pending_tenants window_end b.ledger)
      (no_run completed, b) u

-- A run, whichever of its settlements fail, keeps for every tenant the sum of the wallet's balance and of
-- the amounts on the tenant's rows; it changes no price, and pending rows stay without an amount.
pub run_once-Kept :
    (run_id : Text) (window_end : Time) (b : Books)
    → PendingUnbilled b.ledger
    → Kept b (run_once run_id window_end b).1
unfolding run_once
run_once-Kept run_id window_end b u = run_on-Kept b.prices run_id window_end b u
