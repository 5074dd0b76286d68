-- ===== src/Control/Billing/Charging.antt =====
-- internal/control: which rows billing_policy.go and billing_job.go charge, and how much.
use gateway_platform.Control.Billing.Pricing.{LastInEffect, price_at_last}
use gateway_platform.Base.Int.{pos, ℤ, negsuc}
use gateway_platform.Contracts.Types.{upstream, UsageSource, unknown_source, estimated, missing}
use gateway_platform.Control.Billing.Wallet.{ModelPrice, price_at}
use gateway_platform.Control.Billing.Policy.{
  disposition_for, usage_dispositions, table, UsageClass, bill, release_succeeded,
  billing_state_for, Disposition, hold, not_billable,
}
use gateway_platform.Control.Billing.Job.{
  round_half_up, decide_row, UsageRow, settled, charge, row_cost, scaled, decide_by, price_row_at,
  class_of, charged, line_amount,
}
use gateway_platform.Base.{
  ◌≡◌, refl, true, false, some, none, inl, inr, arith, List, ℕ, ◌<◌, ◌*◌, ◌≤◌, ◌+◌, ◌↔◌, Bool,
  Option, Option-cases, suc, subst, zero,
}

-- The amount is cost / scale to the nearest unit, halves upwards.
abbrev pub Nearest : ℕ → ℕ → ℕ → Type 0
Nearest cost scale amount =
    (2 * scale * amount ≤ 2 * cost + scale) × (2 * cost + scale < 2 * scale * amount + 2 * scale)

-- Rounding to the nearest unit, halves upwards.
pub round_half_up-Nearest : (n d : ℕ) → 0 < d → Nearest n d (round_half_up n d)
unfolding round_half_up
round_half_up-Nearest n d h = (grind arith, grind arith)

table_bill :
    (s : UsageSource) (p b : Bool) → (table s p b ≡ some bill) ↔ ((s ≡ upstream) × (b ≡ true))
unfolding table
table_bill upstream p true = (λ _. (refl, refl), λ _. refl)
table_bill upstream p false = ground arith
table_bill estimated p b = ground arith
table_bill missing p true = ground arith
table_bill missing p false = ground arith
table_bill (unknown_source t) p b = ground arith

-- Usage is billed exactly where upstream metered it and the request was delivered.
pub bill_iff :
    (class : UsageClass)
    → (disposition_for class ≡ (bill, true))
      ↔ ((class.source ≡ upstream) × (class.succeeded ≡ true))
unfolding disposition_for usage_dispositions
bill_iff class = ground (arith, table_bill class.source class.partial class.succeeded)

-- Where no rule covers the class, the usage is held and counted.
pub unknown_iff :
    (class : UsageClass) → ((disposition_for class).1 ≡ false) ↔ (usage_dispositions class ≡ none)
unfolding disposition_for
unknown_iff class = ground arith

billing_state_for-none : (d : Disposition) → (billing_state_for d ≡ none) ↔ (d ≡ bill)
unfolding billing_state_for
billing_state_for-none bill = (λ _. refl, λ _. refl)
billing_state_for-none hold = ground arith
billing_state_for-none not_billable = ground arith

-- What a charge of a row is.
pub data Charge (prices : List ModelPrice) (r : UsageRow) (amount : ℕ) : Type 0 where
  charge_of :
      {p : ModelPrice} {cost scale : ℕ}
      → r.usage_source ≡ upstream
      → release_succeeded r.status_code r.error_class ≡ true
      → LastInEffect prices r.provider r.model r.occurred_at (some p)
      → row_cost r p ≡ some cost
      → p.unit_scale ≡ pos scale
      → 0 < scale
      → Nearest cost scale amount
      → Charge prices r amount

scaled_charge :
    (z : ℤ) (c : Option ℕ) (amount : ℕ)
    → scaled z c ≡ settled amount
    → (scale : ℕ) × (cost : ℕ) × (z ≡ pos scale)
      × (0 < scale)
      × (c ≡ some cost)
      × Nearest cost scale amount
unfolding scaled
scaled_charge (negsuc _) c amount h = cc
scaled_charge (pos zero) c amount h = cc
scaled_charge (pos (suc d)) none amount h = cc
scaled_charge (pos (suc d)) (some total) amount h =
    let a : round_half_up total (suc d) ≡ amount = ground arith in
    let near =
      subst (Nearest total (suc d)) a (round_half_up-Nearest total (suc d) (omega arith)) in
    (suc d, total, refl, omega arith, refl, near)

decide_row-billable :
    (prices : List ModelPrice) (r : UsageRow) (amount : ℕ)
    → decide_row prices r ≡ settled (charge amount)
    → (r.usage_source ≡ upstream)
      × (release_succeeded r.status_code r.error_class ≡ true)
      × (price_row_at r (price_at prices r.provider r.model r.occurred_at)
          ≡ settled (charge amount))
unfolding decide_row decide_by class_of disposition_for usage_dispositions
decide_row-billable prices r amount h = ground (
  arith,
  table_bill r.usage_source r.partial (release_succeeded r.status_code r.error_class),
  billing_state_for-none (disposition_for (class_of r)).0,
)

-- A row is charged only if upstream metered it, it was delivered and a price was in effect when it
-- occurred; the charge is its cost at the last such price, to the nearest unit.
pub decide_row-Charge :
    (prices : List ModelPrice) (r : UsageRow) (amount : ℕ)
    → decide_row prices r ≡ settled (charge amount)
    → Charge prices r amount
unfolding price_row_at charged line_amount
decide_row-Charge prices r amount h =
    let (s, d, b) = decide_row-billable prices r amount h in
    elim (Option-cases (price_at prices r.provider r.model r.occurred_at)) [
      | inl n ↦ ground arith
      | inr (p, at) ↦
          let priced : line_amount r p ≡ settled amount = ground arith in
          let (scale, cost, z, positive, c, near) =
            scaled_charge p.unit_scale (row_cost r p) amount priced in
          let last =
            subst (LastInEffect prices r.provider r.model r.occurred_at) at
              (price_at_last prices r.provider r.model r.occurred_at) in
          charge_of s d last c z positive near
    ]
