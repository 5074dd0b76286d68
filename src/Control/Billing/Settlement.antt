-- ===== src/Control/Billing/Settlement.antt =====
-- internal/control/billing_job.go: settleTenant debits a wallet by what it marks as billed.
use gateway_platform.Control.Billing.Policy.{
  BillingState, disposition_for, pending, billing_state_for, Disposition, billed, unpriced, bill,
  held, hold, not_billable_state, not_billable,
}
use gateway_platform.Contracts.Types.{Time}
use gateway_platform.Control.Billing.Wallet.{ModelPrice}
use gateway_platform.Control.Billing.Job.{
  RowOutcome, JobResult, count_unknown, JobError, tally, charge, job_failed, resolved, UsageRow,
  Settlement, settle_rows, selects, settled, no_price, decide_row, post, class_of, is_pending,
  decide_by, price_row_at, charged, line_amount,
}
use gateway_platform.Base.{
  ◌≡◌, refl, true, false, inl, inr, [], ◌∷◌, arith, List, ℕ, Bool, ◌⊎◌, ◌+◌, subst, Bool-cases, sym,
  ◌∙◌, ap, if◌then◌else◌, All, none, ◌==◌, get_or, nat_eq, list_eq, Option, some, ne→==,
}
use gateway_platform.Base.Text.{Text, text_beq_iff}

unfoldable pub amount_of : RowOutcome → ℕ
amount_of (charge amount) = amount
amount_of no_price = 0
amount_of (resolved _) = 0

-- The rows before and after, with the sum of the charges.
pub data Settles (prices : List ModelPrice) (run_id tenant_id : Text) (window_end : Time)
    : List UsageRow → ℕ → List UsageRow → Type 0 where
  no_rows : Settles prices run_id tenant_id window_end [] 0 []
  row_left :
      {r : UsageRow} {rows rows' : List UsageRow} {n : ℕ}
      → selects tenant_id window_end r ≡ false
      → Settles prices run_id tenant_id window_end rows n rows'
      → Settles prices run_id tenant_id window_end (r ∷ rows) n (r ∷ rows')
  row_posted :
      {r : UsageRow} {rows rows' : List UsageRow} {n : ℕ} {outcome : RowOutcome}
      → selects tenant_id window_end r ≡ true
      → decide_row prices r ≡ settled outcome
      → Settles prices run_id tenant_id window_end rows n rows'
      → Settles prices run_id tenant_id window_end
          (r ∷ rows)
          (amount_of outcome + n)
          (post run_id outcome r ∷ rows')

pub JobResult-cases :
    {A : Type 0} (x : JobResult A)
    → ((e : JobError) × (x ≡ job_failed e)) ⊎ ((a : A) × (x ≡ settled a))
JobResult-cases (job_failed e) = inl (e, refl)
JobResult-cases (settled a) = inr (a, refl)

tally_amount :
    (outcome : RowOutcome) (s : Settlement)
    → (tally outcome s).debited ≡ amount_of outcome + s.debited
unfolding tally amount_of
tally_amount (charge amount) s = refl
tally_amount no_price s = omega arith
tally_amount (resolved pending) s = omega arith
tally_amount (resolved billed) s = omega arith
tally_amount (resolved unpriced) s = omega arith
tally_amount (resolved held) s = omega arith
tally_amount (resolved not_billable_state) s = omega arith

tally_debited :
    (known : Bool) (outcome : RowOutcome) (s : Settlement)
    → (count_unknown known (tally outcome s)).debited ≡ amount_of outcome + s.debited
unfolding count_unknown
tally_debited true outcome s = tally_amount outcome s
tally_debited false outcome s = tally_amount outcome s

module _ (prices : List ModelPrice) (run_id tenant_id : Text) (window_end : Time) where
  same_result :
      {rows left right : List UsageRow} {m n : ℕ}
      → m ≡ n
      → left ≡ right
      → Settles prices run_id tenant_id window_end rows m left
      → Settles prices run_id tenant_id window_end rows n right
  same_result {rows} {left} {right} {m} {n} e q h =
      subst (λ k. Settles prices run_id tenant_id window_end rows k right) e
        (subst (Settles prices run_id tenant_id window_end rows m) q h)

  pub settle_rows-Settles :
      (rows rows' : List UsageRow) (s : Settlement)
      → settle_rows prices run_id tenant_id window_end rows ≡ settled (s, rows')
      → Settles prices run_id tenant_id window_end rows s.debited rows'
  unfolding settle_rows
  settle_rows-Settles [] rows' s h = same_result (ground arith) (ground arith) no_rows
  settle_rows-Settles (r ∷ rows) rows' s h =
      elim (JobResult-cases (settle_rows prices run_id tenant_id window_end rows)) [
        | inl (e, f) ↦ elim (Bool-cases (selects tenant_id window_end r)) [
          | inl t ↦ elim (JobResult-cases (decide_row prices r)) [
            | inl (x, q) ↦ ground arith
            | inr (o, q) ↦ ground arith
          ]
          | inr u ↦ ground arith
        ]
        | inr ((s', rest), f) ↦
            let before = settle_rows-Settles rows rest s' f in
            elim (Bool-cases (selects tenant_id window_end r)) [
              | inr u ↦ same_result (ground arith) (ground arith) (row_left u before)
              | inl t ↦ elim (JobResult-cases (decide_row prices r)) [
                | inl (x, q) ↦ ground arith
                | inr (o, q) ↦
                    let known = (disposition_for (class_of r)).1 in
                    let e : s ≡ count_unknown known (tally o s') = ground arith in
                    same_result (sym (tally_debited known o s') ∙ ap (λ x. x.debited) (sym e))
                      (ground arith) (row_posted t q before)
              ]
            ]
      ]

-- The amounts that a tenant's rows carry.
unfoldable pub billed_total : Text → List UsageRow → ℕ
billed_total tenant_id [] = 0
billed_total tenant_id (r ∷ rows) =
    if r.tenant_id == tenant_id
    then get_or 0 r.billed_amount + billed_total tenant_id rows
    else billed_total tenant_id rows

-- A pending row carries no amount yet.
abbrev pub PendingUnbilled : List UsageRow → Type 0
PendingUnbilled rows = All (λ r. r.billing_state ≡ pending → r.billed_amount ≡ none) rows

selects_parts :
    (tenant_id : Text) (window_end : Time) (r : UsageRow)
    → selects tenant_id window_end r ≡ true
    → (r.tenant_id ≡ tenant_id) × (r.billing_state ≡ pending)
unfolding selects is_pending
selects_parts tenant_id window_end r h = ground (arith, text_beq_iff r.tenant_id tenant_id)

never_pending : (d : Disposition) → billing_state_for d ≡ some pending → ⊥
unfolding billing_state_for
never_pending bill h = cc
never_pending hold h = cc
never_pending not_billable h = cc

charge_or_none :
    (r : UsageRow) (p : Option ModelPrice) (state : BillingState)
    → price_row_at r p ≡ settled (resolved state)
    → ⊥
unfolding price_row_at charged
charge_or_none r none state h = cc
charge_or_none r (some p) state h = elim (JobResult-cases (line_amount r p)) [
  | inl (e, f) ↦ ground arith
  | inr (a, f) ↦ ground arith
]

resolved_by :
    (prices : List ModelPrice) (r : UsageRow) (o : Option BillingState) (state : BillingState)
    → decide_by r prices o ≡ settled (resolved state)
    → o ≡ some state
unfolding decide_by
resolved_by prices r none state h = absurd (charge_or_none r _ state h)
resolved_by prices r (some s) state h = ground arith

-- What is posted is not pending any more.
pub decided_state :
    (prices : List ModelPrice) (run_id : Text) (r : UsageRow) (outcome : RowOutcome)
    → decide_row prices r ≡ settled outcome
    → (post run_id outcome r).billing_state ≡ pending
    → ⊥
unfolding decide_row post
decided_state prices run_id r (charge amount) h p = cc
decided_state prices run_id r no_price h p = cc
decided_state prices run_id r (resolved state) h p =
    never_pending _ (resolved_by prices r _ state h ∙ ap some p)

post_tenant :
    (run_id : Text) (r : UsageRow) (outcome : RowOutcome)
    → (post run_id outcome r).tenant_id ≡ r.tenant_id
unfolding post
post_tenant run_id r (charge amount) = refl
post_tenant run_id r no_price = refl
post_tenant run_id r (resolved state) = refl

post_amount :
    (run_id : Text) (r : UsageRow) (outcome : RowOutcome)
    → r.billed_amount ≡ none
    → ((post run_id outcome r).tenant_id ≡ r.tenant_id)
      × (get_or 0 (post run_id outcome r).billed_amount ≡ amount_of outcome)
unfolding post amount_of
post_amount run_id r (charge amount) n = (refl, refl)
post_amount run_id r no_price n = (refl, ap (get_or 0) n)
post_amount run_id r (resolved state) n = (refl, ap (get_or 0) n)

module _ {prices : List ModelPrice} {run_id tenant_id : Text} {window_end : Time} where
  -- Nothing is left to select.
  pub Settles-none_left :
      {rows rows' : List UsageRow} {n : ℕ}
      → Settles prices run_id tenant_id window_end rows n rows'
      → All (λ r. selects tenant_id window_end r ≡ false) rows'
  unfolding selects is_pending
  Settles-none_left no_rows = tt
  Settles-none_left (row_left f h) = (f, Settles-none_left h)
  Settles-none_left (row_posted {r = r} {outcome = o} t d h) =
      let gone = decided_state prices run_id r o d in (ground arith, Settles-none_left h)

  pub Settles-total :
      {rows rows' : List UsageRow} {n : ℕ}
      → Settles prices run_id tenant_id window_end rows n rows'
      → PendingUnbilled rows
      → billed_total tenant_id rows' ≡ billed_total tenant_id rows + n
  unfolding billed_total
  Settles-total no_rows u = omega arith
  Settles-total (row_left {r = r} f h) u = ground (arith, Settles-total h u.1)
  Settles-total (row_posted {r = r} {outcome = o} t d h) u =
      let parts = selects_parts tenant_id window_end r t in
      let posted = post_amount run_id r o (u.0 parts.1) in
      let same : (r.tenant_id == tenant_id) ≡ true =
        (text_beq_iff r.tenant_id tenant_id).1 parts.0 in
      let unbilled = ap (get_or 0) (u.0 parts.1) in
      rw (posted.0, same, posted.1, unbilled) (omega (arith, Settles-total h u.1))

  pub Settles-others :
      {rows rows' : List UsageRow} {n : ℕ}
      → Settles prices run_id tenant_id window_end rows n rows'
      → (other : Text) → (other ≡ tenant_id → ⊥)
      → billed_total other rows' ≡ billed_total other rows
  unfolding billed_total
  Settles-others no_rows other d = refl
  Settles-others (row_left {r = r} f h) other d = ground (arith, Settles-others h other d)
  Settles-others (row_posted {r = r} {outcome = o} t s h) other d =
      let parts = selects_parts tenant_id window_end r t in
      let kept : (post run_id o r).tenant_id ≡ r.tenant_id = post_tenant run_id r o in
      let not_other : (r.tenant_id == other) ≡ false =
        ne→== r.tenant_id other (λ q. d (sym q ∙ parts.0)) in
      rw (kept, not_other) (Settles-others h other d)

  pub Settles-Unbilled :
      {rows rows' : List UsageRow} {n : ℕ}
      → Settles prices run_id tenant_id window_end rows n rows'
      → PendingUnbilled rows
      → PendingUnbilled rows'
  Settles-Unbilled no_rows u = tt
  Settles-Unbilled (row_left f h) u = (u.0, Settles-Unbilled h u.1)
  Settles-Unbilled (row_posted {r = r} {outcome = o} t d h) u =
      (λ p. absurd (decided_state prices run_id r o d p), Settles-Unbilled h u.1)
