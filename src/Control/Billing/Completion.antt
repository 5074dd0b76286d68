-- ===== src/Control/Billing/Completion.antt =====
-- internal/control/billing_job.go: a run in which no settlement fails leaves no row due.
use gateway_platform.Control.Billing.Conservation.{settle_tenant_parts}
use gateway_platform.Control.Billing.Settlement.{
  Settles, row_left, row_posted, decided_state, no_rows, settle_rows-Settles, Settles-none_left,
}
use gateway_platform.Control.Billing.Wallet.{ModelPrice}
use gateway_platform.Control.Billing.Job.{
  UsageRow, selects, Books, is_pending, JobResult, Settlement, settle_tenant, settled, job_failed,
}
use gateway_platform.Control.Billing.Run.{
  insert_tenant, pending_tenants, after_tenant, settle_tenants, add_settlement, BillingRunResult,
  is_due, add_failure, run_on, run_once, no_run, completed, close_run,
}
use gateway_platform.Contracts.Types.{Time}
use gateway_platform.Base.{
  ◌≡◌, refl, true, false, inl, inr, [], ◌∷◌, arith, List, ◌⊎◌, All, Elem, ◌≤◌, ℕ, Bool-cases, suc,
  ◌==◌, All-map, sym, ==→eq, ◌∙◌, nat_eq, list_eq, if◌then◌else◌, subst, Bool, ==_refl,
}
use gateway_platform.Base.Text.{Text, text_leb}

-- Every due row is of one of the tenants.
abbrev pub Covered : Time → List Text → List UsageRow → Type 0
Covered window_end ts rows = All (λ r. is_due window_end r ≡ true → Elem r.tenant_id ts) rows

-- None of the tenant's rows is due.
abbrev pub Cleared : Time → Text → List UsageRow → Type 0
Cleared window_end t rows = All (λ r. selects t window_end r ≡ false) rows

Elem-insert_tenant :
    (a t : Text) (ts : List Text) → (t ≡ a) ⊎ Elem a ts → Elem a (insert_tenant t ts)
unfolding insert_tenant
Elem-insert_tenant a t [] h = ground arith
Elem-insert_tenant a t (u ∷ us) h = elim (Bool-cases (t == u)) [
  | inl q ↦ rw q (elim h [ inl e ↦ inl (sym (==→eq t u q) ∙ e) | inr m ↦ m ])
  | inr f ↦ elim (Bool-cases (text_leb t u)) [
    | inl q ↦ rw (f, q) h
    | inr g ↦
        rw (f, g)
          (elim h [
            | inl e ↦ inr (Elem-insert_tenant a t us (inl e))
            | inr (inl e) ↦ inl e
            | inr (inr m) ↦ inr (Elem-insert_tenant a t us (inr m))
          ])
  ]
]

keeps_tenant :
    (b : Bool) (a t : Text) (ts : List Text)
    → Elem a ts
    → Elem a (if b then insert_tenant t ts else ts)
keeps_tenant true a t ts m = Elem-insert_tenant a t ts (inr m)
keeps_tenant false a t ts m = m

-- The tenants with one row more.
row-Covered :
    (window_end : Time) (r : UsageRow) (rows : List UsageRow) (ts : List Text)
    → Covered window_end ts rows
    → Covered window_end
        (if is_due window_end r then insert_tenant r.tenant_id ts else ts)
        (r ∷ rows)
row-Covered window_end r rows ts h =
    let ts' = if is_due window_end r then insert_tenant r.tenant_id ts else ts in
    (
      λ due. rw due (Elem-insert_tenant r.tenant_id r.tenant_id ts (inl refl)),
      All-map _ (λ x. is_due window_end x ≡ true → Elem x.tenant_id ts')
          (λ x m due. keeps_tenant (is_due window_end r) x.tenant_id r.tenant_id ts (m due)) rows h,
    )

pending_tenants-Covered :
    (window_end : Time) (rows : List UsageRow)
    → Covered window_end (pending_tenants window_end rows) rows
unfolding pending_tenants
pending_tenants-Covered window_end [] = tt
pending_tenants-Covered window_end (r ∷ rows) =
    row-Covered window_end r rows (pending_tenants window_end rows)
      (pending_tenants-Covered window_end rows)

module _ {prices : List ModelPrice} {run_id tenant_id : Text} {window_end : Time} where
  Settles-Covered :
      {rows rows' : List UsageRow} {n : ℕ} (ts : List Text)
      → Settles prices run_id tenant_id window_end rows n rows'
      → Covered window_end ts rows
      → Covered window_end ts rows'
  unfolding is_due is_pending
  Settles-Covered ts no_rows c = tt
  Settles-Covered ts (row_left f h) c = (c.0, Settles-Covered ts h c.1)
  Settles-Covered ts (row_posted {r = r} {outcome = o} t d h) c =
      let gone = decided_state prices run_id r o d in
      (λ due. absurd (gone (ground arith)), Settles-Covered ts h c.1)

  Settles-Cleared :
      {rows rows' : List UsageRow} {n : ℕ} (t : Text)
      → Settles prices run_id tenant_id window_end rows n rows'
      → Cleared window_end t rows
      → Cleared window_end t rows'
  unfolding selects is_pending
  Settles-Cleared u no_rows c = tt
  Settles-Cleared u (row_left f h) c = (c.0, Settles-Cleared u h c.1)
  Settles-Cleared u (row_posted {r = r} {outcome = o} t d h) c =
      let gone = decided_state prices run_id r o d in (ground arith, Settles-Cleared u h c.1)

-- One turn of the loop that fails is counted.
after_tenant_failed :
    (x : JobResult (Settlement × Books)) (run : BillingRunResult × Books)
    → run.0.tenants_failed ≤ (after_tenant x run).0.tenants_failed
unfolding after_tenant add_settlement add_failure
after_tenant_failed (job_failed e) run = omega arith
after_tenant_failed (settled p) run = omega arith

settle_tenants_failed :
    (run_id : Text) (window_end : Time) (ts : List Text) (run : BillingRunResult × Books)
    → run.0.tenants_failed ≤ (settle_tenants run_id window_end ts run).0.tenants_failed
unfolding settle_tenants
settle_tenants_failed run_id window_end [] run = omega arith
settle_tenants_failed run_id window_end (t ∷ ts) run =
    let x = settle_tenant run_id t window_end run.1 in
    omega (
      arith,
      after_tenant_failed x run,
      settle_tenants_failed run_id window_end ts (after_tenant x run),
    )

-- One turn that does not fail clears its tenant, and undoes nothing.
turn_clears :
    (run_id t : Text) (window_end : Time) (ts : List Text) (run : BillingRunResult × Books)
    (x : JobResult (Settlement × Books))
    → settle_tenant run_id t window_end run.1 ≡ x
    → (after_tenant x run).0.tenants_failed ≤ run.0.tenants_failed
    → Covered window_end ts run.1.ledger
    → Covered window_end ts (after_tenant x run).1.ledger
      × ((u : Text)
          → (t ≡ u) ⊎ Cleared window_end u run.1.ledger
          → Cleared window_end u (after_tenant x run).1.ledger)
unfolding after_tenant add_failure
turn_clears run_id t window_end ts run (job_failed e) q h c = absurd (too_many h)
  where
    too_many : {n : ℕ} → suc n ≤ n → ⊥
    too_many h = omega arith
turn_clears run_id t window_end ts run (settled (s, b')) q h c =
    (Settles-Covered ts settles c, clear)
  where
    settles : Settles run.1.prices run_id t window_end run.1.ledger s.debited b'.ledger
    settles =
        settle_rows-Settles run.1.prices run_id t window_end run.1.ledger b'.ledger s
          (settle_tenant_parts run_id t window_end run.1 b' s q).0

    clear :
        (u : Text) → (t ≡ u) ⊎ Cleared window_end u run.1.ledger → Cleared window_end u b'.ledger
    clear u (inl e) = subst (λ v. Cleared window_end v b'.ledger) e (Settles-none_left settles)
    clear u (inr k) = Settles-Cleared u settles k

-- What the turns of the loop do to the ledger, where none fails.
settle_tenants_clear :
    (run_id : Text) (window_end : Time) (ts tenants : List Text) (run : BillingRunResult × Books)
    → (settle_tenants run_id window_end ts run).0.tenants_failed ≤ run.0.tenants_failed
    → Covered window_end tenants run.1.ledger
    → Covered window_end tenants (settle_tenants run_id window_end ts run).1.ledger
      × ((u : Text)
          → Elem u ts ⊎ Cleared window_end u run.1.ledger
          → Cleared window_end u (settle_tenants run_id window_end ts run).1.ledger)
unfolding settle_tenants
settle_tenants_clear run_id window_end [] tenants run h c = (c, clear)
  where
    clear :
        (u : Text)
        → Elem u [] ⊎ Cleared window_end u run.1.ledger
        → Cleared window_end u run.1.ledger
    clear u (inl m) = absurd m
    clear u (inr k) = k
settle_tenants_clear run_id window_end (t ∷ ts) tenants run h c =
    let x = settle_tenant run_id t window_end run.1 in
    let next = after_tenant x run in
    let later = settle_tenants_failed run_id window_end ts next in
    let sooner = after_tenant_failed x run in
    let turn = turn_clears run_id t window_end tenants run x refl (omega arith) c in
    let rest = settle_tenants_clear run_id window_end ts tenants next (omega arith) turn.0 in
    (
      rest.0,
      λ u m. elim m [
        | inl (inl e) ↦ rest.1 u (inr (turn.1 u (inl e)))
        | inl (inr m) ↦ rest.1 u (inl m)
        | inr k ↦ rest.1 u (inr (turn.1 u (inr k)))
      ],
    )

selected :
    (window_end : Time) (r : UsageRow)
    → is_due window_end r ≡ true
    → selects r.tenant_id window_end r ≡ true
unfolding is_due selects
selected window_end r h = rw (==_refl r.tenant_id) h

not_due :
    (window_end : Time) (ts : List Text) (rows : List UsageRow)
    → Covered window_end ts rows
    → ((t : Text) → Elem t ts → Cleared window_end t rows)
    → All (λ r. is_due window_end r ≡ false) rows
not_due window_end ts [] c k = tt
not_due window_end ts (r ∷ rows) c k =
    (head_not_due, not_due window_end ts rows c.1 (λ t m. (k t m).1))
  where
    no : {b : Bool} → b ≡ true → b ≡ false → ⊥
    no h k = cc

    head_not_due : is_due window_end r ≡ false
    head_not_due = elim (Bool-cases (is_due window_end r)) [
      | inl due ↦ absurd (no (selected window_end r due) (k r.tenant_id (c.0 due)).0)
      | inr f ↦ f
    ]

run_on_completes :
    (prices : List ModelPrice) (run_id : Text) (window_end : Time) (b : Books)
    → (run_on prices run_id window_end b).0.status ≡ completed
    → All (λ r. is_due window_end r ≡ false) (run_on prices run_id window_end b).1.ledger
unfolding run_on no_run close_run
run_on_completes [] run_id window_end b h = cc
run_on_completes (_ ∷ _) run_id window_end b h =
    let ts = pending_tenants window_end b.ledger in
    let run = settle_tenants run_id window_end ts (no_run completed, b) in
    let none_failed : run.0.tenants_failed ≤ 0 = ground arith in
    let (covered, cleared) =
      settle_tenants_clear run_id window_end ts ts (no_run completed, b) none_failed
        (pending_tenants-Covered window_end b.ledger) in
    not_due window_end ts run.1.ledger covered (λ t m. cleared t (inl m))

-- A run that completes leaves no row in its window pending.
pub run_once_completes :
    (run_id : Text) (window_end : Time) (b : Books)
    → (run_once run_id window_end b).0.status ≡ completed
    → All (λ r. is_due window_end r ≡ false) (run_once run_id window_end b).1.ledger
unfolding run_once
run_once_completes run_id window_end b h = run_on_completes b.prices run_id window_end b h
