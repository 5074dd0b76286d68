-- ===== src/Gateway/Chooser/Select/Refusal.antt =====
-- internal/gateway/chooser.go: which error AcquirePreferring returns when no account is eligible.
use gateway_platform.Gateway.Chooser.Select.Outcome.{Candidate, Outcome, acquire-Outcome}
use gateway_platform.Gateway.Chooser.Select.Candidates.{Judged, Judged-raised, raised-Judged}
use gateway_platform.Gateway.Chooser.Select.Eligible.{
  Eligible, HasQuota, judge_iff, has_quota_items_iff,
}
use gateway_platform.Base.Map.{lookup, Distinct, lookup_of_Entry, Entry-of_lookup}
use gateway_platform.Gateway.Chooser.Select.{
  judge, Verdict, lookup, has_quota, supports, eligible, quota_excluded, has_quota_items,
  egress_blocked, scan, refusal, platform_differs, Scan, acquire_preferring, quota_exhausted,
  refused, AcquireError, Acquired, leased,
}
use gateway_platform.Base.Text.{Text}
use gateway_platform.Gateway.Chooser.{Chooser, Text}
use gateway_platform.Contracts.Types.{Time, Criteria, Account}
use gateway_platform.Base.{
  ◌≡◌, refl, ℕ, List, some, [], ◌↔◌, false, nat_eq, list_eq, true, arith, inl, false_iff, sym, ◌∙◌,
}

no_items :
    (account : Account) (model : Text)
    → has_quota (record account { quota = record { items = [] } }) model ≡ true
unfolding has_quota has_quota_items
no_items account model = refl

quota_false_iff :
    (account : Account) (model : Text)
    → (has_quota account model ≡ false) ↔ (HasQuota account.quota.items model → ⊥)
unfolding has_quota
quota_false_iff account model = false_iff _ (has_quota_items_iff account.quota.items model)

quota_first : (s : Scan) → (refusal s ≡ quota_exhausted) ↔ (s.quota ≡ true)
unfolding refusal
quota_first s = ground arith

refused_inj : (e f : AcquireError) → refused e ≡ refused f → e ≡ f
refused_inj e f h = cc

module _ (ws : ℕ → ℕ) (now : Time) (c : Chooser) (criteria : Criteria) (preferred : Text)
    (excluded : List Text) where
  abbrev verdict : Text → Account → Verdict
  verdict = judge c criteria excluded now

  -- An account of the table that the quota alone keeps from being eligible.
  abbrev pub HeldByQuota : Type 0
  HeldByQuota =
      (id : Text) × (account : Account) × (lookup id c.accounts ≡ some account)
      × Eligible c criteria excluded now id (record account { quota = record { items = [] } })
      × (¬ HasQuota account.quota.items criteria.model)

  judge-quota :
      (id : Text) (account : Account)
      → (verdict id account ≡ quota_excluded) ↔ (
          (verdict id (record account { quota = record { items = [] } }) ≡ eligible)
          × (has_quota account criteria.model ≡ false))
  unfolding judge supports egress_blocked platform_differs
  judge-quota id account = ground (arith, no_items account criteria.model)

  quota-HeldByQuota :
      (id : Text) → Distinct c.accounts → Judged verdict quota_excluded id c.accounts → HeldByQuota
  quota-HeldByQuota id d (a, e, v) =
      let (good, spent) = (judge-quota id a).0 v in
      (
        id,
        a,
        lookup_of_Entry id a c.accounts d e,
        (judge_iff c criteria excluded now id _).0 good,
        (quota_false_iff a criteria.model).0 spent,
      )

  HeldByQuota-quota : HeldByQuota → (scan verdict c.accounts).quota ≡ true
  HeldByQuota-quota (id, a, l, e, n) =
      Judged-raised verdict quota_excluded id c.accounts (inl refl) (
        a,
        Entry-of_lookup id a c.accounts l,
        (judge-quota id a).1
            ((judge_iff c criteria excluded now id _).1 e, (quota_false_iff a criteria.model).1 n),
      )

  -- `quota_exhausted` is returned exactly if no account is eligible and some account would be one
  -- but for its quota. It assumes that the table's keys are distinct.
  pub acquire_refused :
      Distinct c.accounts
      → (acquire_preferring ws now c criteria preferred excluded ≡ refused quota_exhausted)
        ↔ (((id : Text) → ¬ Candidate now c criteria excluded id) × HeldByQuota)
  acquire_refused d = (
    λ e. forwards _ (acquire-Outcome now c criteria excluded preferred ws d) e,
    λ h. backwards _ (acquire-Outcome now c criteria excluded preferred ws d) h.0 h.1,
  )
    where
      forwards :
          (r : Acquired)
          → Outcome now c criteria excluded preferred ws r
          → r ≡ refused quota_exhausted
          → ((id : Text) → ¬ Candidate now c criteria excluded id) × HeldByQuota
      forwards (leased l) o e = cc
      forwards (refused f) o e =
          let (id, j) = raised-Judged verdict quota_excluded c.accounts (
            (quota_first (scan verdict c.accounts)).0
              (sym o.1 ∙ refused_inj f quota_exhausted e)) in
          (o.0, quota-HeldByQuota id d j)

      backwards :
          (r : Acquired)
          → Outcome now c criteria excluded preferred ws r
          → ((id : Text) → ¬ Candidate now c criteria excluded id)
          → HeldByQuota
          → r ≡ refused quota_exhausted
      backwards (leased l) (id, a, f, e, _, _) n h = absurd (n id (a, f, e))
      backwards (refused f) o n h =
          rw (o.1, (quota_first (scan verdict c.accounts)).1 (HeldByQuota-quota h))
