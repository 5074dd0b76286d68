-- ===== src/Gateway/Chooser/Select/Outcome.antt =====
-- internal/gateway/chooser.go: what AcquirePreferring returns.
use gateway_platform.Gateway.Chooser.Select.Candidates.{Elem-ids, ids-Elem}
use gateway_platform.Gateway.Chooser.Select.Eligible.{Eligible, judge_iff, contains_iff}
use gateway_platform.Gateway.Chooser.Select.{
  choose, Verdict, scan, judge, Acquired, pick, acquire_preferring, make_lease, leased, refused,
  refusal,
}
use gateway_platform.Base.Sort.{sort_strings, IsSorted, Elem-sort_strings, sort_strings-IsSorted}
use gateway_platform.Base.Map.{Distinct, lookup, lookup_of_Entry, Entry-of_lookup}
use gateway_platform.Base.Text.{Text, text_leb, text_leb_refl}
use gateway_platform.Gateway.Chooser.{Chooser, Text}
use gateway_platform.Contracts.Types.{Time, Criteria, Account, Lease}
use gateway_platform.Base.{
  ◌≡◌, refl, List, ◌≢◌, Elem, [], some, ◌⊎◌, ◌↔◌, ◌∷◌, true, arith, inl, ℕ, nat_eq, list_eq, inr,
  All-Elem, subst, sym,
}

module _ (now : Time) (c : Chooser) (criteria : Criteria) (excluded : List Text) where
  -- The account stands in the table and is eligible.
  abbrev pub Candidate : Text → Type 0
  Candidate id =
      (account : Account) × (lookup id c.accounts ≡ some account)
      × Eligible c criteria excluded now id account

  abbrev verdict : Text → Account → Verdict
  verdict = judge c criteria excluded now

  ids-Candidate :
      (id : Text) → Distinct c.accounts → Elem id (scan verdict c.accounts).ids ↔ Candidate id
  ids-Candidate id d = (
    λ h.
        let (a, e, v) = Elem-ids verdict id c.accounts h in
        (a, lookup_of_Entry id a c.accounts d e, (judge_iff c criteria excluded now id a).0 v),
    λ h.
        let (a, l, e) = h in
        ids-Elem verdict id c.accounts
          (a, Entry-of_lookup id a c.accounts l, (judge_iff c criteria excluded now id a).1 e),
  )

  abbrev sorted : List Text
  sorted = sort_strings (scan verdict c.accounts).ids

  sorted-Candidate : (id : Text) → Distinct c.accounts → Elem id sorted ↔ Candidate id
  sorted-Candidate id d = (
    λ h. (ids-Candidate id d).0 ((Elem-sort_strings id (scan verdict c.accounts).ids).0 h),
    λ h. (Elem-sort_strings id (scan verdict c.accounts).ids).1 ((ids-Candidate id d).1 h),
  )

  module _ (preferred : Text) where
    -- The preferred candidate, or else the least of the candidates.
    abbrev pub Chosen : Text → Type 0
    Chosen id =
        (preferred ≢ [] → Candidate preferred → id ≡ preferred)
        × ((preferred ≡ []) ⊎ (¬ Candidate preferred)
            → (j : Text) → Candidate j
            → text_leb id j ≡ true)

    choose_cases :
        (first : Text) (rest : List Text)
        → ((choose preferred first (first ∷ rest) ≡ preferred)
            × (preferred ≢ [])
            × Elem preferred (first ∷ rest))
          ⊎ ((choose preferred first (first ∷ rest) ≡ first)
              × ((preferred ≡ []) ⊎ (¬ Elem preferred (first ∷ rest))))
    unfolding choose
    choose_cases first rest = ground (arith, contains_iff (first ∷ rest) preferred)

    choose-Elem :
        (first : Text) (rest : List Text)
        → Elem (choose preferred first (first ∷ rest)) (first ∷ rest)
    choose-Elem first rest = elim (choose_cases first rest) [
      | inl (e, _, m) ↦ subst (λ t. Elem t (first ∷ rest)) (sym e) m
      | inr (e, _) ↦ inl (sym e)
    ]

    first_least :
        (first : Text) (rest : List Text)
        → IsSorted (first ∷ rest)
        → (j : Text) → Elem j (first ∷ rest)
        → text_leb first j ≡ true
    first_least first rest s j (inl e) = rw (← e) (text_leb_refl first)
    first_least first rest s j (inr m) = All-Elem (λ t. text_leb first t ≡ true) j rest s.0 m

    choose-Chosen :
        (first : Text) (rest : List Text)
        → IsSorted (first ∷ rest)
        → ((id : Text) → Elem id (first ∷ rest) ↔ Candidate id)
        → Chosen (choose preferred first (first ∷ rest))
    choose-Chosen first rest s h = elim (choose_cases first rest) [
      | inl (e, some_pref, m) ↦
          (λ _ _. e, λ n. absurd (elim n [ inl p ↦ some_pref p | inr q ↦ q ((h preferred).0 m) ]))
      | inr (e, n) ↦ (
        λ some_pref cand.
            absurd (elim n [ inl p ↦ some_pref p | inr q ↦ q ((h preferred).1 cand) ]),
        λ _ j cand. rw e (first_least first rest s j ((h j).1 cand)),
      )
    ]

    module _ (ws : ℕ → ℕ) where
      -- What a lease promises: its account is in the table and eligible, the lease carries that
      -- account's fields, and the account is the one to choose.
      abbrev pub LeaseOf : Lease → Type 0
      LeaseOf l =
          (id : Text) × (account : Account) × (lookup id c.accounts ≡ some account)
          × Eligible c criteria excluded now id account
          × Chosen id
          × (l ≡ make_lease ws now account)

      abbrev pub Outcome : Acquired → Type 0
      Outcome (leased l) = LeaseOf l
      Outcome (refused e) = ((id : Text) → ¬ Candidate id) × (e ≡ refusal (scan verdict c.accounts))

      pick-Outcome :
          (ids : List Text)
          → IsSorted ids
          → ((id : Text) → Elem id ids ↔ Candidate id)
          → Outcome (pick ws now preferred c.accounts (scan verdict c.accounts) ids)
      unfolding pick
      pick-Outcome [] s h = (λ id cand. (h id).1 cand, refl)
      pick-Outcome (first ∷ rest) s h =
          let chosen = choose preferred first (first ∷ rest) in
          let (account, found, good) = (h chosen).0 (choose-Elem first rest) in
          rw found (chosen, account, found, good, choose-Chosen first rest s h, refl)

      pub acquire-Outcome :
          Distinct c.accounts → Outcome (acquire_preferring ws now c criteria preferred excluded)
      unfolding acquire_preferring
      acquire-Outcome d =
          pick-Outcome sorted (sort_strings-IsSorted _) (λ id. sorted-Candidate id d)

      -- A lease is for an account that is in the table and eligible, carries that account's fields,
      -- and is for the preferred account if that is a candidate, otherwise for the candidate whose
      -- id is least. It assumes that the table's keys are distinct, as a Go map's are.
      pub acquire-LeaseOf :
          (l : Lease)
          → Distinct c.accounts
          → acquire_preferring ws now c criteria preferred excluded ≡ leased l
          → LeaseOf l
      acquire-LeaseOf l d e = subst Outcome e (acquire-Outcome d)

      total : (r : Acquired) → Outcome r → (id : Text) → Candidate id → (l : Lease) × (r ≡ leased l)
      total (leased l) o id cand = (l, refl)
      total (refused e) o id cand = absurd (o.0 id cand)

      -- While any account is eligible, a lease is returned: no failed preference, exhausted quota
      -- or stale bucket of another account stands in the way.
      pub acquire_total :
          (id : Text)
          → Distinct c.accounts
          → Candidate id
          → (l : Lease) × (acquire_preferring ws now c criteria preferred excluded ≡ leased l)
      acquire_total id d cand = total _ (acquire-Outcome d) id cand
