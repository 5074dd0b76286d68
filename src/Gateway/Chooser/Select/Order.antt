-- ===== src/Gateway/Chooser/Select/Order.antt =====
-- internal/gateway/chooser.go: ranging over the accounts map in another order changes nothing.
use gateway_platform.Gateway.Chooser.Select.Candidates.{
  IsFlag, Judged, raised, raised-Judged, ids-Elem, Judged-raised, Elem-ids,
}
use gateway_platform.Gateway.Chooser.{Chooser}
use gateway_platform.Gateway.Chooser.Select.Eligible.{contains_iff}
use gateway_platform.Base.Map.{lookup, Distinct, Entry-of_lookup, lookup_of_Entry}
use gateway_platform.Base.Sort.{IsSorted, sort_strings, Elem-sort_strings, sort_strings-IsSorted}
use gateway_platform.Contracts.Types.{Account, Time, Criteria}
use gateway_platform.Gateway.Chooser.Select.{
  refusal, acquire_preferring, Account, Scan, contains, Time, lookup, Verdict, pick, Chooser,
  choose, scan, eligible, judge, is_stale, is_cooling, egress_blocked, quota_excluded,
  stale_excluded, egress_excluded,
}
use gateway_platform.Base.Text.{Text, text_leb, text_leb_antisymm, text_leb_refl}
use gateway_platform.Base.{
  [], ◌∷◌, true, false, inl, inr, ◌≡◌, refl, List, Bool, ℕ, Elem, sym, ◌↔◌, nat_eq, list_eq, ◌∙◌,
  All-Elem,
}

-- Two lists of one map: the same key leads to the same account.
abbrev pub SameMap : List (Text × Account) → List (Text × Account) → Type 0
SameMap m n = (k : Text) → lookup k m ≡ lookup k n

bool_eq : (a b : Bool) → (a ≡ true → b ≡ true) → (b ≡ true → a ≡ true) → a ≡ b
bool_eq true b f g = sym (f refl)
bool_eq false true f g = g refl
bool_eq false false f g = refl

move-Judged :
    (v : Text → Account → Verdict) (m n : List (Text × Account)) (w : Verdict) (id : Text)
    → Distinct m
    → SameMap m n
    → Judged v w id m
    → Judged v w id n
move-Judged v m n w id d s (a, e, q) =
    (a, Entry-of_lookup id a n (sym (s id) ∙ lookup_of_Entry id a m d e), q)

same_flag :
    (v : Text → Account → Verdict) (m n : List (Text × Account)) (w : Verdict)
    → IsFlag w
    → Distinct m
    → Distinct n
    → SameMap m n
    → raised w (scan v m) ≡ raised w (scan v n)
same_flag v m n w f dm dn s = bool_eq _ _ (go m n dm s) (go n m dn (λ k. sym (s k)))
  where
    go :
        (m n : List (Text × Account))
        → Distinct m
        → SameMap m n
        → raised w (scan v m) ≡ true
        → raised w (scan v n) ≡ true
    go m n d s h =
        let (id, j) = raised-Judged v w m h in
        Judged-raised v w id n f (move-Judged v m n w id d s j)

same_ids :
    (v : Text → Account → Verdict) (m n : List (Text × Account)) (id : Text)
    → Distinct m
    → SameMap m n
    → Elem id (scan v m).ids
    → Elem id (scan v n).ids
same_ids v m n id d s h = ids-Elem v id n (move-Judged v m n eligible id d s (Elem-ids v id m h))

same_refusal :
    (s t : Scan)
    → s.quota ≡ t.quota
    → s.stale ≡ t.stale
    → s.egress ≡ t.egress
    → refusal s ≡ refusal t
unfolding refusal
same_refusal s t p q r = rw (p, q, r)

-- Two sorted lists of the same strings agree on their least, and on the choice.
abbrev Same : List Text → List Text → Type 0
Same xs ys = (t : Text) → Elem t xs ↔ Elem t ys

least :
    (x : Text) (xs : List Text)
    → IsSorted (x ∷ xs)
    → (t : Text) → Elem t (x ∷ xs)
    → text_leb x t ≡ true
least x xs s t (inl e) = rw (← e) (text_leb_refl x)
least x xs s t (inr m) = All-Elem (λ u. text_leb x u ≡ true) t xs s.0 m

Same-first :
    (x y : Text) (xs ys : List Text)
    → IsSorted (x ∷ xs)
    → IsSorted (y ∷ ys)
    → Same (x ∷ xs) (y ∷ ys)
    → x ≡ y
Same-first x y xs ys sx sy h =
    text_leb_antisymm x y (least x xs sx y ((h y).1 (inl refl)))
      (least y ys sy x ((h x).0 (inl refl)))

Same-contains : (xs ys : List Text) (t : Text) → Same xs ys → contains xs t ≡ contains ys t
Same-contains xs ys t h =
    bool_eq _ _ (λ e. (contains_iff ys t).1 ((h t).0 ((contains_iff xs t).0 e)))
      (λ e. (contains_iff xs t).1 ((h t).1 ((contains_iff ys t).0 e)))

module _ (ws : ℕ → ℕ) (now : Time) (preferred : Text) where
  Same-pick :
      (m n : List (Text × Account)) (s t : Scan) (xs ys : List Text)
      → SameMap m n
      → refusal s ≡ refusal t
      → IsSorted xs
      → IsSorted ys
      → Same xs ys
      → pick ws now preferred m s xs ≡ pick ws now preferred n t ys
  unfolding pick choose
  Same-pick m n s t [] [] sm r sx sy h = rw r
  Same-pick m n s t [] (y ∷ ys) sm r sx sy h = absurd ((h y).1 (inl refl))
  Same-pick m n s t (x ∷ xs) [] sm r sx sy h = absurd ((h x).0 (inl refl))
  Same-pick m n s t (x ∷ xs) (y ∷ ys) sm r sx sy h =
      rw (Same-contains (x ∷ xs) (y ∷ ys) preferred h, Same-first x y xs ys sx sy h) (rw (sm _))

judge_same :
    (now : Time) (c : Chooser) (n : List (Text × Account)) (criteria : Criteria)
    (excluded : List Text)
    → judge (record c { accounts = n }) criteria excluded now ≡ judge c criteria excluded now
unfolding judge is_stale is_cooling egress_blocked
judge_same now c n criteria excluded = refl

-- The answer does not depend on the order in which the accounts are met. Each list holds every key
-- once, and both hold the same map.
pub acquire_order :
    (ws : ℕ → ℕ) (now : Time) (c : Chooser) (n : List (Text × Account)) (criteria : Criteria)
    (preferred : Text) (excluded : List Text)
    → Distinct c.accounts
    → Distinct n
    → SameMap c.accounts n
    → acquire_preferring ws now (record c { accounts = n }) criteria preferred excluded
      ≡ acquire_preferring ws now c criteria preferred excluded
unfolding acquire_preferring
acquire_order ws now c n criteria preferred excluded dm dn s =
    let v : Text → Account → Verdict = judge c criteria excluded now in
    let same : Same (sort_strings (scan v n).ids) (sort_strings (scan v c.accounts).ids) = (λ t. (
      λ h.
          (Elem-sort_strings t _).1
            (same_ids v n c.accounts t dn (λ k. sym (s k)) ((Elem-sort_strings t _).0 h)),
      λ h. (Elem-sort_strings t _).1 (same_ids v c.accounts n t dm s ((Elem-sort_strings t _).0 h)),
    )) in
    rw (judge_same now c n criteria excluded) (
      Same-pick ws now preferred n c.accounts (scan v n) (scan v c.accounts) _ _ (λ k. sym (s k))
        (same_refusal (scan v n) (scan v c.accounts)
          (same_flag v n c.accounts quota_excluded (inl refl) dn dm (λ k. sym (s k)))
          (same_flag v n c.accounts stale_excluded (inr (inl refl)) dn dm (λ k. sym (s k)))
          (same_flag v n c.accounts egress_excluded (inr (inr refl)) dn dm (λ k. sym (s k))))
        (sort_strings-IsSorted _) (sort_strings-IsSorted _) same)
