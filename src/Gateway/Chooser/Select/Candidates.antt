-- ===== src/Gateway/Chooser/Select/Candidates.antt =====
-- internal/gateway/chooser.go: what the scan over the accounts gathers.
use gateway_platform.Base.{
  ◌≡◌, refl, subst, ◌⊎◌, inl, inr, true, List, [], ◌∷◌, arith, nat_eq, list_eq, Elem, Bool, false,
}
use gateway_platform.Base.Text.{Text}
use gateway_platform.Base.Map.{Entry}
use gateway_platform.Contracts.Types.{Account}
use gateway_platform.Gateway.Chooser.Select.{
  Verdict, quota_excluded, eligible, Scan, note, scan, stale_excluded, egress_excluded,
}

-- The flag that a verdict sets.
abbrev pub raised : Verdict → Scan → Bool
raised quota_excluded s = s.quota
raised stale_excluded s = s.stale
raised egress_excluded s = s.egress
raised _ s = false

abbrev pub IsFlag : Verdict → Type 0
IsFlag w = (w ≡ quota_excluded) ⊎ (w ≡ stale_excluded) ⊎ (w ≡ egress_excluded)

raise : (w : Verdict) → IsFlag w → (j : Text) (s : Scan) → raised w (note w j s) ≡ true
unfolding note
raise w f j s = ground arith

module _ (v : Text → Account → Verdict) where
  -- An account of the list with this verdict.
  abbrev pub Judged : Verdict → Text → List (Text × Account) → Type 0
  Judged w id m = (account : Account) × Entry id account m × (v id account ≡ w)

  ids_step :
      (w : Verdict) (j id : Text) (s : Scan)
      → Elem id (note w j s).ids
      → ((w ≡ eligible) × (j ≡ id)) ⊎ Elem id s.ids
  unfolding note
  ids_step w j id s h = ground arith

  pub Elem-ids :
      (id : Text) (m : List (Text × Account)) → Elem id (scan v m).ids → Judged eligible id m
  unfolding scan
  Elem-ids id [] h = elim h [ ]
  Elem-ids id ((j, a) ∷ m) h = elim (ids_step (v j a) j id (scan v m) h) [
    | inl (p, q) ↦ (a, inl (q, refl), subst (λ k. v k a ≡ eligible) q p)
    | inr r ↦ let (b, e, w) = Elem-ids id m r in (b, inr e, w)
  ]

  pub ids-Elem :
      (id : Text) (m : List (Text × Account)) → Judged eligible id m → Elem id (scan v m).ids
  unfolding scan note
  ids-Elem id [] (a, h, w) = elim h [ ]
  ids-Elem id ((j, b) ∷ m) (a, inl (p, q), w) = let w' : v j b ≡ eligible = cc in rw w' (inl p)
  ids-Elem id ((j, b) ∷ m) (a, inr h, w) = ground (arith, ids-Elem id m (a, h, w))

  raised_step :
      (w x : Verdict) (j : Text) (s : Scan)
      → raised w (note x j s) ≡ true
      → (x ≡ w) ⊎ (raised w s ≡ true)
  unfolding note
  raised_step w x j s h = ground arith

  raised_keep :
      (w x : Verdict) (j : Text) (s : Scan) → raised w s ≡ true → raised w (note x j s) ≡ true
  unfolding note
  raised_keep w x j s h = ground arith

  pub raised-Judged :
      (w : Verdict) (m : List (Text × Account))
      → raised w (scan v m) ≡ true
      → (id : Text) × Judged w id m
  unfolding scan
  raised-Judged w [] h = absurd (ground arith)
  raised-Judged w ((j, a) ∷ m) h = elim (raised_step w (v j a) j (scan v m) h) [
    | inl p ↦ (j, (a, inl (refl, refl), p))
    | inr r ↦ let (id, (b, e, q)) = raised-Judged w m r in (id, (b, inr e, q))
  ]

  pub Judged-raised :
      (w : Verdict) (id : Text) (m : List (Text × Account))
      → IsFlag w
      → Judged w id m
      → raised w (scan v m) ≡ true
  unfolding scan
  Judged-raised w id [] f (a, h, q) = elim h [ ]
  Judged-raised w id ((j, b) ∷ m) f (a, inl (p, q), r) =
      let r' : v j b ≡ w = cc in rw r' (raise w f j (scan v m))
  Judged-raised w id ((j, b) ∷ m) f (a, inr h, r) =
      raised_keep w (v j b) j (scan v m) (Judged-raised w id m f (a, h, r))
