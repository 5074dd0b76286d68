-- ===== src/Gateway/Chooser/Buckets/Replace.antt =====
-- internal/gateway/chooser.go: what ReplaceBucket does to its own bucket and to the others.
use gateway_platform.Base.Map.{put, lookup, lookup-put}
use gateway_platform.Gateway.Chooser.Buckets.{install_all, replace_bucket, put, lookup}
use gateway_platform.Base.Int.{ℤ}
use gateway_platform.Contracts.Types.{Account, Time}
use gateway_platform.Gateway.Chooser.Buckets.Ownership.{
  Inv, Loop, cleared, install_all-Loop, cleared-owner, cleared-Loop, cleared-buckets,
  cleared-lookup,
}
use gateway_platform.Gateway.Chooser.{Chooser, BucketState, Account, ℤ, bucket_key}
use gateway_platform.Base.Text.{Text, text_beq_iff}
use gateway_platform.Base.{
  ◌≡◌, [], inl, inr, some, arith, List, ◌↔◌, ◌≢◌, Bool-cases, ◌∙◌, ◌==◌, ap, sym, nat_eq, list_eq,
  ==→eq, subst, Elem,
}

finish-Inv :
    (key : Text) (c start d : Chooser) (b : BucketState)
    → Inv c
    → ((id k : Text) → (start.owner id ≡ some k) ↔ ((c.owner id ≡ some k) × (k ≢ key)))
    → start.buckets ≡ c.buckets
    → Loop key start d b.ids
    → Inv (record d { buckets = put key b d.buckets })
finish-Inv key c start d b v own same l = record {
  keys = l.keys;
  present = l.present;
  listed = λ id k o. elim (Bool-cases (key == k)) [
    | inl t ↦
        (b, rw (lookup-put key k b d.buckets, t), (l.mine id).1 (o ∙ ap some (sym (==→eq key k t))))
    | inr f ↦
        let k≢key : k ≢ key = ground (arith, text_beq_iff key k) in
        let (b', p, m) = v.listed id k ((own id k).0 ((l.others id k k≢key).0 o)).0 in
        (b', rw (lookup-put key k b d.buckets, f, l.same_buckets, same) p, m)
  ];
  owned = λ id k b' e m. elim (Bool-cases (key == k)) [
    | inl t ↦
        let b≡b' : b ≡ b' = ground (arith, lookup-put key k b d.buckets) in
        (l.mine id).0 (subst (λ (x : BucketState). Elem id x.ids) (sym b≡b') m)
        ∙ ap some (==→eq key k t)
    | inr f ↦
        let k≢key : k ≢ key = ground (arith, text_beq_iff key k) in
        let old : lookup k c.buckets ≡ some b' =
          ground (arith, lookup-put key k b d.buckets, l.same_buckets, same) in
        (l.others id k k≢key).1 ((own id k).1 (v.owned id k b' old m, k≢key))
  ];
}

-- What the loop leaves, before the bucket itself is recorded.
abbrev pub installed : Chooser → Text → Text → List Account → ℤ → Chooser × List Text
installed c platform group accounts epoch =
    let key = bucket_key platform group in
    install_all key platform group accounts (cleared c key epoch, [])

module _ (c : Chooser) (platform group : Text) (accounts : List Account) (epoch : ℤ)
    (valid_until : Time) where
  abbrev key : Text
  key = bucket_key platform group

  abbrev done : Chooser × List Text
  done = installed c platform group accounts epoch

  done-Loop : Inv c → Loop key (cleared c key epoch) done.0 done.1
  done-Loop v =
      install_all-Loop key platform group accounts (cleared c key epoch) (cleared c key epoch, [])
        (cleared-Loop c key epoch v)

  -- Publishing a bucket keeps the tables `accounts`, `owner` and `buckets` in agreement.
  pub replace_bucket-Inv : Inv c → Inv (replace_bucket c platform group accounts epoch valid_until)
  unfolding replace_bucket
  replace_bucket-Inv v =
      finish-Inv key c (cleared c key epoch) done.0
        (record { epoch = epoch; valid_until = valid_until; ids = done.1 }) v
        (λ id k. cleared-owner c key epoch id k v) (cleared-buckets c key epoch) (done-Loop v)

  -- An account that another bucket owns stays with it, as it was, and so does that bucket.
  pub replace_bucket_isolates :
      (id k : Text)
      → Inv c
      → k ≢ key
      → c.owner id ≡ some k
      → let after = replace_bucket c platform group accounts epoch valid_until in
        (after.owner id ≡ some k)
        × (lookup id after.accounts ≡ lookup id c.accounts)
        × (lookup k after.buckets ≡ lookup k c.buckets)
  unfolding replace_bucket
  replace_bucket_isolates id k v n o =
      let l = done-Loop v in
      let kept = (cleared-owner c key epoch id k v).1 (o, n) in
      (
        (l.others id k n).1 kept,
        l.undisturbed id k n kept ∙ cleared-lookup c key epoch id k v o n,
        ground (
          arith,
          lookup-put key k (record { epoch = epoch; valid_until = valid_until; ids = done.1 })
              done.0.buckets,
          text_beq_iff key k,
          l.same_buckets,
          cleared-buckets c key epoch,
        ),
      )
