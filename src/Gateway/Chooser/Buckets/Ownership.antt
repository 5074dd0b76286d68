-- ===== src/Gateway/Chooser/Buckets/Ownership.antt =====
-- internal/gateway/chooser.go: the tables `accounts`, `owner` and `buckets` agree with one another.
use gateway_platform.Base.Int.{ℤ}
use gateway_platform.Gateway.Chooser.Select.Eligible.{contains_iff}
use gateway_platform.Contracts.Types.{Account}
use gateway_platform.Gateway.Chooser.Select.{contains}
use gateway_platform.Base.Map.{
  Distinct, lookup, delete-Distinct, delete, remove, put-Distinct, lookup-delete, lookup-put,
}
use gateway_platform.Base.Text.{Text, text_beq_iff}
use gateway_platform.Gateway.Chooser.Buckets.{
  drop_accounts, install, contains, drop_cooling, insert_id, taken_by_other, install_all,
  with_default_limits, install_step, bucket_at, clear_changed, previous_bucket,
}
use gateway_platform.Gateway.Chooser.{Chooser, Account, BucketState, ℤ}
use gateway_platform.Base.{
  ◌≡◌, refl, [], ◌∷◌, false, inl, inr, none, some, arith, List, Elem, nat_eq, list_eq, ◌↔◌, ◌≢◌,
  Option, Bool-cases, if◌then◌else◌, ◌⊎◌, ◌==◌, subst, sym, ◌∙◌, Option-cases,
}

pub record Inv (c : Chooser) : Type 0 where
  -- A key of the accounts table stands in it once.
  pub keys : Distinct c.accounts
  -- An owned account is in the table, and in the list of the bucket that owns it.
  pub present :
      (id key : Text) → c.owner id ≡ some key → (a : Account) × (lookup id c.accounts ≡ some a)
  pub listed :
      (id key : Text)
      → c.owner id ≡ some key
      → (b : BucketState) × (lookup key c.buckets ≡ some b) × Elem id b.ids
  -- What a bucket lists, it owns.
  pub owned :
      (id key : Text) (b : BucketState)
      → lookup key c.buckets ≡ some b
      → Elem id b.ids
      → c.owner id ≡ some key

pub drop-owner :
    (ids : List Text) (c : Chooser) (id : Text)
    → (drop_accounts ids c).owner id ≡ (if contains ids id then none else c.owner id)
unfolding drop_accounts contains
drop-owner [] c id = refl
drop-owner (j ∷ ids) c id = ground (
  arith,
  drop-owner ids (record c { accounts = delete j c.accounts; owner = remove c.owner j }) id,
  text_beq_iff j id,
  text_beq_iff id j,
)

pub drop-lookup :
    (ids : List Text) (c : Chooser) (id : Text)
    → lookup id (drop_accounts ids c).accounts
      ≡ (if contains ids id then none else lookup id c.accounts)
unfolding drop_accounts contains
drop-lookup [] c id = refl
drop-lookup (j ∷ ids) c id = ground (
  arith,
  drop-lookup ids (record c { accounts = delete j c.accounts; owner = remove c.owner j }) id,
  lookup-delete j id c.accounts,
)

pub drop-Distinct :
    (ids : List Text) (c : Chooser) → Distinct c.accounts → Distinct (drop_accounts ids c).accounts
unfolding drop_accounts
drop-Distinct [] c d = d
drop-Distinct (j ∷ ids) c d = drop-Distinct ids _ (delete-Distinct j c.accounts d)

pub drop-buckets : (ids : List Text) (c : Chooser) → (drop_accounts ids c).buckets ≡ c.buckets
unfolding drop_accounts
drop-buckets [] c = refl
drop-buckets (j ∷ ids) c =
    drop-buckets ids (record c { accounts = delete j c.accounts; owner = remove c.owner j })

-- The loop that installs a bucket: `ids` lists what the key owns, and the other buckets are as they were.
pub record Loop (key : Text) (start : Chooser) (c : Chooser) (ids : List Text) : Type 0 where
  pub keys : Distinct c.accounts
  pub present :
      (id k : Text) → c.owner id ≡ some k → (a : Account) × (lookup id c.accounts ≡ some a)
  pub mine : (id : Text) → (Elem id ids) ↔ (c.owner id ≡ some key)
  pub others : (id k : Text) → k ≢ key → (c.owner id ≡ some k) ↔ (start.owner id ≡ some k)
  pub same_buckets : c.buckets ≡ start.buckets
  pub undisturbed :
      (id k : Text)
      → k ≢ key
      → start.owner id ≡ some k
      → lookup id c.accounts ≡ lookup id start.accounts

free_cases :
    (o : Option Text) (key : Text) → taken_by_other o key ≡ false → (o ≡ none) ⊎ (o ≡ some key)
unfolding taken_by_other
free_cases none key h = inl refl
free_cases (some k) key h = inr (ground (arith, text_beq_iff k key))

pub install-Loop :
    (key : Text) (a : Account) (start c : Chooser) (ids : List Text)
    → taken_by_other (c.owner a.id) key ≡ false
    → Loop key start c ids
    → let (c', ids') = install key a (c, ids) in Loop key start c' ids'
unfolding install drop_cooling insert_id taken_by_other
install-Loop key a start c ids free l = record {
  keys = put-Distinct a.id _ c.accounts l.keys;
  present = λ id k e. elim (Bool-cases (a.id == id)) [
    | inl t ↦ (with_default_limits a, rw (lookup-put a.id id (with_default_limits a) c.accounts, t))
    | inr f ↦
        let e' : c.owner id ≡ some k = ground (arith, text_beq_iff a.id id, text_beq_iff id a.id) in
        let (b, p) = l.present id k e' in
        (b, rw (lookup-put a.id id (with_default_limits a) c.accounts, f) p)
  ];
  mine = λ id. ground (
    arith,
    l.mine id,
    l.mine a.id,
    text_beq_iff id a.id,
    contains_iff ids a.id,
    free_cases (c.owner a.id) key free,
  );
  others = λ id k n.
      ground (arith, l.others id k n, text_beq_iff id a.id, free_cases (c.owner a.id) key free);
  same_buckets = l.same_buckets;
  undisturbed = λ id k n e. ground (
    arith,
    l.undisturbed id k n e,
    l.others id k n,
    lookup-put a.id id (with_default_limits a) c.accounts,
    text_beq_iff a.id id,
    free_cases (c.owner a.id) key free,
  );
}

abbrev pub LoopAt : Text → Chooser → Chooser × List Text → Type 0
LoopAt key start s = Loop key start s.0 s.1

-- The loop's body skips the account, or installs one that is for this bucket and free.
pub install_step_cases :
    (key platform group : Text) (a : Account) (s : Chooser × List Text)
    → (install_step key platform group a s ≡ s)
      ⊎ ((install_step key platform group a s ≡ install key a s)
          × (taken_by_other (s.0.owner a.id) key ≡ false)
          × (a.platform ≡ platform)
          × (a.group ≡ group))
unfolding install_step
install_step_cases key platform group a s =
    ground (arith, text_beq_iff a.platform platform, text_beq_iff a.group group)

pub install_step-Loop :
    (key platform group : Text) (a : Account) (start : Chooser) (s : Chooser × List Text)
    → LoopAt key start s
    → LoopAt key start (install_step key platform group a s)
install_step-Loop key platform group a start s l =
    elim (install_step_cases key platform group a s) [
      | inl e ↦ subst (LoopAt key start) (sym e) l
      | inr (e, free, _, _) ↦
          subst (LoopAt key start) (sym e) (install-Loop key a start s.0 s.1 free l)
    ]

pub install_all-Loop :
    (key platform group : Text) (accounts : List Account) (start : Chooser)
    (s : Chooser × List Text)
    → LoopAt key start s
    → LoopAt key start (install_all key platform group accounts s)
unfolding install_all
install_all-Loop key platform group [] start s l = l
install_all-Loop key platform group (a ∷ rest) start s l =
    install_all-Loop key platform group rest start (install_step key platform group a s)
      (install_step-Loop key platform group a start s l)

clear_changed-tables :
    (c : Chooser) (key : Text) (epoch : ℤ)
    → ((clear_changed c key epoch).accounts ≡ c.accounts)
      × ((clear_changed c key epoch).owner ≡ c.owner)
      × ((clear_changed c key epoch).buckets ≡ c.buckets)
unfolding clear_changed drop_cooling
clear_changed-tables c key epoch = ground arith

pub Elem-bucket_at :
    (c : Chooser) (key id : Text) → Inv c → Elem id (bucket_at c key).ids ↔ (c.owner id ≡ some key)
unfolding bucket_at previous_bucket
Elem-bucket_at c key id v = (to_owner, from_owner)
  where
    to_owner : Elem id (bucket_at c key).ids → c.owner id ≡ some key
    to_owner m = elim (Option-cases (lookup key c.buckets)) [
      | inl e ↦ absurd (ground arith)
      | inr (b, e) ↦ v.owned id key b e (ground arith)
    ]

    from_owner : c.owner id ≡ some key → Elem id (bucket_at c key).ids
    from_owner o = let (b, e, m) = v.listed id key o in ground arith

-- The tables once the bucket's old accounts are gone.
abbrev pub cleared : Chooser → Text → ℤ → Chooser
cleared c key epoch = drop_accounts (bucket_at c key).ids (clear_changed c key epoch)

-- What `cleared` leaves owned is what other buckets own.
pub cleared-owner :
    (c : Chooser) (key : Text) (epoch : ℤ) (id k : Text)
    → Inv c
    → ((cleared c key epoch).owner id ≡ some k) ↔ ((c.owner id ≡ some k) × (k ≢ key))
cleared-owner c key epoch id k v = ground (
  arith,
  drop-owner (bucket_at c key).ids (clear_changed c key epoch) id,
  clear_changed-tables c key epoch,
  contains_iff (bucket_at c key).ids id,
  Elem-bucket_at c key id v,
)

pub cleared-lookup :
    (c : Chooser) (key : Text) (epoch : ℤ) (id k : Text)
    → Inv c
    → c.owner id ≡ some k
    → k ≢ key
    → lookup id (cleared c key epoch).accounts ≡ lookup id c.accounts
cleared-lookup c key epoch id k v o n = ground (
  arith,
  drop-lookup (bucket_at c key).ids (clear_changed c key epoch) id,
  clear_changed-tables c key epoch,
  contains_iff (bucket_at c key).ids id,
  Elem-bucket_at c key id v,
)

pub cleared-buckets :
    (c : Chooser) (key : Text) (epoch : ℤ) → (cleared c key epoch).buckets ≡ c.buckets
cleared-buckets c key epoch =
    drop-buckets (bucket_at c key).ids (clear_changed c key epoch)
    ∙ (clear_changed-tables c key epoch).2

pub cleared-Loop :
    (c : Chooser) (key : Text) (epoch : ℤ)
    → Inv c
    → Loop key (cleared c key epoch) (cleared c key epoch) []
cleared-Loop c key epoch v = record {
  keys =
      drop-Distinct (bucket_at c key).ids (clear_changed c key epoch)
        (rw (clear_changed-tables c key epoch).0 v.keys);
  present = λ id k o.
      let (o', n) = (cleared-owner c key epoch id k v).0 o in
      let (a, p) = v.present id k o' in (a, cleared-lookup c key epoch id k v o' n ∙ p);
  mine = λ id. (λ h. elim h [ ], λ o. absurd (((cleared-owner c key epoch id key v).0 o).1 refl));
  others = λ id k n. (λ h. h, λ h. h);
  same_buckets = refl;
  undisturbed = λ id k n h. refl;
}
