-- ===== src/Gateway/Chooser/Reachable.antt =====
-- internal/gateway/chooser.go: the chooser as a transition system, one step for each method that
-- writes under the lock.
use gateway_platform.Gateway.Chooser.Cooldowns.Egress.{mark_egress-tables}
use gateway_platform.Gateway.Chooser.Select.Eligible.{contains_iff}
use gateway_platform.Base.Int.{ℤ, ltb_ℤ, pos, int_eq}
use gateway_platform.Gateway.Chooser.Cooldowns.Penalty.{mark_failure-Local}
use gateway_platform.Contracts.Types.{Account, Time, ErrorClass, Lease}
use gateway_platform.Gateway.Chooser.Buckets.Replace.{replace_bucket-Inv}
use gateway_platform.Base.Map.{lookup, Distinct, put-Distinct, lookup-delete}
use gateway_platform.Gateway.Chooser.Buckets.Ownership.{
  Inv, drop-owner, Elem-bucket_at, drop-Distinct, drop-lookup, drop-buckets,
}
use gateway_platform.Base.Text.{Text, text_beq_iff}
use gateway_platform.Gateway.Chooser.Cooldowns.{mark_egress_rejected, clear_account, mark_failure}
use gateway_platform.Gateway.Chooser.Buckets.{
  remove_bucket, load_snapshot, replace_at_epoch, drop_cooling, bucket_at, drop_accounts,
  replace_bucket, with_default_limits,
}
use gateway_platform.Gateway.Chooser.{Chooser, new_chooser, Text, bucket_key, Account, ℤ}
use gateway_platform.Base.{
  ◌≡◌, refl, arith, some, none, [], ◌∷◌, List, ◌≢◌, if◌then◌else◌, Option, nat_eq, list_eq, ℕ, ◌&&◌,
  not, ◌==◌, ap,
}

pub data Step (c : Chooser) : Chooser → Type 0 where
  publish :
      (platform group : Text) (accounts : List Account) (epoch : ℤ) (valid_until : Time)
      → Step c (replace_bucket c platform group accounts epoch valid_until)
  withdraw : (platform group : Text) → Step c (remove_bucket c platform group)
  snapshot : (accounts : List Account) (epoch : ℤ) → Step c (replace_at_epoch c accounts epoch)
  fail :
      (raw : Option ℕ) (now : Time) (id model : Text) (class : ErrorClass) (reset : ℤ)
      → Step c (mark_failure raw now c id model class reset)
  reject_path :
      (raw : Option ℕ) (now : Time) (l : Lease) → Step c (mark_egress_rejected raw now c l).0
  clear : (id : Text) (version : ℤ) → Step c (clear_account c id version)

pub data Reach : Chooser → Type 0 where
  start : Reach new_chooser
  next : {c d : Chooser} → Reach c → Step c d → Reach d

same_tables-Inv :
    (c d : Chooser)
    → d.accounts ≡ c.accounts
    → d.buckets ≡ c.buckets
    → d.owner ≡ c.owner
    → Inv c
    → Inv d
same_tables-Inv c d p q r v = record {
  keys = rw p v.keys;
  present = λ id key o. let (a, e) = v.present id key (rw (← r) o) in (a, rw p e);
  listed = λ id key o. let (b, e, m) = v.listed id key (rw (← r) o) in (b, rw q e, m);
  owned = λ id key b e m. rw r (v.owned id key b (rw (← q) e) m);
}

new-Inv : Inv new_chooser
unfolding new_chooser lookup
new-Inv = record {
  keys = tt;
  present = λ id key o. absurd (cc);
  listed = λ id key o. absurd (cc);
  owned = λ id key b e m. absurd (cc);
}

remove_bucket-Inv :
    (c : Chooser) (platform group : Text) → Inv c → Inv (remove_bucket c platform group)
unfolding remove_bucket
remove_bucket-Inv c platform group v = record {
  keys = drop-Distinct ids c v.keys;
  present = λ id k o.
      let (o', n) = left id k o in
      let (a, e) = v.present id k o' in
      (
        a,
        ground
            (arith, drop-lookup ids c id, contains_iff ids id, Elem-bucket_at c key id v, e, n, o'),
      );
  listed = λ id k o.
      let (o', n) = left id k o in
      let (b, e, m) = v.listed id k o' in
      (
        b,
        ground (
          arith,
          lookup-delete key k (drop_accounts ids c).buckets,
          drop-buckets ids c,
          text_beq_iff key k,
          e,
          n,
        ),
        m,
      );
  owned = λ id k b e m.
      let old : (k ≢ key) × (lookup k c.buckets ≡ some b) = ground (
        arith,
        lookup-delete key k (drop_accounts ids c).buckets,
        drop-buckets ids c,
        text_beq_iff key k,
        e,
      ) in
      let o = v.owned id k b old.1 m in
      ground (arith, drop-owner ids c id, contains_iff ids id, Elem-bucket_at c key id v, o, old.0);
}
  where
    key : Text
    key = bucket_key platform group

    ids : List Text
    ids = (bucket_at c key).ids

    left :
        (id k : Text) → (drop_accounts ids c).owner id ≡ some k → (c.owner id ≡ some k) × (k ≢ key)
    left id k o =
        ground (arith, drop-owner ids c id, contains_iff ids id, Elem-bucket_at c key id v)

load-Inv :
    (accounts : List Account) (c : Chooser)
    → Distinct c.accounts
    → Distinct (load_snapshot accounts c).accounts
      × ((load_snapshot accounts c).owner ≡ c.owner)
      × ((load_snapshot accounts c).buckets ≡ c.buckets)
unfolding load_snapshot drop_cooling
load-Inv [] c d = (d, refl, refl)
load-Inv (a ∷ rest) c d = load-Inv rest _ (put-Distinct a.id (with_default_limits a) c.accounts d)

replace_at_epoch-Inv :
    (c : Chooser) (accounts : List Account) (epoch : ℤ) → Inv (replace_at_epoch c accounts epoch)
unfolding replace_at_epoch lookup
replace_at_epoch-Inv c accounts epoch =
    let (d, o, b) =
      load-Inv accounts
        (record c {
          cooling =
              if ltb_ℤ (pos 0) epoch && ltb_ℤ (pos 0) c.epoch && not (epoch == c.epoch)
              then (λ _. none)
              else c.cooling;
          failures =
              if ltb_ℤ (pos 0) epoch && ltb_ℤ (pos 0) c.epoch && not (epoch == c.epoch)
              then (λ _. none)
              else c.failures;
          accounts = [];
          buckets = [];
          owner = λ _. none;
        })
        tt in
    record {
      keys = d;
      present = λ id key e. absurd (cc (ap (λ f. f id) o));
      listed = λ id key e. absurd (cc (ap (λ f. f id) o));
      owned = λ id key b' e m. absurd (cc (ap (λ m. lookup key m) b));
    }

Step-Inv : {c d : Chooser} → Step c d → Inv c → Inv d
Step-Inv {c} (publish platform group accounts epoch valid_until) v =
    replace_bucket-Inv c platform group accounts epoch valid_until v
Step-Inv {c} (withdraw platform group) v = remove_bucket-Inv c platform group v
Step-Inv {c} (snapshot accounts epoch) v = replace_at_epoch-Inv c accounts epoch
Step-Inv {c} (fail raw now id model class reset) v =
    let l = (mark_failure-Local raw now c id model class reset).0 in
    same_tables-Inv c _ l.accounts l.buckets l.owner v
Step-Inv {c} (reject_path raw now l) v =
    let (a, b, o) = mark_egress-tables raw now c l in same_tables-Inv c _ a b o v
Step-Inv {c} (clear id version) v =
    same_tables-Inv c _ (unfold clear_account in refl) (unfold clear_account in refl)
      (unfold clear_account in refl) v

-- Whatever snapshots are published, withdrawn and replaced and whatever failures are reported, the
-- accounts table keeps its keys distinct, every owned account is in it and in the list of the bucket
-- that owns it, and every account that a bucket lists is owned by that bucket.
pub Reach-Inv : {c : Chooser} → Reach c → Inv c
Reach-Inv start = new-Inv
Reach-Inv (next r s) = Step-Inv s (Reach-Inv r)
