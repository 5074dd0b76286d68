-- ===== src/Gateway/Chooser/Buckets.antt =====
-- internal/gateway/chooser.go: ReplaceBucket, RemoveBucket, Buckets and ReplaceAtEpoch.
pub mod Ownership
pub mod Replace
use gateway_platform.Base.{
  Bool, false, not, ◌&&◌, ◌||◌, Option, none, some, List, [], ◌∷◌, ◌==◌, nat_eq, list_eq, nat_beq,
  if◌then◌else◌,
}
use gateway_platform.Base.Int.{ℤ, pos, ltb_ℤ, int_eq}
use gateway_platform.Base.Text.{Text}
use gateway_platform.Base.Map.{lookup, put, delete, update, remove, remove_if}
use gateway_platform.Contracts.Types.{Time, Account, with_defaults}
use gateway_platform.Gateway.Chooser.{
  Chooser, CooldownKey, Cooldown, BucketState, cooldown_key_eq, bucket_key,
}
use gateway_platform.Gateway.Chooser.Select.{contains}

-- The two loops over `cooling` delete the key they stop at from both tables.
unfoldable pub drop_cooling : (CooldownKey → Cooldown → Bool) → Chooser → Chooser
drop_cooling drop c = record c {
  cooling = remove_if drop c.cooling;
  failures = λ k. elim (c.cooling k) [
    | none ↦ c.failures k
    | some v ↦ if drop k v then none else c.failures k
  ];
}

-- `for id := range ids { delete(c.accounts, id); delete(c.owner, id) }`
unfoldable pub drop_accounts : List Text → Chooser → Chooser
drop_accounts [] c = c
drop_accounts (id ∷ ids) c =
    drop_accounts ids (record c { accounts = delete id c.accounts; owner = remove c.owner id })

unfoldable pub stale_version : Account → CooldownKey → Cooldown → Bool
stale_version account k v =
    k.account_id == account.id && not (v.credential_version == account.credential.version)

pub with_default_limits : Account → Account
with_default_limits account = record account { limits = with_defaults account.limits }

insert_id : Text → List Text → List Text
insert_id id ids = if contains ids id then ids else id ∷ ids

pub taken_by_other : Option Text → Text → Bool
taken_by_other none key = false
taken_by_other (some owner) key = not (owner == key)

-- What the loop installs for an account that passes its tests.
unfoldable pub install : Text → Account → Chooser × List Text → Chooser × List Text
unfolding drop_cooling stale_version with_default_limits insert_id
install key account (c, ids) = (
  drop_cooling (stale_version account) (record c {
    accounts = put account.id (with_default_limits account) c.accounts;
    owner = update c.owner account.id key;
  }),
  insert_id account.id ids,
)

-- The body of the loop over the published accounts.
unfoldable pub install_step :
    Text → Text → Text → Account → Chooser × List Text → Chooser × List Text
unfolding install taken_by_other
install_step key platform group account s =
    if not (account.platform == platform) || not (account.group == group)
    then s
    else if taken_by_other (s.0.owner account.id) key
    then s
    else install key account s

unfoldable pub install_all :
    Text → Text → Text → List Account → Chooser × List Text → Chooser × List Text
unfolding install_step
install_all key platform group [] s = s
install_all key platform group (account ∷ rest) s =
    install_all key platform group rest (install_step key platform group account s)

abbrev no_bucket : BucketState
no_bucket = record { epoch = pos 0; valid_until = 0; ids = [] }

previous_bucket : Option BucketState → BucketState
previous_bucket none = no_bucket
previous_bucket (some b) = b

unfoldable pub bucket_at : Chooser → Text → BucketState
unfolding previous_bucket
bucket_at c key = previous_bucket (lookup key c.buckets)

-- `existed && epoch > 0 && previous.epoch > 0 && epoch != previous.epoch`
epoch_changed : Option BucketState → ℤ → Bool
epoch_changed none epoch = false
epoch_changed (some previous) epoch =
    ltb_ℤ (pos 0) epoch && ltb_ℤ (pos 0) previous.epoch && not (epoch == previous.epoch)

unfoldable pub clear_changed : Chooser → Text → ℤ → Chooser
unfolding epoch_changed drop_cooling bucket_at contains
clear_changed c key epoch =
    if epoch_changed (lookup key c.buckets) epoch
    then drop_cooling (λ k _. contains (bucket_at c key).ids k.account_id) c
    else c

unfoldable pub replace_bucket : Chooser → Text → Text → List Account → ℤ → Time → Chooser
unfolding clear_changed drop_accounts install_all bucket_key
replace_bucket c platform group accounts epoch valid_until =
    let key = bucket_key platform group in
    let cleared = drop_accounts (bucket_at c key).ids (clear_changed c key epoch) in
    let (installed, ids) = install_all key platform group accounts (cleared, []) in
    record installed {
      buckets =
          put key (record { epoch = epoch; valid_until = valid_until; ids = ids })
            installed.buckets;
    }

unfoldable pub remove_bucket : Chooser → Text → Text → Chooser
unfolding drop_accounts bucket_at bucket_key
remove_bucket c platform group =
    let key = bucket_key platform group in
    let dropped = drop_accounts (bucket_at c key).ids c in
    record dropped { buckets = delete key dropped.buckets }

-- strings.Cut(key, "\x00"), without its third result.
unfoldable pub cut_nul : Text → Text × Text
cut_nul [] = ([], [])
cut_nul (b ∷ s) =
    let (platform, group) = cut_nul s in if nat_beq b 0 then ([], s) else (b ∷ platform, group)

-- `Buckets` before its sort, whose order on ties is not determined.
unfoldable pub bucket_names : List (Text × BucketState) → List (Text × Text)
unfolding cut_nul
bucket_names [] = []
bucket_names ((key, b) ∷ rest) = cut_nul key ∷ bucket_names rest

-- The loop of ReplaceAtEpoch, which fills a new table and clears the cooldowns of other versions.
unfoldable pub load_snapshot : List Account → Chooser → Chooser
unfolding drop_cooling stale_version with_default_limits
load_snapshot [] c = c
load_snapshot (account ∷ rest) c = load_snapshot rest (
    drop_cooling (stale_version account)
      (record c { accounts = put account.id (with_default_limits account) c.accounts }))

unfoldable pub replace_at_epoch : Chooser → List Account → ℤ → Chooser
unfolding load_snapshot
replace_at_epoch c snapshot epoch =
    let forget = ltb_ℤ (pos 0) epoch && ltb_ℤ (pos 0) c.epoch && not (epoch == c.epoch) in
    let start = record c {
      cooling = if forget then (λ _. none) else c.cooling;
      failures = if forget then (λ _. none) else c.failures;
      accounts = [];
      buckets = [];
      owner = λ _. none;
    } in
    let loaded = load_snapshot snapshot start in
    record loaded { epoch = if ltb_ℤ (pos 0) epoch then epoch else c.epoch }

unfoldable pub replace : Chooser → List Account → Chooser
unfolding replace_at_epoch
replace c snapshot = replace_at_epoch c snapshot (pos 0)
