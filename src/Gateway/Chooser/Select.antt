-- ===== src/Gateway/Chooser/Select.antt =====
-- internal/gateway/chooser.go: AcquirePreferring and the tests that it makes of an account.
pub mod Eligible
pub mod Candidates
pub mod Outcome
pub mod Refusal
pub mod Order
use gateway_platform.Base.{
  ℕ, ◌-◌, Bool, true, false, not, ◌&&◌, ◌||◌, Option, none, some, List, [], ◌∷◌, ◌==◌, nat_eq,
  list_eq, nat_beq, ltb, leb, if◌then◌else◌, min, is_some, some_and,
}
use gateway_platform.Base.Int.{ℤ, pos, ltb_ℤ}
use gateway_platform.Base.Text.{Text, codes, is_empty}
use gateway_platform.Base.Map.{lookup}
use gateway_platform.Base.Sort.{sort_strings}
use gateway_platform.Contracts.Types.{
  Time, Account, Credential, Criteria, Lease, QuotaItem, QuotaPrecision, Decimal, with_defaults,
}
use gateway_platform.Contracts.Decimal.{sign}
use gateway_platform.Gateway.Chooser.{
  Chooser, cooldown_key, BucketState, cooldown_key_eq, egress_key,
}

unfoldable pub quota_applies : QuotaItem → Text → Bool
quota_applies item model =
    item.scope == codes "account"
    || (item.scope == codes "model" && not (is_empty item.model) && item.model == model)

abbrev is_positive : ℤ → Bool
is_positive n = ltb_ℤ (pos 0) n

-- `if d != nil { if sign, ok := d.Sign(); ok { return sign > 0 } }; rest`
abbrev sign_decides : Option Decimal → Bool → Bool
sign_decides none rest = rest
sign_decides (some d) rest = elim (sign d) [ none ↦ rest | some s ↦ is_positive s ]

abbrev precise_remaining : Option QuotaPrecision → Option Decimal
precise_remaining none = none
precise_remaining (some p) = p.remaining

remaining_positive : Option ℤ → Bool
remaining_positive none = true
remaining_positive (some n) = is_positive n

unfoldable pub quota_remaining_positive : QuotaItem → Bool
unfolding remaining_positive
quota_remaining_positive item = sign_decides item.remaining_exact (
    sign_decides item.remaining_fraction
      (sign_decides (precise_remaining item.precision) (remaining_positive item.remaining)))

-- Whether the provider reported any remainder for the item.
unfoldable pub reports_remaining : QuotaItem → Bool
reports_remaining item =
    is_some item.remaining_exact
    || is_some item.remaining_fraction
    || is_some (precise_remaining item.precision)
    || is_some item.remaining

unfoldable pub has_quota_items : List QuotaItem → Text → Bool
unfolding quota_applies quota_remaining_positive reports_remaining
has_quota_items [] model = true
has_quota_items (item ∷ items) model =
    let rest = has_quota_items items model in
    if not (quota_applies item model) || quota_remaining_positive item
    then rest
    else if reports_remaining item
    then false
    else rest

unfoldable pub has_quota : Account → Text → Bool
unfolding has_quota_items
has_quota account model = has_quota_items account.quota.items model

unfoldable pub contains : List Text → Text → Bool
contains [] s = false
contains (t ∷ ts) s = t == s || contains ts s

unfoldable pub supports : Account → Text → Bool
unfolding contains
supports account model =
    if not (is_empty model) && contains account.excluded_models model
    then false
    else if is_empty model || is_none account.capabilities
    then true
    else contains account.capabilities model
  where
    is_none : List Text → Bool
    is_none [] = true
    is_none (_ ∷ _) = false

-- What the scan makes of one account.
pub data Verdict : Type 0 where
  skipped stale_excluded egress_excluded quota_excluded eligible : Verdict

stale_bucket : Option BucketState → Time → Bool
stale_bucket none now = false
stale_bucket (some b) now = not (nat_beq b.valid_until 0) && leb b.valid_until now

owner_stale : Chooser → Time → Option Text → Bool
unfolding stale_bucket
owner_stale c now none = false
owner_stale c now (some key) = stale_bucket (lookup key c.buckets) now

-- The account's bucket has outlived its refresh.
unfoldable pub is_stale : Chooser → Time → Text → Bool
unfolding owner_stale
is_stale c now id = owner_stale c now (c.owner id)

unfoldable pub platform_differs : Criteria → Account → Bool
platform_differs criteria account =
    not (is_empty criteria.platform)
    && not (account.provider == criteria.platform)
    && not (account.platform == criteria.platform)

unfoldable pub credential_expired : Credential → Time → Bool
credential_expired cred now =
    not (cred.kind == codes "static") && not (nat_beq cred.expires_at 0) && leb cred.expires_at now

unfoldable pub is_cooling : Chooser → Time → Text → Text → Bool
is_cooling c now id model = some_and (λ cd. ltb now cd.until) (c.cooling (cooldown_key id model))

unfoldable pub egress_blocked : Chooser → Time → Account → Bool
egress_blocked c now account =
    some_and (λ until. ltb now until) (c.egress (egress_key account.profile))

-- The body of the loop, up to its `continue` or to the append.
unfoldable pub judge : Chooser → Criteria → List Text → Time → Text → Account → Verdict
judge c criteria excluded now id account =
    if contains excluded id
    then skipped
    else if is_stale c now id
    then stale_excluded
    else if platform_differs criteria account
    then skipped
    else if not (account.group == criteria.group) || not (account.status == codes "active")
    then skipped
    else if credential_expired account.credential now
    then skipped
    else if not (supports account criteria.model)
    then skipped
    else if is_cooling c now id criteria.model
    then skipped
    else if egress_blocked c now account
    then egress_excluded
    else if not (has_quota account criteria.model)
    then quota_excluded
    else eligible

-- The loop's variables.
pub record Scan : Type 0 where
  pub ids : List Text
  pub quota : Bool
  pub stale : Bool
  pub egress : Bool

unfoldable pub note : Verdict → Text → Scan → Scan
note skipped id s = s
note stale_excluded id s = record s { stale = true }
note egress_excluded id s = record s { egress = true }
note quota_excluded id s = record s { quota = true }
note eligible id s = record s { ids = id ∷ s.ids }

abbrev pub empty_scan : Scan
empty_scan = record { ids = []; quota = false; stale = false; egress = false }

-- The loop over the accounts, in the order of the list. The ids are sorted afterwards, so the
-- model gathers them from the far end.
unfoldable pub scan : (Text → Account → Verdict) → List (Text × Account) → Scan
unfolding note
scan verdict [] = empty_scan
scan verdict ((id, account) ∷ rest) = note (verdict id account) id (scan verdict rest)

pub data AcquireError : Type 0 where
  quota_exhausted snapshot_stale egress_refused no_account : AcquireError

pub data Acquired : Type 0 where
  leased : Lease → Acquired
  refused : AcquireError → Acquired

unfoldable pub refusal : Scan → AcquireError
refusal s =
    if s.quota
    then quota_exhausted
    else if s.stale
    then snapshot_stale
    else if s.egress
    then egress_refused
    else no_account

-- The preferred account if it is a candidate, otherwise the first of the sorted ids.
unfoldable pub choose : Text → Text → List Text → Text
unfolding contains
choose preferred first ids =
    if not (is_empty preferred) && contains ids preferred then preferred else first

-- time.Duration saturates; `whole_seconds` is int(d.Seconds()), which goes through float64.
unfoldable pub lease_ttl : (ℕ → ℕ) → Time → Time → ℕ
lease_ttl whole_seconds expires_at now =
    if nat_beq expires_at 0 then 0 else whole_seconds (min (expires_at - now) 9223372036854775807)

unfoldable pub make_lease : (ℕ → ℕ) → Time → Account → Lease
unfolding lease_ttl
make_lease whole_seconds now account = record {
  account_id = account.id;
  provider = account.provider;
  credential = account.credential;
  profile = account.profile;
  limits = with_defaults account.limits;
  ttl = lease_ttl whole_seconds account.credential.expires_at now;
  usage_integrity = account.usage_integrity;
}

lease_of : (ℕ → ℕ) → Time → Option Account → Acquired
unfolding make_lease
lease_of whole_seconds now none = refused no_account
lease_of whole_seconds now (some account) = leased (make_lease whole_seconds now account)

pick : (ℕ → ℕ) → Time → Text → List (Text × Account) → Scan → List Text → Acquired
unfolding lease_of choose refusal
pick whole_seconds now preferred accounts s [] = refused (refusal s)
pick whole_seconds now preferred accounts s (first ∷ rest) =
    lease_of whole_seconds now (lookup (choose preferred first (first ∷ rest)) accounts)

unfoldable pub acquire_preferring :
    (ℕ → ℕ) → Time → Chooser → Criteria → Text → List Text → Acquired
unfolding pick scan judge
acquire_preferring whole_seconds now c criteria preferred excluded =
    let s = scan (judge c criteria excluded now) c.accounts in
    pick whole_seconds now preferred c.accounts s (sort_strings s.ids)

unfoldable pub acquire_excluding : (ℕ → ℕ) → Time → Chooser → Criteria → List Text → Acquired
unfolding acquire_preferring
acquire_excluding whole_seconds now c criteria excluded =
    acquire_preferring whole_seconds now c criteria [] excluded

unfoldable pub acquire : (ℕ → ℕ) → Time → Chooser → Criteria → Acquired
unfolding acquire_excluding
acquire whole_seconds now c criteria = acquire_excluding whole_seconds now c criteria []
