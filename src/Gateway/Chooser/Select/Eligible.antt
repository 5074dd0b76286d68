-- ===== src/Gateway/Chooser/Select/Eligible.antt =====
-- internal/gateway/chooser.go: what makes an account a candidate, said without the code's tests.
use gateway_platform.Base.{
  ◌<◌, ◌≤◌, ◌≡◌, refl, ◌↔◌, ◌⊎◌, inl, inr, true, false, some, List, [], ◌∷◌, arith, ltb,
  some_and-false, Option-cases, ◌==◌, nat_eq, list_eq, Elem, All,
}
use gateway_platform.Base.Text.{Text, codes, text_beq_iff}
use gateway_platform.Base.Map.{lookup}
use gateway_platform.Contracts.Types.{Time, Account, Credential, Criteria, QuotaItem}
use gateway_platform.Gateway.Chooser.{Chooser, BucketState, Cooldown, cooldown_key, egress_key}
use gateway_platform.Gateway.Chooser.Select.{
  contains, supports, is_stale, platform_differs, credential_expired, is_cooling, egress_blocked,
  has_quota, has_quota_items, quota_applies, quota_remaining_positive, reports_remaining, judge,
  eligible,
}

pub contains_iff : (ts : List Text) (s : Text) → (contains ts s ≡ true) ↔ Elem s ts
unfolding contains
contains_iff [] s = (λ h. cc, λ h. elim h [ ])
contains_iff (t ∷ ts) s = ground (arith, text_beq_iff t s, contains_iff ts s)

-- The model is not excluded, and is listed where the account lists any.
abbrev pub Supports : Account → Text → Type 0
Supports account model =
    (model ≡ [])
    ⊎ ((¬ Elem model account.excluded_models)
        × ((account.capabilities ≡ []) ⊎ Elem model account.capabilities))

supports_iff :
    (account : Account) (model : Text) → (supports account model ≡ true) ↔ Supports account model
unfolding supports
supports_iff account model =
    ground
      (arith, contains_iff account.excluded_models model, contains_iff account.capabilities model)

-- Every item on the model or the account that reports a remainder has one left.
abbrev pub HasQuota : List QuotaItem → Text → Type 0
HasQuota items model =
    All
      (λ item.
        quota_applies item model ≡ true
        → reports_remaining item ≡ true
        → quota_remaining_positive item ≡ true)
      items

pub has_quota_items_iff :
    (items : List QuotaItem) (model : Text)
    → (has_quota_items items model ≡ true) ↔ HasQuota items model
unfolding has_quota_items
has_quota_items_iff [] model = (λ _. tt, λ _. refl)
has_quota_items_iff (item ∷ items) model = ground (arith, has_quota_items_iff items model)

-- The bucket that owns the account, if one does, has no freshness bound or is within it.
abbrev pub IsFresh : Chooser → Time → Text → Type 0
IsFresh c now id =
    (key : Text) (b : BucketState)
    → c.owner id ≡ some key
    → lookup key c.buckets ≡ some b
    → (b.valid_until ≡ 0) ⊎ (now < b.valid_until)

IsFresh-iff :
    (c : Chooser) (now : Time) (id : Text) → (is_stale c now id ≡ false) ↔ IsFresh c now id
unfolding is_stale
IsFresh-iff c now id = (λ h key b p q. ground arith, from_fresh)
  where
    from_fresh : IsFresh c now id → is_stale c now id ≡ false
    from_fresh h = elim (Option-cases (c.owner id)) [
      | inl e ↦ ground arith
      | inr (key, e) ↦ elim (Option-cases (lookup key c.buckets)) [
        | inl f ↦ ground arith
        | inr (b, f) ↦ ground (arith, h key b e f)
      ]
    ]

-- The request names no platform, or the account's provider or its platform.
abbrev pub OnPlatform : Criteria → Account → Type 0
OnPlatform criteria account =
    (criteria.platform ≡ [])
    ⊎ (account.provider ≡ criteria.platform)
    ⊎ (account.platform ≡ criteria.platform)

platform_iff :
    (criteria : Criteria) (account : Account)
    → (platform_differs criteria account ≡ false) ↔ OnPlatform criteria account
unfolding platform_differs
platform_iff criteria account = ground (
  arith,
  text_beq_iff account.provider criteria.platform,
  text_beq_iff account.platform criteria.platform,
)

-- The credential is static, has no expiry, or has not reached it.
abbrev pub IsUnexpired : Credential → Time → Type 0
IsUnexpired cred now =
    (cred.kind ≡ codes "static") ⊎ (cred.expires_at ≡ 0) ⊎ (now < cred.expires_at)

IsUnexpired-iff :
    (cred : Credential) (now : Time) → (credential_expired cred now ≡ false) ↔ IsUnexpired cred now
unfolding credential_expired
IsUnexpired-iff cred now = ground (arith, text_beq_iff cred.kind (codes "static"))

-- No cooldown of the account for the model reaches past this instant.
abbrev pub NotCooling : Chooser → Time → Text → Text → Type 0
NotCooling c now id model =
    (cd : Cooldown) → c.cooling (cooldown_key id model) ≡ some cd → cd.until ≤ now

NotCooling-iff :
    (c : Chooser) (now : Time) (id model : Text)
    → (is_cooling c now id model ≡ false) ↔ NotCooling c now id model
unfolding is_cooling
NotCooling-iff c now id model =
    let both = some_and-false (λ cd. ltb now cd.until) (c.cooling (cooldown_key id model)) in
    (λ h cd e. ground (arith, both.0 h cd e), λ h. both.1 (λ cd e. ground (arith, h cd e)))

-- The path that the account dials through is not short-circuited past this instant.
abbrev pub EgressOpen : Chooser → Time → Account → Type 0
EgressOpen c now account =
    (until : Time) → c.egress (egress_key account.profile) ≡ some until → until ≤ now

egress_iff :
    (c : Chooser) (now : Time) (account : Account)
    → (egress_blocked c now account ≡ false) ↔ EgressOpen c now account
unfolding egress_blocked
egress_iff c now account =
    let both = some_and-false (λ until. ltb now until) (c.egress (egress_key account.profile)) in
    (λ h t e. ground (arith, both.0 h t e), λ h. both.1 (λ t e. ground (arith, h t e)))

-- What the scan asks of an account for the request.
pub record Eligible (c : Chooser) (criteria : Criteria) (excluded : List Text) (now : Time)
    (id : Text) (account : Account) : Type 0 where
  pub not_excluded : ¬ Elem id excluded
  pub fresh : IsFresh c now id
  pub platform : OnPlatform criteria account
  pub group : account.group ≡ criteria.group
  pub active : account.status ≡ codes "active"
  pub unexpired : IsUnexpired account.credential now
  pub supported : Supports account criteria.model
  pub not_cooling : NotCooling c now id criteria.model
  pub egress_open : EgressOpen c now account
  pub quota : HasQuota account.quota.items criteria.model

module _ (c : Chooser) (criteria : Criteria) (excluded : List Text) (now : Time) (id : Text)
    (account : Account) where
  abbrev Tests : Type 0
  Tests =
      (contains excluded id ≡ false)
      × (is_stale c now id ≡ false)
      × (platform_differs criteria account ≡ false)
      × ((account.group == criteria.group) ≡ true)
      × ((account.status == codes "active") ≡ true)
      × (credential_expired account.credential now ≡ false)
      × (supports account criteria.model ≡ true)
      × (is_cooling c now id criteria.model ≡ false)
      × (egress_blocked c now account ≡ false)
      × (has_quota account criteria.model ≡ true)

  judge-Tests : (judge c criteria excluded now id account ≡ eligible) ↔ Tests
  unfolding judge
  judge-Tests = ground arith

  -- The scan takes exactly the eligible accounts.
  pub judge_iff :
      (judge c criteria excluded now id account ≡ eligible)
      ↔ Eligible c criteria excluded now id account
  unfolding has_quota
  judge_iff = (λ h. of_Tests (judge-Tests.0 h), λ h. judge-Tests.1 (to_Tests h))
    where
      not_elem : contains excluded id ≡ false → ¬ Elem id excluded
      not_elem h m = ground (arith, contains_iff excluded id)

      of_Tests : Tests → Eligible c criteria excluded now id account
      of_Tests t = record {
        not_excluded = not_elem t.0;
        fresh = (IsFresh-iff c now id).0 t.1;
        platform = (platform_iff criteria account).0 t.2;
        group = (text_beq_iff _ _).0 t.3;
        active = (text_beq_iff _ _).0 t.4;
        unexpired = (IsUnexpired-iff account.credential now).0 t.5;
        supported = (supports_iff account criteria.model).0 t.6;
        not_cooling = (NotCooling-iff c now id criteria.model).0 t.7;
        egress_open = (egress_iff c now account).0 t.8;
        quota = (has_quota_items_iff account.quota.items criteria.model).0 t.9;
      }

      to_Tests : Eligible c criteria excluded now id account → Tests
      to_Tests e = (
        ground (arith, contains_iff excluded id, e.not_excluded),
        (IsFresh-iff c now id).1 e.fresh,
        (platform_iff criteria account).1 e.platform,
        (text_beq_iff _ _).1 e.group,
        (text_beq_iff _ _).1 e.active,
        (IsUnexpired-iff account.credential now).1 e.unexpired,
        (supports_iff account criteria.model).1 e.supported,
        (NotCooling-iff c now id criteria.model).1 e.not_cooling,
        (egress_iff c now account).1 e.egress_open,
        (has_quota_items_iff account.quota.items criteria.model).1 e.quota,
      )
