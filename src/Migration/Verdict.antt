-- ===== src/Migration/Verdict.antt =====
-- A token that is planned, and the source token and the tenant that it is made from.
use gateway_platform.Migration.Statuses.{map_token_status-active}
use gateway_platform.Contracts.Types.{Time}
use gateway_platform.Base.Int.{leb_ℤ, pos}
use gateway_platform.Base.Text.{Text, is_blank, codes, trim_space}
use gateway_platform.Migration.Records.{Planning}
use gateway_platform.Migration.Tokens.{
  planned_token, judge_token, with_expiry, with_token_status, with_tenant, token_group,
}
use gateway_platform.Migration.Types.{SourceToken, PlannedTenant, PlannedTenantToken}
use gateway_platform.Migration.Conversion.{
  Library, source_name, bearer_form, map_token_status, parse_token_expiry, imported_tenant_token_id,
}
use gateway_platform.Base.{
  none, some, inl, inr, Bool-cases, Option, ◌⊎◌, ◌≡◌, false, refl, get_or, [], subst, ap, sym, ◌∙◌,
}

module _ (library : Library) where
  -- The token authenticates what the source token did, for its user's tenant, and is active only if the
  -- source token is enabled.
  pub record MadeFrom (token : SourceToken) (tenant : PlannedTenant) (t : PlannedTenantToken)
      : Type 0 where
    pub source_id : t.source_id ≡ source_name (codes "token:") token.token_id
    pub same_tenant : t.tenant_id ≡ tenant.tenant_id
    pub same_principal : t.principal_id ≡ tenant.principal_id
    pub hash : t.token_hash ≡ library.hash_token (bearer_form (trim_space token.key))
    pub has_key : is_blank token.key ≡ false
    pub enabled : t.status ≡ codes "active" → token.status ≡ pos 1
    pub expiry : parse_token_expiry library.quoted token.expired_time ≡ inr t.expires_at

  planned_token-MadeFrom :
      (system : Text) (token : SourceToken) (tenant : PlannedTenant) (group status : Text)
      (expires_at : Option Time)
      → is_blank token.key ≡ false
      → map_token_status token.status ≡ inr status
      → parse_token_expiry library.quoted token.expired_time ≡ inr expires_at
      → MadeFrom token tenant (planned_token library system token tenant group status expires_at)
  unfolding planned_token
  planned_token-MadeFrom system token tenant group status expires_at b m x = record {
    source_id = refl;
    same_tenant = refl;
    same_principal = refl;
    hash = refl;
    has_key = b;
    enabled = map_token_status-active token.status status m;
    expiry = x;
  }

  planned_token-token_id :
      (system : Text) (token : SourceToken) (tenant : PlannedTenant) (group status : Text)
      (expires_at : Option Time)
      → (planned_token library system token tenant group status expires_at).token_id
        ≡ imported_tenant_token_id library system (source_name (codes "token:") token.token_id)
  unfolding planned_token
  planned_token-token_id system token tenant group status expires_at = refl

  -- The verdict plans a token of a tenant that the user has, under the id that the token's source gives it.
  abbrev pub Planned : Planning → SourceToken → Text ⊎ PlannedTenantToken → Type 0
  Planned s token r =
      (t : PlannedTenantToken)
      → r ≡ inr t
      → (tenant : PlannedTenant) × (s.tenants_by_user token.user_id ≡ some tenant)
        × MadeFrom token tenant t
        × (t.token_id
            ≡ imported_tenant_token_id library s.plan.source_system
                (source_name (codes "token:") token.token_id))

  rejected-Planned :
      (s : Planning) (token : SourceToken) (reason : Text) → Planned s token (inl reason)
  rejected-Planned s token reason t e = cc

  with_expiry-Planned :
      (s : Planning) (token : SourceToken) (tenant : PlannedTenant) (status : Text)
      (x : Text ⊎ Option Time)
      → s.tenants_by_user token.user_id ≡ some tenant
      → is_blank token.key ≡ false
      → map_token_status token.status ≡ inr status
      → parse_token_expiry library.quoted token.expired_time ≡ x
      → Planned s token (with_expiry library s token tenant status x)
  unfolding with_expiry
  with_expiry-Planned s token tenant status (inl reason) f b m x = rejected-Planned s token reason
  with_expiry-Planned s token tenant status (inr expires_at) f b m x = λ t e.
      let group = token_group token.group (get_or [] (s.user_groups token.user_id)) in
      let planned =
        planned_token library s.plan.source_system token tenant group status expires_at in
      let same : planned ≡ t = cc in
      (
        tenant,
        f,
        subst (MadeFrom token tenant) same (
            planned_token-MadeFrom s.plan.source_system token tenant group status expires_at b m x),
        ap (λ t. t.token_id) (sym same)
            ∙ planned_token-token_id s.plan.source_system token tenant group status expires_at,
      )

  with_token_status-Planned :
      (s : Planning) (token : SourceToken) (tenant : PlannedTenant) (m : Text ⊎ Text)
      → s.tenants_by_user token.user_id ≡ some tenant
      → is_blank token.key ≡ false
      → map_token_status token.status ≡ m
      → Planned s token (with_token_status library s token tenant m)
  unfolding with_token_status
  with_token_status-Planned s token tenant (inl reason) f b e = rejected-Planned s token reason
  with_token_status-Planned s token tenant (inr status) f b e =
      with_expiry-Planned s token tenant status
        (parse_token_expiry library.quoted token.expired_time) f b e refl

  with_tenant-Planned :
      (s : Planning) (token : SourceToken) (found : Option PlannedTenant)
      → s.tenants_by_user token.user_id ≡ found
      → Planned s token (with_tenant library s token found)
  unfolding with_tenant
  with_tenant-Planned s token none f = rejected-Planned s token _
  with_tenant-Planned s token (some tenant) f = elim (Bool-cases (is_blank token.key)) [
    | inl b ↦ rw (b, with_tenant) (rejected-Planned s token _)
    | inr b ↦
        rw (b, with_tenant)
          (with_token_status-Planned s token tenant (map_token_status token.status) f b refl)
  ]

  pub judge_token-Planned :
      (s : Planning) (token : SourceToken) → Planned s token (judge_token library s token)
  unfolding judge_token
  judge_token-Planned s token = elim (Bool-cases (leb_ℤ token.token_id (pos 0))) [
    | inl e ↦ rw (e, judge_token) (rejected-Planned s token _)
    | inr e ↦
        rw (e, judge_token) (with_tenant-Planned s token (s.tenants_by_user token.user_id) refl)
  ]
