-- ===== src/Migration/Tokens.antt =====
-- internal/migration/newapi/plan.go: addSourceRecords, its loop over the tokens.
use gateway_platform.Contracts.Types.{Time}
use gateway_platform.Migration.Records.{add_imported_record, add_rejected, Planning}
use gateway_platform.Migration.Types.{
  SourceToken, PlannedTenantToken, JsonMap, PlannedTenant, Plan, number, string, boolean,
}
use gateway_platform.Migration.Conversion.{
  Library, bearer_form, map_token_status, parse_token_expiry, source_name, imported_tenant_token_id,
}
use gateway_platform.Base.Text.{Text, is_blank, codes, trim_space}
use gateway_platform.Base.{
  none, some, get_or, inl, inr, nat_eq, list_eq, if◌then◌else◌, Option, List, not, [], ◌⊎◌, ◌∷◌,
  ◌++◌, ◌+◌, true,
}
use gateway_platform.Base.Int.{int_eq, leb_ℤ, pos}

-- The first of three strings that is not blank, or "default".
unfoldable pub token_group : Text → Text → Text
token_group own of_user =
    if not (is_blank own)
    then trim_space own
    else if not (is_blank of_user)
    then trim_space of_user
    else codes "default"

module _ (library : Library) where
  open library use {digest_text, hash_token, quoted, rfc3339}

  abbrev pub token_raw : SourceToken → JsonMap
  token_raw token =
      (codes "token_id", number token.token_id)
      ∷ (codes "user_id", number token.user_id)
      ∷ (codes "status", number token.status)
      ∷ (codes "expired_time_raw", string token.expired_time)
      ∷ (codes "remain_quota_raw", string token.remain_quota)
      ∷ (codes "group", string token.group)
      ∷ (codes "key_sha256", string (digest_text token.key))
      ∷ []

  unfoldable pub planned_token :
      Text → SourceToken → PlannedTenant → Text → Text → Option Time → PlannedTenantToken
  unfolding bearer_form
  planned_token source_system token tenant group status expires_at =
      let source_id = source_name (codes "token:") token.token_id in
      record {
        source_id = source_id;
        token_id = imported_tenant_token_id library source_system source_id;
        tenant_id = tenant.tenant_id;
        principal_id = tenant.principal_id;
        token_hash = hash_token (bearer_form (trim_space token.key));
        group = group;
        status = status;
        source_status = token.status;
        expires_at = expires_at;
      }

  abbrev expiry_entry : Option Time → JsonMap
  expiry_entry none = []
  expiry_entry (some t) = (codes "expires_at", string (rfc3339 t)) ∷ []

  abbrev token_conversion : PlannedTenantToken → JsonMap
  token_conversion planned =
      (codes "status", string planned.status)
      ∷ (codes "source_status", number planned.source_status)
      ∷ (codes "tenant_id", string planned.tenant_id)
      ∷ (codes "principal_id", string planned.principal_id)
      ∷ (codes "group", string planned.group)
      ∷ (codes "hash_form", string (codes "sk-prefixed"))
      ∷ (codes "quota_staging_only", boolean true)
      ∷ expiry_entry planned.expires_at

  unfoldable pub plan_token : SourceToken → PlannedTenantToken → Plan → Plan
  unfolding add_imported_record
  plan_token token planned p =
      add_imported_record library planned.source_id (codes "token") planned.token_id
        (token_raw token) (token_conversion planned)
        (record p {
          tenant_tokens = p.tenant_tokens ++ planned ∷ [];
          summary = record p.summary { tenant_token_count = p.summary.tenant_token_count + 1 };
        })

  unfoldable pub with_expiry :
      Planning → SourceToken → PlannedTenant → Text → Text ⊎ Option Time → Text ⊎ PlannedTenantToken
  unfolding planned_token token_group
  with_expiry s token tenant status (inl reason) = inl reason
  with_expiry s token tenant status (inr expires_at) = inr (
      planned_token s.plan.source_system token tenant
        (token_group token.group (get_or [] (s.user_groups token.user_id))) status expires_at)

  unfoldable pub with_token_status :
      Planning → SourceToken → PlannedTenant → Text ⊎ Text → Text ⊎ PlannedTenantToken
  unfolding with_expiry parse_token_expiry
  with_token_status s token tenant (inl reason) = inl reason
  with_token_status s token tenant (inr status) =
      with_expiry s token tenant status (parse_token_expiry quoted token.expired_time)

  unfoldable pub with_tenant :
      Planning → SourceToken → Option PlannedTenant → Text ⊎ PlannedTenantToken
  unfolding with_token_status map_token_status
  with_tenant s token none = inl (codes "token references a user that was not planned as a tenant")
  with_tenant s token (some tenant) =
      if is_blank token.key
      then inl (codes "token key is empty")
      else with_token_status s token tenant (map_token_status token.status)

  -- What becomes of a token: the reason of its rejection, or the token that is planned.
  unfoldable pub judge_token : Planning → SourceToken → Text ⊎ PlannedTenantToken
  unfolding with_tenant
  judge_token s token =
      if leb_ℤ token.token_id (pos 0)
      then inl (codes "token id is not usable")
      else with_tenant s token (s.tenants_by_user token.user_id)

  unfoldable pub with_verdict : Planning → SourceToken → Text ⊎ PlannedTenantToken → Planning
  unfolding plan_token add_rejected
  with_verdict s token (inl reason) = record s {
    plan =
        add_rejected library (source_name (codes "token:") token.token_id) (codes "token") reason
          (token_raw token) s.plan;
  }
  with_verdict s token (inr planned) = record s { plan = plan_token token planned s.plan }

  -- The body of the loop over the tokens.
  unfoldable pub add_token : Planning → SourceToken → Planning
  unfolding judge_token with_verdict
  add_token s token = with_verdict s token (judge_token s token)

  unfoldable pub add_tokens : List SourceToken → Planning → Planning
  unfolding add_token
  add_tokens [] s = s
  add_tokens (token ∷ tokens) s = add_tokens tokens (add_token s token)
