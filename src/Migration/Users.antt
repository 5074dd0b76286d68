-- ===== src/Migration/Users.antt =====
-- internal/migration/newapi/plan.go: addSourceRecords, its loop over the users.
use gateway_platform.Base.Map.{update}
use gateway_platform.Migration.Records.{add_imported_record, add_rejected, Planning}
use gateway_platform.Base.Text.{Text, codes, is_blank, trim_space}
use gateway_platform.Migration.Types.{SourceUser, PlannedTenant, JsonMap, number, string, boolean}
use gateway_platform.Migration.Conversion.{
  Library, source_name, map_user_status, imported_tenant_id, imported_principal_id,
}
use gateway_platform.Base.{
  is_some, inl, inr, nat_eq, list_eq, List, if◌then◌else◌, ◌∷◌, ◌++◌, [], ◌+◌, true, ◌⊎◌,
}
use gateway_platform.Base.Int.{int_eq, leb_ℤ, pos}

module _ (library : Library) where
  abbrev pub user_raw : SourceUser → JsonMap
  user_raw user =
      (codes "user_id", number user.user_id)
      ∷ (codes "username", string user.username)
      ∷ (codes "email", string user.email)
      ∷ (codes "status", number user.status)
      ∷ (codes "quota_raw", string user.quota)
      ∷ (codes "used_quota_raw", string user.used_quota)
      ∷ (codes "group", string user.group)
      ∷ []

  unfoldable pub planned_tenant : Text → SourceUser → Text → PlannedTenant
  planned_tenant source_system user status =
      let source_id = source_name (codes "user:") user.user_id in
      record {
        source_id = source_id;
        source_user_id = user.user_id;
        tenant_id = imported_tenant_id library source_system source_id;
        principal_id = imported_principal_id library source_system source_id;
        name = if is_blank user.username then source_id else trim_space user.username;
        status = status;
      }

  abbrev tenant_conversion : PlannedTenant → JsonMap
  tenant_conversion planned =
      (codes "status", string planned.status)
      ∷ (codes "default_principal_id", string planned.principal_id)
      ∷ (codes "quota_staging_only", boolean true)
      ∷ []

  unfoldable pub plan_tenant : SourceUser → Text → Planning → Planning
  unfolding planned_tenant add_imported_record
  plan_tenant user status s =
      let planned = planned_tenant s.plan.source_system user status in
      record {
        plan =
            add_imported_record library planned.source_id (codes "tenant") planned.tenant_id
              (user_raw user) (tenant_conversion planned)
              (record s.plan {
                tenants = s.plan.tenants ++ planned ∷ [];
                summary = record s.plan.summary {
                  tenant_count = s.plan.summary.tenant_count + 1;
                  principal_count = s.plan.summary.principal_count + 1;
                };
              });
        tenants_by_user = update s.tenants_by_user user.user_id planned;
        user_groups = update s.user_groups user.user_id user.group;
      }

  abbrev reject_user : SourceUser → Text → Planning → Planning
  reject_user user reason s = record s {
    plan =
        add_rejected library (source_name (codes "user:") user.user_id) (codes "tenant") reason
          (user_raw user) s.plan;
  }

  unfoldable pub with_status : SourceUser → Planning → Text ⊎ Text → Planning
  unfolding plan_tenant add_rejected
  with_status user s (inl reason) = reject_user user reason s
  with_status user s (inr status) = plan_tenant user status s

  -- The body of the loop over the users.
  unfoldable pub add_user : Planning → SourceUser → Planning
  unfolding with_status add_rejected
  add_user s user =
      if leb_ℤ user.user_id (pos 0)
      then reject_user user (codes "user id is not usable") s
      else if is_some (s.tenants_by_user user.user_id)
      then reject_user user (codes "duplicate user id") s
      else with_status user s (map_user_status user.status)

  unfoldable pub add_users : List SourceUser → Planning → Planning
  unfolding add_user
  add_users [] s = s
  add_users (user ∷ users) s = add_users users (add_user s user)
