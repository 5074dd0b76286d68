-- ===== src/Migration/Records.antt =====
-- internal/migration/newapi/plan.go: the record that each source leaves in the plan.
use gateway_platform.Base.Map.{update}
use gateway_platform.Base.Map.{update}
use gateway_platform.Base.Text.{Text, codes}
use gateway_platform.Migration.Conversion.{Library}
use gateway_platform.Migration.Types.{Plan, JsonMap, PlannedTenant, boolean}
use gateway_platform.Base.{get_or, nat_eq, list_eq, Option, ◌++◌, [], ◌∷◌, true, ◌+◌}
use gateway_platform.Base.Int.{int_eq, ℤ}

-- The plan with the maps tenantsByUser and userGroups.
pub record Planning : Type 0 where
  pub plan : Plan
  pub tenants_by_user : ℤ → Option PlannedTenant
  pub user_groups : ℤ → Option Text

module _ (library : Library) where
  open library use {digest_map}

  unfoldable pub add_rejected : Text → Text → Text → JsonMap → Plan → Plan
  add_rejected source_id kind reason raw p = record p {
    records =
        p.records
        ++ (record {
          source_id = source_id;
          record_kind = kind;
          source_digest = digest_map raw;
          raw_summary = raw;
          conversion = (codes "rejected", boolean true) ∷ [];
          target_id = [];
          rejection_reason = reason;
          status = codes "rejected";
        })
          ∷ [];
    summary = record p.summary {
      rejected_count = p.summary.rejected_count + 1;
      rejection_reasons =
          update p.summary.rejection_reasons reason
            (get_or 0 (p.summary.rejection_reasons reason) + 1);
    };
  }

  unfoldable pub add_imported_record : Text → Text → Text → JsonMap → JsonMap → Plan → Plan
  add_imported_record source_id kind target_id raw conversion p = record p {
    records =
        p.records
        ++ (record {
          source_id = source_id;
          record_kind = kind;
          source_digest = digest_map raw;
          raw_summary = raw;
          conversion = conversion;
          target_id = target_id;
          rejection_reason = [];
          status = codes "imported";
        })
          ∷ [];
    summary = record p.summary { imported_count = p.summary.imported_count + 1 };
  }
