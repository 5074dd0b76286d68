-- ===== src/Migration/Traced.antt =====
-- The records of a plan: one for each source that was read, imported or rejected as it says.
use gateway_platform.Migration.Origins.{
  Origin, first_of_each, group_origins, Adds, user_origin, token_origin, quota_origin, table_origin,
  channel_origin, Adds-refl, Adds-trans, Adds-cons,
}
use gateway_platform.Migration.Sources.{
  add_quotas, add_groups, add_channel_groups, add_all_groups, add_source_records, channel_groups,
}
use gateway_platform.Migration.Tokens.{add_tokens}
use gateway_platform.Migration.Users.{add_users}
use gateway_platform.Migration.Records.{add_imported_record, Planning}
use gateway_platform.Base.Text.{Text}
use gateway_platform.Migration.Conversion.{Library}
use gateway_platform.Migration.Types.{
  Plan, JsonMap, SourceQuota, SourceGroup, SourceChannel, SourceSnapshot,
}
use gateway_platform.Base.{
  none, inl, inr, List, [], map, ◌++◌, ◌∷◌, ◌+◌, arith, length, refl, Bool-cases, any, ◌==◌, nat_eq,
  list_eq,
}
use gateway_platform.Migration.Recorded.{imported-Adds, add_users-Adds, add_tokens-Adds}

module _ (library : Library) where
  -- A quota or a group.
  staged-Adds :
      (o : Origin) (conversion : JsonMap) (p : Plan)
      → Adds library
          (o ∷ [])
          1
          p
          (add_imported_record library o.source_id o.kind o.target_id o.raw conversion p)
  staged-Adds o conversion p =
      imported-Adds library o 1 conversion p p _ refl refl refl (refl, refl) (omega arith)

  add_quotas-Adds :
      (quotas : List SourceQuota) (p : Plan)
      → Adds library
          (map (quota_origin library) quotas)
          (length quotas)
          p
          (add_quotas library quotas p)
  unfolding add_quotas
  add_quotas-Adds [] p = Adds-refl library p
  add_quotas-Adds (quota ∷ quotas) p =
      Adds-cons library (staged-Adds (quota_origin library quota) _ p) (add_quotas-Adds quotas _)
        (omega arith)

  add_groups-Adds :
      (groups : List SourceGroup) (p : Plan)
      → Adds library
          (map (table_origin library) groups)
          (length (map (table_origin library) groups))
          p
          (add_groups library groups p)
  unfolding add_groups
  add_groups-Adds [] p = Adds-refl library p
  add_groups-Adds (group ∷ groups) p =
      Adds-cons library (staged-Adds (table_origin library group) _ p) (add_groups-Adds groups _)
        (omega arith)

  add_channel_groups-Adds :
      (seen groups : List Text) (p : Plan)
      → Adds library
          (map (channel_origin library) (first_of_each library seen groups))
          (length (map (channel_origin library) (first_of_each library seen groups)))
          p
          (add_channel_groups library seen groups p)
  unfolding add_channel_groups first_of_each
  add_channel_groups-Adds seen [] p = Adds-refl library p
  add_channel_groups-Adds seen (group ∷ groups) p = elim (Bool-cases (any (λ s. s == group) seen)) [
    | inl e ↦ rw (e, add_channel_groups) (add_channel_groups-Adds seen groups p)
    | inr e ↦
        rw (e, add_channel_groups)
          (Adds-cons library (staged-Adds (channel_origin library group) _ p)
            (add_channel_groups-Adds (group ∷ seen) groups _) (omega arith))
  ]

  add_all_groups-Adds :
      (channels : List SourceChannel) (groups : List SourceGroup) (p : Plan)
      → Adds library
          (group_origins library channels groups)
          (length (group_origins library channels groups))
          p
          (add_all_groups library channels groups p)
  unfolding add_all_groups group_origins
  add_all_groups-Adds channels [] p = add_channel_groups-Adds [] (channel_groups channels) p
  add_all_groups-Adds channels (group ∷ groups) p = add_groups-Adds (group ∷ groups) p

-- A plan gains one record for each user, token and quota, and one for each group that is named, in this
-- order. Each has its source's id, kind, raw summary and digest; it is imported under its source's target, or
-- it is of a user or a token and is rejected without a target. The summary counts the imported and the
-- rejected ones, and what is imported is as many tenants and tokens as are planned, the quotas and the groups.
pub add_source_records-Adds :
    (library : Library) (snapshot : SourceSnapshot) (p : Plan)
    → Adds library
        (map (user_origin library p.source_system) snapshot.users
          ++ (map (token_origin library p.source_system) snapshot.tokens
              ++ (map (quota_origin library) snapshot.quotas
                  ++ group_origins library snapshot.channels snapshot.groups)))
        (length snapshot.quotas + length (group_origins library snapshot.channels snapshot.groups))
        p
        (add_source_records library snapshot p)
unfolding add_source_records
add_source_records-Adds library snapshot p =
    let start : Planning = record {
      plan = p;
      tenants_by_user = λ _. none;
      user_groups = λ _. none;
    } in
    let users = add_users library snapshot.users start in
    let tokens = add_tokens library snapshot.tokens users in
    let quotas = add_quotas library snapshot.quotas tokens.plan in
    let of_users = add_users-Adds library p.source_system snapshot.users start refl in
    let whole = Adds-trans library of_users (
      Adds-trans library
        (add_tokens-Adds library p.source_system snapshot.tokens users of_users.system)
        (Adds-trans library (add_quotas-Adds library snapshot.quotas tokens.plan)
          (add_all_groups-Adds library snapshot.channels snapshot.groups quotas))) in
    record {
      added = whole.added;
      accepted = whole.accepted;
      refused = whole.refused;
      appended = whole.appended;
      traced = whole.traced;
      imported_count = whole.imported_count;
      rejected_count = whole.rejected_count;
      planned = omega (arith, whole.planned);
      system = whole.system;
    }
