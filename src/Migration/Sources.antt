-- ===== src/Migration/Sources.antt =====
-- internal/migration/newapi/plan.go: addSourceRecords, its loops over quotas and groups, and splitGroups.
use mathlib.Core.List.{reverse}
use gateway_platform.Migration.Tokens.{add_tokens}
use gateway_platform.Migration.Users.{add_users}
use gateway_platform.Migration.Records.{add_imported_record}
use gateway_platform.Migration.Types.{
  JsonMap, SourceQuota, SourceGroup, SourceChannel, SourceSnapshot, boolean, number, Plan, string,
}
use gateway_platform.Migration.Conversion.{Library, source_name}
use gateway_platform.Base.Text.{Text, codes, trim_space, is_empty}
use gateway_platform.Base.{
  none, ◌||◌, nat_eq, list_eq, List, ◌∷◌, [], ◌++◌, if◌then◌else◌, true, length, any, ◌==◌, nat_beq,
}

-- strings.Split(raw, ","), behind `part`, which is in reverse.
unfoldable pub split_commas : Text → Text → List Text
split_commas part [] = reverse part ∷ []
split_commas part (c ∷ s) =
    let rest = split_commas (c ∷ part) s in
    if nat_beq c b',' then reverse part ∷ split_commas [] s else rest

-- The parts that are not blank, each once.
unfoldable pub clean_strings : List Text → List Text → List Text
clean_strings seen [] = []
clean_strings seen (part ∷ parts) =
    let trimmed = trim_space part in
    let without = clean_strings seen parts in
    if is_empty trimmed || any (λ s. s == trimmed) seen
    then without
    else trimmed ∷ clean_strings (trimmed ∷ seen) parts

unfoldable pub split_groups : Text → List Text
unfolding split_commas clean_strings
split_groups raw = or_default (clean_strings [] (split_commas [] raw))
  where
    or_default : List Text → List Text
    or_default [] = codes "default" ∷ []
    or_default groups = groups

abbrev pub channel_groups : List SourceChannel → List Text
channel_groups [] = []
channel_groups (channel ∷ channels) = split_groups channel.group ++ channel_groups channels

module _ (library : Library) where
  abbrev staged : JsonMap
  staged = (codes "staging_only", boolean true) ∷ []

  abbrev pub quota_raw : SourceQuota → JsonMap
  quota_raw quota =
      (codes "quota_id", number quota.quota_id)
      ∷ (codes "user_id", number quota.user_id)
      ∷ (codes "model", string quota.model)
      ∷ (codes "created_at_raw", string quota.created_at)
      ∷ (codes "token_used_raw", string quota.token_used)
      ∷ (codes "count_raw", string quota.count)
      ∷ (codes "quota_raw", string quota.quota)
      ∷ (codes "group", string quota.group)
      ∷ []

  unfoldable pub add_quotas : List SourceQuota → Plan → Plan
  unfolding add_imported_record
  add_quotas [] p = p
  add_quotas (quota ∷ quotas) p = add_quotas quotas (
      add_imported_record library (source_name (codes "quota:") quota.quota_id) (codes "quota")
        (source_name (codes "quota-") quota.quota_id) (quota_raw quota)
        (staged ++ (codes "unit", string (codes "new-api-raw")) ∷ []) p)

  abbrev pub group_raw : SourceGroup → JsonMap
  group_raw group =
      (codes "group_id", string group.group_id)
      ∷ (codes "name", string group.name)
      ∷ (codes "status", string group.status)
      ∷ []

  abbrev pub add_group : Text → JsonMap → Plan → Plan
  add_group id raw =
      add_imported_record library (codes "group:" ++ id) (codes "group") (codes "group-" ++ id) raw
        staged

  unfoldable pub add_groups : List SourceGroup → Plan → Plan
  unfolding add_imported_record
  add_groups [] p = p
  add_groups (group ∷ groups) p = add_groups groups (add_group group.group_id (group_raw group) p)

  abbrev pub channel_group_raw : Text → JsonMap
  channel_group_raw group =
      (codes "name", string group) ∷ (codes "source", string (codes "channels.group")) ∷ []

  -- The groups that the channels name, each once; `seen` holds those of the channels before.
  unfoldable pub add_channel_groups : List Text → List Text → Plan → Plan
  unfolding add_imported_record
  add_channel_groups seen [] p = p
  add_channel_groups seen (group ∷ groups) p =
      let without = add_channel_groups seen groups p in
      if any (λ s. s == group) seen
      then without
      else add_channel_groups (group ∷ seen) groups (add_group group (channel_group_raw group) p)

  -- The groups table, or where it is empty the groups of the channels.
  unfoldable pub add_all_groups : List SourceChannel → List SourceGroup → Plan → Plan
  unfolding add_groups add_channel_groups
  add_all_groups channels [] p = add_channel_groups [] (channel_groups channels) p
  add_all_groups channels (group ∷ groups) p = add_groups (group ∷ groups) p

  unfoldable pub add_source_records : SourceSnapshot → Plan → Plan
  unfolding add_users add_tokens add_quotas add_all_groups
  add_source_records snapshot p =
      let s = add_tokens library snapshot.tokens (
        add_users library snapshot.users
          (record { plan = p; tenants_by_user = λ _. none; user_groups = λ _. none })) in
      let q =
        add_all_groups snapshot.channels snapshot.groups (add_quotas snapshot.quotas s.plan) in
      record q {
        summary = record q.summary {
          quota_rows = length snapshot.quotas;
          quota_raw_digest = library.digest_quotas snapshot.quotas;
        };
      }
