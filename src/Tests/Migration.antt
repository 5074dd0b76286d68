-- ===== src/Tests/Migration.antt =====
-- A snapshot of two users and two tokens, one of each of which is rejected.
use gateway_platform.Migration.Origins.{
  Adds, user_origin, token_origin, quota_origin, group_origins,
}
use gateway_platform.Migration.Owned.{Owned, tokens-Owned}
use gateway_platform.Migration.Conversion.{map_user_status}
use gateway_platform.Base.Int.{int_beq}
use gateway_platform.Base.Text.{is_blank}
use gateway_platform.Base.Int.{pos}
use gateway_platform.Base.Text.{codes}
use gateway_platform.Migration.Traced.{add_source_records-Adds}
use gateway_platform.Migration.Sources.{add_source_records}
use gateway_platform.Migration.Types.{SourceSnapshot, Plan}
use gateway_platform.Migration.Conversion.{Library}
use gateway_platform.Base.{◌≡◌, [], map, All, refl, none, ◌∷◌, ◌++◌, length, ◌+◌}

abbrev library : Library
library = record {
  hex_of = λ s. s;
  digest_map = λ m. [];
  digest_text = λ s. [];
  digest_quotas = λ q. [];
  hash_token = λ s. s;
  quoted = λ s. s;
  rfc3339 = λ t. [];
}

abbrev snapshot : SourceSnapshot
snapshot = record {
  channels = [];
  users =
      (record {
        user_id = pos 7;
        username = codes "ann";
        email = [];
        status = pos 1;
        quota = [];
        used_quota = [];
        group = codes "vip";
      })
      ∷ (record {
        user_id = pos 7;
        username = codes "bob";
        email = [];
        status = pos 1;
        quota = [];
        used_quota = [];
        group = [];
      })
      ∷ [];
  tokens =
      (record {
        token_id = pos 3;
        user_id = pos 7;
        status = pos 1;
        expired_time = codes "-1";
        remain_quota = [];
        group = [];
        key = codes "abc";
      })
      ∷ (record {
        token_id = pos 4;
        user_id = pos 8;
        status = pos 1;
        expired_time = [];
        remain_quota = [];
        group = [];
        key = codes "def";
      })
      ∷ [];
  quotas = [];
  groups = (record { group_id = codes "vip"; name = codes "VIP"; status = codes "1" }) ∷ [];
}

abbrev no_plan : Plan
no_plan = record {
  source_system = codes "new-api";
  tenants = [];
  tenant_tokens = [];
  records = [];
  summary = record {
    tenant_count = 0;
    principal_count = 0;
    tenant_token_count = 0;
    imported_count = 0;
    rejected_count = 0;
    rejection_reasons = λ _. none;
    quota_rows = 0;
    quota_raw_digest = [];
  };
}

one_token :
    map (λ t. t.token_hash) (add_source_records library snapshot no_plan).tenant_tokens
    ≡ codes "sk-abc" ∷ []
unfolding add_source_records map_user_status int_beq is_blank
one_token = refl

two_rejected : (add_source_records library snapshot no_plan).summary.rejected_count ≡ 2
unfolding add_source_records map_user_status int_beq is_blank
two_rejected = refl

tokens-Owned_example :
    let q = add_source_records library snapshot no_plan in
    All (Owned library snapshot q.tenants) q.tenant_tokens
tokens-Owned_example = tokens-Owned library snapshot no_plan refl

add_source_records-Adds_example :
    Adds library
      (map (user_origin library no_plan.source_system) snapshot.users
        ++ (map (token_origin library no_plan.source_system) snapshot.tokens
            ++ (map (quota_origin library) snapshot.quotas
                ++ group_origins library snapshot.channels snapshot.groups)))
      (length snapshot.quotas + length (group_origins library snapshot.channels snapshot.groups))
      no_plan
      (add_source_records library snapshot no_plan)
add_source_records-Adds_example = add_source_records-Adds library snapshot no_plan
