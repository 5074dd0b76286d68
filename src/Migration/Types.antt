-- ===== src/Migration/Types.antt =====
-- internal/migration/newapi/types.go: what is read from the other gateway, and what a plan holds.
use gateway_platform.Contracts.Types.{Time}
use gateway_platform.Base.Int.{ℤ}
use gateway_platform.Base.Text.{Text}
use gateway_platform.Base.{Bool, Option, List, ℕ}

-- The values of a map[string]any.
pub data Json : Type 0 where
  string : Text → Json
  number : ℤ → Json
  boolean : Bool → Json

-- A map[string]any, by its keys.
abbrev pub JsonMap : Type 0
JsonMap = List (Text × Json)

pub record SourceChannel : Type 0 where
  pub channel_id : ℤ
  pub channel_type : ℤ
  pub key : Text
  pub status : ℤ
  pub name : Text
  pub base_url : Text
  pub models : Text
  pub group : Text
  pub used_quota : Text
  pub balance : Text
  pub channel_setting : Text
  pub model_mapping : Text
  pub channel_info : Text

pub record SourceUser : Type 0 where
  pub user_id : ℤ
  pub username : Text
  pub email : Text
  pub status : ℤ
  pub quota : Text
  pub used_quota : Text
  pub group : Text

pub record SourceToken : Type 0 where
  pub token_id : ℤ
  pub user_id : ℤ
  pub status : ℤ
  pub expired_time : Text
  pub remain_quota : Text
  pub group : Text
  pub key : Text

pub record SourceQuota : Type 0 where
  pub quota_id : ℤ
  pub user_id : ℤ
  pub model : Text
  pub created_at : Text
  pub token_used : Text
  pub count : Text
  pub quota : Text
  pub group : Text

pub record SourceGroup : Type 0 where
  pub group_id : Text
  pub name : Text
  pub status : Text

pub record SourceSnapshot : Type 0 where
  pub channels : List SourceChannel
  pub users : List SourceUser
  pub tokens : List SourceToken
  pub quotas : List SourceQuota
  pub groups : List SourceGroup

pub record MigrationRecord : Type 0 where
  pub source_id : Text
  pub record_kind : Text
  pub source_digest : Text
  pub raw_summary : JsonMap
  pub conversion : JsonMap
  pub target_id : Text
  pub rejection_reason : Text
  pub status : Text

pub record PlannedTenant : Type 0 where
  pub source_id : Text
  pub source_user_id : ℤ
  pub tenant_id : Text
  pub principal_id : Text
  pub name : Text
  pub status : Text

pub record PlannedTenantToken : Type 0 where
  pub source_id : Text
  pub token_id : Text
  pub tenant_id : Text
  pub principal_id : Text
  pub token_hash : Text
  pub group : Text
  pub status : Text
  pub source_status : ℤ
  pub expires_at : Option Time

pub record Summary : Type 0 where
  pub tenant_count : ℕ
  pub principal_count : ℕ
  pub tenant_token_count : ℕ
  pub imported_count : ℕ
  pub rejected_count : ℕ
  pub rejection_reasons : Text → Option ℕ
  pub quota_rows : ℕ
  pub quota_raw_digest : Text

-- The part of a plan that users, tokens, quotas and groups fill.
pub record Plan : Type 0 where
  pub source_system : Text
  pub tenants : List PlannedTenant
  pub tenant_tokens : List PlannedTenantToken
  pub records : List MigrationRecord
  pub summary : Summary
