-- ===== src/Migration/Conversion.antt =====
-- internal/migration/newapi/plan.go: the conversions of statuses, times and keys, and the ids of what is imported.
use gateway_platform.Migration.Types.{JsonMap, SourceQuota}
use gateway_platform.Contracts.Types.{Time}
use gateway_platform.Base.Text.{has_prefix, Text, codes, trim_space, is_empty}
use gateway_platform.Base.Text.Numerals.{parse_int, format_int}
use gateway_platform.Base.{
  none, some, ◌||◌, inl, inr, nat_eq, list_eq, ℕ, ◌⊎◌, if◌then◌else◌, ◌++◌, ◌==◌, ◌+◌, Option, List,
  ◌∷◌, ◌*◌,
}
use gateway_platform.Base.Int.{int_eq, ℤ, pos, leb_ℤ, pos_part}

unfoldable pub map_user_status : ℤ → Text ⊎ Text
map_user_status status =
    if status == pos 1
    then inr (codes "active")
    else if status == pos 2
    then inr (codes "suspended")
    else inl (codes "unsupported user status " ++ format_int status)

unfoldable pub map_token_status : ℤ → Text ⊎ Text
map_token_status status =
    if status == pos 1
    then inr (codes "active")
    else if status == pos 2 || status == pos 3 || status == pos 4
    then inr (codes "revoked")
    else inl (codes "unsupported token status " ++ format_int status)

-- time.Unix(seconds, 0): whole seconds since 1970. Those near 2^63, for which Go's sum wraps, are past every
-- instant here.
unfoldable pub unix_time : ℕ → Time
unix_time seconds = (62135596800 + seconds) * 1000000000

-- The parameter is %q, which quotes a string.
unfoldable pub parse_token_expiry : (Text → Text) → Text → Text ⊎ Option Time
unfolding unix_time parse_int
parse_token_expiry quoted raw =
    let trimmed = trim_space raw in
    if is_empty trimmed then inr none else elim (parse_int trimmed) [
      | none ↦ inl (codes "unparseable expired_time " ++ quoted raw)
      | some seconds ↦
          if leb_ℤ seconds (pos 0) then inr none else inr (some (unix_time (pos_part seconds)))
    ]

unfoldable pub bearer_form : Text → Text
unfolding has_prefix
bearer_form key = if has_prefix (codes "sk-") key then key else codes "sk-" ++ key

abbrev pub source_name : Text → ℤ → Text
source_name kind id = kind ++ format_int id

-- SHA-256 of the name of a source, of the JSON of a map, of a string and of the quotas, HashToken, %q, and
-- the RFC 3339 form of a time.
pub record Library : Type 0 where
  pub hex_of : Text → Text
  pub digest_map : JsonMap → Text
  pub digest_text : Text → Text
  pub digest_quotas : List SourceQuota → Text
  pub hash_token : Text → Text
  pub quoted : Text → Text
  pub rfc3339 : Time → Text

module _ (library : Library) where
  open library use {hex_of}

  abbrev pub imported_hex : Text → Text → Text
  imported_hex source_system source_id = hex_of (source_system ++ (0 ∷ source_id))

  abbrev pub imported_tenant_id : Text → Text → Text
  imported_tenant_id source_system source_id =
      codes "tenant-" ++ imported_hex source_system source_id

  abbrev pub imported_principal_id : Text → Text → Text
  imported_principal_id source_system source_id =
      codes "principal-" ++ imported_hex source_system source_id

  abbrev pub imported_tenant_token_id : Text → Text → Text
  imported_tenant_token_id source_system source_id =
      codes "token-" ++ imported_hex source_system source_id
