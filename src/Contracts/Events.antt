-- ===== src/Contracts/Events.antt =====
-- pkg/contracts/contracts.go: the metering events and their validation. A check that reports the
-- first blank field ranges over a Go map, so which field it names is not determined; the model says
-- only that a field is missing. The hash of `TerminalEventID` and the syntax check of
-- encoding/json are parameters.
use gateway_platform.Base.{
  ℕ, ◌/◌, Bool, true, false, not, ◌&&◌, ◌||◌, Option, none, some, List, [], ◌∷◌, nat_beq, ltb, ◌==◌,
  nat_eq, list_eq, any,
}
use gateway_platform.Base.Int.{ℤ, pos, negsuc, ltb_ℤ, leb_ℤ, int_eq}
use gateway_platform.Base.Text.{Text, is_blank}
use gateway_platform.Contracts.Types.{
  Time, ErrorClass, error_class_valid, UsageSource, unknown_source,
}

abbrev pub schema_version : ℤ
schema_version = pos 1

-- Go's division truncates; a version that is not positive is refused before it is divided.
unfoldable pub supported_schema_version : ℤ → Bool
supported_schema_version (pos v) = ltb 0 v && (nat_beq v 1 || nat_beq (v / 100) 0)
supported_schema_version (negsuc v) = false

pub data ContractError : Type 0 where
  unsupported_version missing_field invalid_timing invalid_event_type : ContractError
  invalid_payload missing_occurred_at underived_event_id : ContractError
  invalid_values invalid_classification : ContractError

-- `if fail { return err }; rest`
abbrev pub reject {ℓ} : {E : Type ℓ} → Bool → E → Option E → Option E
reject true e rest = some e
reject false e rest = rest

pub record AttemptStarted : Type 0 where
  pub schema_version : ℤ
  pub event_id : Text
  pub request_id : Text
  pub attempt_id : Text
  pub attempt_no : ℤ
  pub producer_id : Text
  pub occurred_at : Time
  pub account_id : Text
  pub provider : Text
  pub model : Text
  pub tenant_id : Text
  pub deadline_at : Time

unfoldable pub validate_attempt_started : AttemptStarted → Option ContractError
unfolding supported_schema_version is_blank
validate_attempt_started a =
    reject (not (supported_schema_version a.schema_version)) unsupported_version (
      reject
        (any is_blank (
          a.event_id ∷ a.request_id ∷ a.attempt_id ∷ a.producer_id ∷ a.account_id ∷ a.provider
          ∷ a.model ∷ a.tenant_id ∷ []))
        missing_field
        (reject
          (leb_ℤ a.attempt_no (pos 0)
            || nat_beq a.occurred_at 0
            || not (ltb a.occurred_at a.deadline_at))
          invalid_timing none))

pub record Release : Type 0 where
  pub schema_version : ℤ
  pub event_id : Text
  pub request_id : Text
  pub attempt_id : Text
  pub attempt_no : ℤ
  pub producer_id : Text
  pub occurred_at : Time
  pub account_id : Text
  pub provider : Text
  pub status_code : ℤ
  pub latency_ms : ℤ
  pub tokens_in : ℤ
  pub tokens_out : ℤ
  pub cache_read_tokens : ℤ
  pub cache_write_tokens : ℤ
  pub model : Text
  pub tenant_id : Text
  pub error_class : ErrorClass
  pub usage_source : UsageSource
  pub partial : Bool
  pub inbound_protocol : Text

unfoldable pub known_source : UsageSource → Bool
known_source (unknown_source _) = false
known_source _ = true

-- The parameter is `TerminalEventID`, the hex SHA-256 of the attempt's id and a suffix.
unfoldable pub validate_release : (Text → Text) → Release → Option ContractError
unfolding supported_schema_version is_blank error_class_valid known_source
validate_release terminal_event_id r =
    reject (not (supported_schema_version r.schema_version)) unsupported_version (
      reject
        (any is_blank (
          r.event_id ∷ r.request_id ∷ r.attempt_id ∷ r.producer_id ∷ r.account_id ∷ r.provider
          ∷ r.model ∷ r.tenant_id ∷ []))
        missing_field
        (reject (not (r.event_id == terminal_event_id r.attempt_id)) underived_event_id (
          reject
            (ltb_ℤ r.attempt_no (pos 0)
              || nat_beq r.occurred_at 0
              || any (λ n. ltb_ℤ n (pos 0))
                  (r.status_code ∷ r.latency_ms ∷ r.tokens_in ∷ r.tokens_out ∷ r.cache_read_tokens
                    ∷ r.cache_write_tokens ∷ []))
            invalid_values
            (reject (not (error_class_valid r.error_class) || not (known_source r.usage_source))
              invalid_classification none))))

-- `attempt_started`, `release`, or another string.
pub data EventType : Type 0 where
  attempt_started_event release_event : EventType
  other_event : Text → EventType

pub record StreamEvent : Type 0 where
  pub event_type : EventType
  pub schema_version : ℤ
  pub event_id : Text
  pub request_id : Text
  pub attempt_id : Text
  pub producer_id : Text
  pub occurred_at : Time
  pub payload : List ℕ

unfoldable pub known_event_type : EventType → Bool
known_event_type (other_event _) = false
known_event_type _ = true

is_nil : List ℕ → Bool
is_nil [] = true
is_nil (b ∷ bs) = false

-- The parameter is json.Valid.
unfoldable pub validate_stream_event : (List ℕ → Bool) → StreamEvent → Option ContractError
unfolding supported_schema_version is_blank known_event_type is_nil
validate_stream_event json_valid e =
    reject (not (supported_schema_version e.schema_version)) unsupported_version (
      reject (not (known_event_type e.event_type)) invalid_event_type (
        reject (any is_blank (e.event_id ∷ e.request_id ∷ e.attempt_id ∷ e.producer_id ∷ []))
          missing_field
          (reject (is_nil e.payload || not (json_valid e.payload)) invalid_payload
            (reject (nat_beq e.occurred_at 0) missing_occurred_at none))))

-- json.Marshal with its error as `none`.
pub new_stream_event :
    {P : Type 0}
    → (P → Option (List ℕ))
    → EventType
    → Text
    → Text
    → Text
    → Text
    → Time
    → P
    → Option StreamEvent
new_stream_event marshal event_type event_id request_id attempt_id producer_id occurred_at body =
    elim (marshal body) [
      | none ↦ none
      | some b ↦ some (record {
        event_type = event_type;
        schema_version = schema_version;
        event_id = event_id;
        request_id = request_id;
        attempt_id = attempt_id;
        producer_id = producer_id;
        occurred_at = occurred_at;
        payload = b;
      })
    ]
