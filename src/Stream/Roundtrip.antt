-- ===== src/Stream/Roundtrip.antt =====
-- What Producer.Add appends, a consumer decodes.
use gateway_platform.Base.Int.{ℤ, pos, negsuc}
use gateway_platform.Base.Text.Numerals.{IsInt64, parse_int-format_int}
use gateway_platform.Base.Text.{Text}
use gateway_platform.Contracts.Types.{Time}
use gateway_platform.Contracts.Events.{
  validate_stream_event, supported_schema_version, EventType, StreamEvent, attempt_started_event,
  release_event, other_event, known_event_type,
}
use gateway_platform.Stream.Envelope.{event_type_of, decode, event_type_text, values_of}
use gateway_platform.Base.{
  none, some, inl, inr, List, list_beq, ℕ, Bool, ◌≡◌, Option, ◌⊎◌, refl, arith, true,
}

event_type_of-text :
    (t : EventType)
    → (t ≡ attempt_started_event) ⊎ (t ≡ release_event)
    → event_type_of (event_type_text t) ≡ t
unfolding event_type_of event_type_text list_beq
event_type_of-text attempt_started_event h = refl
event_type_of-text release_event h = refl
event_type_of-text (other_event s) (inl e) = cc
event_type_of-text (other_event s) (inr e) = cc

known_type :
    (t : EventType) → known_event_type t ≡ true → (t ≡ attempt_started_event) ⊎ (t ≡ release_event)
unfolding known_event_type
known_type attempt_started_event h = inl refl
known_type release_event h = inr refl
known_type (other_event s) h = cc

valid_type :
    (json_valid : List ℕ → Bool) (e : StreamEvent)
    → validate_stream_event json_valid e ≡ none
    → (e.event_type ≡ attempt_started_event) ⊎ (e.event_type ≡ release_event)
unfolding validate_stream_event
valid_type json_valid e v = known_type e.event_type (ground (arith, v))

supported-IsInt64 : (z : ℤ) → supported_schema_version z ≡ true → IsInt64 z
unfolding supported_schema_version
supported-IsInt64 (pos n) h = ground arith
supported-IsInt64 (negsuc n) h = cc

valid_version :
    (json_valid : List ℕ → Bool) (e : StreamEvent)
    → validate_stream_event json_valid e ≡ none
    → IsInt64 e.schema_version
unfolding validate_stream_event
valid_version json_valid e v = supported-IsInt64 e.schema_version (ground (arith, v))

-- Whatever the producer finds valid and appends, the consumer decodes as it was, if a time that is formatted is
-- parsed as it was.
pub decode-values_of :
    (format_time : Time → Text) (parse_time : Text → Option Time) (json_valid : List ℕ → Bool)
    (e : StreamEvent)
    → ((t : Time) → parse_time (format_time t) ≡ some t)
    → validate_stream_event json_valid e ≡ none
    → decode format_time parse_time (values_of format_time parse_time e) ≡ some e
unfolding decode values_of list_beq
decode-values_of format_time parse_time json_valid e times v =
    rw (parse_int-format_int e.schema_version (valid_version json_valid e v)) (
      rw (times e.occurred_at)
        (rw (event_type_of-text e.event_type (valid_type json_valid e v)) refl))
