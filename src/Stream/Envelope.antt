-- ===== src/Stream/Envelope.antt =====
-- internal/events/stream.go: the fields of an entry, as Producer.Add writes and decode reads them.
use gateway_platform.Base.Text.Numerals.{parse_int, format_int}
use gateway_platform.Contracts.Types.{Time}
use gateway_platform.Contracts.Events.{
  EventType, other_event, StreamEvent, attempt_started_event, release_event,
}
use gateway_platform.Base.Text.{Text, codes}
use gateway_platform.Base.{◌>>=◌, none, some, Option, if◌then◌else◌, ◌==◌, nat_eq, list_eq}

-- The fields of an entry.
abbrev pub Values : Type 0
Values = Text → Option Text

unfoldable pub event_type_text : EventType → Text
event_type_text attempt_started_event = codes "attempt_started"
event_type_text release_event = codes "release"
event_type_text (other_event s) = s

unfoldable pub event_type_of : Text → EventType
event_type_of s =
    if s == codes "attempt_started"
    then attempt_started_event
    else if s == codes "release"
    then release_event
    else other_event s

-- The parameters are time.Format and time.Parse with RFC3339Nano.
module _ (format_time : Time → Text) (parse_time : Text → Option Time) where
  unfoldable pub values_of : StreamEvent → Values
  unfolding event_type_text
  values_of e field =
      if field == codes "event_type"
      then some (event_type_text e.event_type)
      else if field == codes "schema_version"
      then some (format_int e.schema_version)
      else if field == codes "event_id"
      then some e.event_id
      else if field == codes "request_id"
      then some e.request_id
      else if field == codes "attempt_id"
      then some e.attempt_id
      else if field == codes "producer_id"
      then some e.producer_id
      else if field == codes "occurred_at"
      then some (format_time e.occurred_at)
      else if field == codes "payload"
      then some e.payload
      else none

  unfoldable pub decode : Values → Option StreamEvent
  unfolding event_type_of parse_int
  decode values = do
    event_type ← values (codes "event_type")
    schema ← values (codes "schema_version")
    event_id ← values (codes "event_id")
    request_id ← values (codes "request_id")
    attempt_id ← values (codes "attempt_id")
    producer_id ← values (codes "producer_id")
    occurred_at ← values (codes "occurred_at")
    payload ← values (codes "payload")
    schema_version ← parse_int schema
    occurred ← parse_time occurred_at
    some (record {
      event_type = event_type_of event_type;
      schema_version = schema_version;
      event_id = event_id;
      request_id = request_id;
      attempt_id = attempt_id;
      producer_id = producer_id;
      occurred_at = occurred;
      payload = payload;
    })
