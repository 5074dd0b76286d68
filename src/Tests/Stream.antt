-- ===== src/Tests/Stream.antt =====
-- A release whose attempt never arrived: the ledger refuses it until it is given up.
use gateway_platform.Stream.Metered.{rounds, rounds-LedgerInv}
use gateway_platform.Control.Ledger.Once.{LedgerInv}
use gateway_platform.Stream.Rounds.{Round}
use gateway_platform.Stream.Consumer.{unanswered}
use gateway_platform.Base.{list_beq}
use gateway_platform.Base.Map.{lookup}
use gateway_platform.Base.Text.{format_nat}
use gateway_platform.Base.Text.Numerals.{format_int}
use gateway_platform.Contracts.Events.{validate_release}
use gateway_platform.Stream.Exhausted.{GivenUp, calls_with, deliveries, deliveries-GivenUp}
use gateway_platform.Stream.Delivery.{Acknowledges, process-Acknowledges}
use gateway_platform.Stream.Roundtrip.{decode-values_of}
use gateway_platform.Base.Int.{pos}
use gateway_platform.Control.Ledger.{empty_tables}
use gateway_platform.Stream.Envelope.{decode, values_of}
use gateway_platform.Stream.Consumer.{answered}
use gateway_platform.Stream.Consumer.{
  Codec, Bus, check, handle, StreamMessage, release_payload, process, answered,
}
use gateway_platform.Base.Text.{Text, codes}
use gateway_platform.Contracts.Types.{Time}
use gateway_platform.Contracts.Events.{StreamEvent, validate_stream_event, release_event}
use gateway_platform.Base.{◌≡◌, none, some, inr, ◌∷◌, Option, true, [], false, refl}
use gateway_platform.Tests.Ledger.{release, attempt}

abbrev event : StreamEvent
event = record {
  event_type = release_event;
  schema_version = pos 1;
  event_id = attempt;
  request_id = codes "q";
  attempt_id = attempt;
  producer_id = codes "g";
  occurred_at = 5;
  payload = codes "{}";
}

abbrev format : Time → Text
format t = t ∷ []

abbrev parse : Text → Option Time
parse [] = none
parse (t ∷ _) = some t

abbrev codec : Codec
codec = record {
  terminal_event_id = λ x. x;
  json_valid = λ b. true;
  parse_started = λ b. none;
  parse_release = λ b. some release;
  format_time = format;
  parse_time = parse;
}

abbrev message : StreamMessage
message = record { message_id = codes "1-0"; values = values_of format parse event }

abbrev bus : Bus
bus = record { tables = empty_tables; retries = λ _. none; acked = []; dead = [] }

event_is_valid : validate_stream_event (λ b. true) event ≡ none
unfolding validate_stream_event
event_is_valid = refl

message_is_valid : check codec message ≡ inr (release_payload release)
unfolding check values_of list_beq format_int format_nat validate_stream_event validate_release
message_is_valid = refl

is_refused : handle (release_payload release) empty_tables ≡ (empty_tables, false)
unfolding handle lookup
is_refused = refl

decode-values_of_example : decode format parse (values_of format parse event) ≡ some event
decode-values_of_example =
    decode-values_of format parse (λ b. true) event (λ t. refl) event_is_valid

process-Acknowledges_example :
    Acknowledges codec message bus (process codec (calls_with answered) message bus).0
process-Acknowledges_example = process-Acknowledges codec (calls_with answered) message bus

deliveries-GivenUp_example :
    GivenUp codec message
      (release_payload release)
      answered
      bus
      (deliveries codec message (release_payload release) answered 6 bus)
deliveries-GivenUp_example =
    deliveries-GivenUp codec message (release_payload release) answered 5 bus message_is_valid refl
      (inr is_refused)

-- The release is delivered twice, claimed and read, in each of two rounds.
abbrev round : Round
round = record {
  grouped = true;
  claimable = true;
  claimed = (calls_with unanswered, message) ∷ [];
  readable = true;
  fresh = (calls_with answered, message) ∷ [];
  recovered = answered;
  now = 400000000000;
  recovered_at = 400000000000;
}

rounds-LedgerInv_example : LedgerInv (λ x. x) (rounds codec (round ∷ round ∷ []) bus).tables
rounds-LedgerInv_example = rounds-LedgerInv codec (λ a b e. e) (round ∷ round ∷ []) bus refl
