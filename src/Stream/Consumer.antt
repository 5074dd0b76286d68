-- ===== src/Stream/Consumer.antt =====
-- internal/events/stream.go: process and deadLetter, with the handler of internal/control/ledger.go.
use gateway_platform.Contracts.Types.{Time}
use gateway_platform.Base.Map.{remove, update}
use gateway_platform.Stream.Envelope.{decode, Values}
use gateway_platform.Contracts.Events.{
  AttemptStarted, StreamEvent, EventType, Release, validate_stream_event, attempt_started_event,
  validate_attempt_started, validate_release,
}
use gateway_platform.Control.Ledger.{
  Tables, ReleaseResult, handle_attempt_started, handle_release, recorded, duplicate,
}
use gateway_platform.Base.Text.{Text}
use gateway_platform.Base.{
  none, some, inl, inr, Bool, ℕ, Option, ◌⊎◌, false, true, List, if◌then◌else◌, ◌==◌, get_or, ◌∷◌,
  ◌++◌, ◌&&◌, not, is_some, ◌+◌, [], ◌||◌, nat_eq, list_eq, ltb,
}

-- A call of Redis or of the handler's database fails, takes effect without an answer, or is answered.
pub data Outcome : Type 0 where
  failed unanswered answered : Outcome

pub data Category : Type 0 where
  invalid_envelope invalid_contract invalid_json retry_exhausted : Category

pub record DeadEntry : Type 0 where
  pub original_id : Text
  pub category : Category
  pub attempts : Option ℕ

-- What a consumer writes: the tables of the handler, the retry keys, the ids that are acknowledged, and the
-- dead letter stream.
pub record Bus : Type 0 where
  pub tables : Tables
  pub retries : Text → Option ℕ
  pub acked : List Text
  pub dead : List DeadEntry

pub record StreamMessage : Type 0 where
  pub message_id : Text
  pub values : Values

-- The outcomes of the calls that a delivery makes; `looked_up` is whether the count is read for the dead
-- letter stream.
pub record Calls : Type 0 where
  pub counted : Outcome
  pub handled : Outcome
  pub looked_up : Bool
  pub dead_added : Outcome
  pub acknowledged : Outcome
  pub dropped : Outcome

abbrev pub max_retries : ℕ
max_retries = 5

-- Del of the retry key.
unfoldable pub drop_retries : Outcome → Text → Bus → Bus
drop_retries failed id b = b
drop_retries _ id b = record b { retries = remove b.retries id }

-- XAck, and behind it Del; the result is whether there is no error.
unfoldable pub acknowledge : Outcome → Outcome → Text → Bus → Bus × Bool
unfolding drop_retries
acknowledge failed dropped id b = (b, false)
acknowledge unanswered dropped id b = (record b { acked = id ∷ b.acked }, false)
acknowledge answered dropped id b =
    (drop_retries dropped id (record b { acked = id ∷ b.acked }), true)

-- XAdd to the dead letter stream, and behind it XAck.
unfoldable pub bury : Outcome → Calls → DeadEntry → Bus → Bus × Bool
unfolding acknowledge
bury failed c entry b = (b, false)
bury unanswered c entry b = (record b { dead = b.dead ++ entry ∷ [] }, false)
bury answered c entry b =
    acknowledge c.acknowledged c.dropped entry.original_id
      (record b { dead = b.dead ++ entry ∷ [] })

unfoldable pub dead_letter : Calls → StreamMessage → Category → Bus → Bus × Bool
unfolding bury
dead_letter c m category b =
    bury c.dead_added c
      (record {
        original_id = m.message_id;
        category = category;
        attempts = if c.looked_up then b.retries m.message_id else none;
      })
      b

pub data Payload : Type 0 where
  started_payload : AttemptStarted → Payload
  release_payload : Release → Payload

unfoldable pub same_attempt : StreamEvent → AttemptStarted → Bool
same_attempt e p =
    e.event_id == p.event_id
    && e.request_id == p.request_id
    && e.attempt_id == p.attempt_id
    && e.producer_id == p.producer_id

unfoldable pub same_release : StreamEvent → Release → Bool
same_release e p =
    e.event_id == p.event_id
    && e.request_id == p.request_id
    && e.attempt_id == p.attempt_id
    && e.producer_id == p.producer_id

-- Whether Ledger.HandleRelease returns no error.
abbrev pub accepted : ReleaseResult → Bool
accepted recorded = true
accepted duplicate = true
accepted _ = false

-- The handler on a payload: a transaction that fails leaves the tables.
unfoldable pub handle : Payload → Tables → Tables × Bool
unfolding handle_attempt_started handle_release
handle (started_payload p) t = (handle_attempt_started p t, true)
handle (release_payload r) t = let (t', result) = handle_release r t in (t', accepted result)

-- The hash of TerminalEventID, json.Valid, json.Unmarshal into the two payloads, and the formats of times.
pub record Codec : Type 0 where
  pub terminal_event_id : Text → Text
  pub json_valid : List ℕ → Bool
  pub parse_started : List ℕ → Option AttemptStarted
  pub parse_release : List ℕ → Option Release
  pub format_time : Time → Text
  pub parse_time : Text → Option Time

module _ (codec : Codec) where
  open codec use {
    terminal_event_id, json_valid, parse_started, parse_release, format_time, parse_time,
  }

  abbrev pub checked_started : StreamEvent → Option AttemptStarted → Category ⊎ Payload
  checked_started e none = inl invalid_json
  checked_started e (some p) =
      if not (same_attempt e p) || is_some (validate_attempt_started p)
      then inl invalid_contract
      else inr (started_payload p)

  abbrev pub checked_release : StreamEvent → Option Release → Category ⊎ Payload
  checked_release e none = inl invalid_json
  checked_release e (some r) =
      if not (same_release e r) || is_some (validate_release terminal_event_id r)
      then inl invalid_contract
      else inr (release_payload r)

  abbrev pub payload_of : EventType → StreamEvent → Category ⊎ Payload
  payload_of attempt_started_event e = checked_started e (parse_started e.payload)
  payload_of _ e = checked_release e (parse_release e.payload)

  abbrev pub checked_event : Option StreamEvent → Category ⊎ Payload
  checked_event none = inl invalid_envelope
  checked_event (some e) =
      if is_some (validate_stream_event json_valid e)
      then inl invalid_contract
      else payload_of e.event_type e

  -- Lines 199 to 233: why a message cannot be handled, or its payload.
  unfoldable pub check : StreamMessage → Category ⊎ Payload
  unfolding decode same_attempt same_release
  check m = checked_event (decode format_time parse_time m.values)

  -- What follows the handler, whose transaction returns `tables` and whether it accepts them.
  unfoldable pub after_handler : Outcome → Calls → Text → Tables × Bool → Bus → Bus × Bool
  unfolding acknowledge
  after_handler failed c id result b = (b, false)
  after_handler unanswered c id (tables, fine) b = (record b { tables = tables }, false)
  after_handler answered c id (tables, false) b = (record b { tables = tables }, false)
  after_handler answered c id (tables, true) b =
      acknowledge c.acknowledged c.dropped id (record b { tables = tables })

  -- The retry count, once it is read: too many deliveries, or the handler.
  unfoldable pub counted_delivery : Calls → StreamMessage → Payload → ℕ → Bus → Bus × Bool
  unfolding after_handler dead_letter handle
  counted_delivery c m p attempt b =
      if ltb max_retries attempt
      then dead_letter c m retry_exhausted b
      else after_handler c.handled c m.message_id (handle p b.tables) b

  abbrev count_up : Text → ℕ → Bus → Bus
  count_up id attempt b = record b { retries = update b.retries id attempt }

  unfoldable pub after_count : Outcome → Calls → StreamMessage → Payload → ℕ → Bus → Bus × Bool
  unfolding counted_delivery
  after_count failed c m p attempt b = (b, false)
  after_count unanswered c m p attempt b = (count_up m.message_id attempt b, false)
  after_count answered c m p attempt b =
      counted_delivery c m p attempt (count_up m.message_id attempt b)

  unfoldable pub with_check : Calls → StreamMessage → Category ⊎ Payload → Bus → Bus × Bool
  unfolding after_count dead_letter
  with_check c m (inl category) b = dead_letter c m category b
  with_check c m (inr p) b = after_count c.counted c m p (get_or 0 (b.retries m.message_id) + 1) b

  unfoldable pub process : Calls → StreamMessage → Bus → Bus × Bool
  unfolding check with_check
  process c m b = with_check c m (check m) b
