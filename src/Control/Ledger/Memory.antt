-- ===== src/Control/Ledger/Memory.antt =====
-- internal/control/state.go: MemoryLedger, the ledger of the tests and dry runs. The map of attempts is
-- a list, which RecoverExpired ranges over in its order; the set of events is its test.
use gateway_platform.Base.Int.{pos}
use gateway_platform.Base.Map.{put, lookup}
use gateway_platform.Contracts.Types.{Time, network_error, missing}
use gateway_platform.Base.{
  true, false, some, none, [], ◌∷◌, Option, List, Bool, ◌||◌, if◌then◌else◌, ◌&&◌, is_some, ltb,
  ◌++◌, ◌==◌, nat_eq, list_eq,
}
use gateway_platform.Base.Text.{Text, codes}
use gateway_platform.Contracts.Events.{AttemptStarted, Release}
use gateway_platform.Control.Ledger.{
  AttemptState, attempt_open, attempt_terminal, attempt_reconciled, is_open, Time, put, lookup, pos,
}

pub record AttemptRecord : Type 0 where
  pub started : AttemptStarted
  pub state : AttemptState
  pub release : Option Release

pub record MemoryLedger : Type 0 where
  pub attempts : List (Text × AttemptRecord)
  pub events : Text → Bool

abbrev pub new_memory_ledger : MemoryLedger
new_memory_ledger = record { attempts = []; events = λ _. false }

unfoldable pub add_event : (Text → Bool) → Text → Text → Bool
add_event events e j = events j || j == e

abbrev pub opened : AttemptStarted → AttemptRecord
opened event = record { started = event; state = attempt_open; release = none }

unfoldable pub start_in_memory :
    Option AttemptRecord → AttemptStarted → MemoryLedger → MemoryLedger × Bool
start_in_memory (some _) event m = (m, false)
start_in_memory none event m =
    (record m { attempts = put event.attempt_id (opened event) m.attempts }, true)

-- `ApplyAttemptStarted`.
unfoldable pub apply_attempt_started : AttemptStarted → MemoryLedger → MemoryLedger × Bool
unfolding start_in_memory
apply_attempt_started event m = start_in_memory (lookup event.attempt_id m.attempts) event m

unfoldable pub remember : Release → MemoryLedger → MemoryLedger × Bool
unfolding add_event
remember r m = (record m { events = add_event m.events r.event_id }, true)

unfoldable pub close_record : Release → AttemptRecord → AttemptRecord
close_record r a = record a { release = some r; state = attempt_terminal }

unfoldable pub release_in_memory :
    Option AttemptRecord → Release → MemoryLedger → MemoryLedger × Bool
unfolding remember close_record
release_in_memory none r m = remember r m
release_in_memory (some a) r m =
    if is_some a.release
    then (m, false)
    else remember r (record m { attempts = put r.attempt_id (close_record r a) m.attempts })

-- `ApplyRelease`.
unfoldable pub apply_release : Release → MemoryLedger → MemoryLedger × Bool
unfolding release_in_memory
apply_release r m =
    if m.events r.event_id
    then (m, false)
    else release_in_memory (lookup r.attempt_id m.attempts) r m

is_overdue : Time → AttemptRecord → Bool
unfolding is_open
is_overdue now a = is_open a.state && ltb a.started.deadline_at now

module _ (terminal_event_id : Text → Text) where
  -- The release that stands for one that never came.
  made_up : Time → AttemptStarted → Release
  made_up now s = record {
    schema_version = pos 1;
    event_id = terminal_event_id s.attempt_id;
    request_id = s.request_id;
    attempt_id = s.attempt_id;
    attempt_no = s.attempt_no;
    producer_id = codes "control-reconciler";
    occurred_at = now;
    account_id = s.account_id;
    provider = s.provider;
    status_code = pos 504;
    latency_ms = pos 0;
    tokens_in = pos 0;
    tokens_out = pos 0;
    cache_read_tokens = pos 0;
    cache_write_tokens = pos 0;
    model = s.model;
    tenant_id = s.tenant_id;
    error_class = network_error;
    usage_source = missing;
    partial = true;
    inbound_protocol = [];
  }

  -- The body of the loop for an overdue attempt: the record, the events, and what is recovered.
  recover_record :
      Time → AttemptRecord → (Text → Bool) → AttemptRecord × (Text → Bool) × List Release
  unfolding made_up add_event
  recover_record now a events =
      let event_id = terminal_event_id a.started.attempt_id in
      let release = made_up now a.started in
      if events event_id then (record a { state = attempt_reconciled }, events, []) else (
        record a { state = attempt_reconciled; release = some release },
        add_event events event_id,
        release ∷ [],
      )

  unfoldable pub recover_records :
      Time
      → List (Text × AttemptRecord)
      → (Text → Bool)
      → List (Text × AttemptRecord) × (Text → Bool) × List Release
  unfolding recover_record is_overdue
  recover_records now [] events = ([], events, [])
  recover_records now ((k, a) ∷ rest) events =
      let (a', events', one) =
        if is_overdue now a then recover_record now a events else (a, events, []) in
      let (rest', events'', more) = recover_records now rest events' in
      ((k, a') ∷ rest', events'', one ++ more)

  -- `RecoverExpired`.
  unfoldable pub recover_expired : Time → MemoryLedger → MemoryLedger × List Release
  unfolding recover_records
  recover_expired now m =
      let (attempts, events, recovered) = recover_records now m.attempts m.events in
      (record { attempts = attempts; events = events }, recovered)
