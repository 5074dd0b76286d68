-- ===== src/Tests/Ledger.antt =====
-- One attempt, its release, and the recovery. The hash is the identity here.
use gateway_platform.Control.Ledger.Synthetic.{synthetic_release_validates}
use gateway_platform.Control.Ledger.Memory.{
  MemoryLedger, apply_attempt_started, new_memory_ledger, apply_release,
}
use gateway_platform.Base.Map.{lookup, put}
use gateway_platform.Contracts.Types.{ok, upstream}
use gateway_platform.Control.Ledger.Delivery.{
  Delivery, handle_release-Delivery, recover_attempts_clears, Storable,
}
use gateway_platform.Control.Ledger.{
  Tables, handle_release, handle_attempt_started, deliver, recover_attempts, empty_tables,
  close_attempt, start_unless, started_row, conflicts, event_taken, close_row, close_state,
  coalesce, recorded, insert_usage, duplicate, AttemptRow, expired, synthetic_release, fits_row,
  fits_integer,
}
use gateway_platform.Contracts.Events.{
  AttemptStarted, Release, validate_attempt_started, validate_release, supported_schema_version,
}
use gateway_platform.Base.{◌≡◌, refl, false, some, [], list_beq, nat_eq, list_eq, none, arith}
use gateway_platform.Base.Text.{Text, codes, is_blank, trim_space, trim_left, is_space}
use gateway_platform.Base.Int.{pos}
use gateway_platform.Control.Ledger.Refinement.{Agree, start-Agree, is_recorded, ledgers-Agree}
use gateway_platform.Control.Ledger.Once.{LedgerInv, metered}
use gateway_platform.Control.Ledger.Reachable.{Reach, empty, started, released, Reach-LedgerInv}

abbrev pub attempt : Text
attempt = codes "x"

abbrev attempt_start : AttemptStarted
attempt_start = record {
  schema_version = pos 1;
  event_id = codes "x:start";
  request_id = codes "q";
  attempt_id = attempt;
  attempt_no = pos 1;
  producer_id = codes "g";
  occurred_at = 1;
  account_id = codes "a";
  provider = codes "p";
  model = codes "m";
  tenant_id = codes "t";
  deadline_at = 9;
}

abbrev pub release : Release
release = record {
  schema_version = pos 1;
  event_id = attempt;
  request_id = codes "q";
  attempt_id = attempt;
  attempt_no = pos 1;
  producer_id = codes "g";
  occurred_at = 5;
  account_id = codes "a";
  provider = codes "p";
  status_code = pos 200;
  latency_ms = pos 4;
  tokens_in = pos 3;
  tokens_out = pos 1;
  cache_read_tokens = pos 0;
  cache_write_tokens = pos 0;
  model = codes "m";
  tenant_id = codes "t";
  error_class = ok;
  usage_source = upstream;
  partial = false;
  inbound_protocol = [];
}

abbrev open_tables : Tables
open_tables = handle_attempt_started attempt_start empty_tables

open_Reach : Reach (λ x. x) open_tables
open_Reach = started attempt_start empty

first_is_recorded : (handle_release release open_tables).1 ≡ recorded
unfolding handle_release deliver fits_row fits_integer close_attempt handle_attempt_started
    start_unless started_row conflicts event_taken close_row close_state coalesce lookup put
    list_beq
first_is_recorded = refl

second_is_duplicate : (handle_release release (handle_release release open_tables).0).1 ≡ duplicate
unfolding handle_release deliver fits_row fits_integer close_attempt handle_attempt_started
    start_unless started_row conflicts event_taken close_row close_state coalesce lookup put
    list_beq insert_usage
second_is_duplicate = refl

handle_release-Delivery_example :
    Delivery release open_tables
      (handle_release release open_tables).0
      (handle_release release open_tables).1
handle_release-Delivery_example =
    handle_release-Delivery (λ x. x) (λ a b h. h) release open_tables refl
      (Reach-LedgerInv (λ x. x) (λ a b h. h) open_tables open_Reach)

recover_attempts_clears_example :
    (t' : Tables) × (recover_attempts (λ x. x) 20 15 open_tables ≡ some t')
    × LedgerInv (λ x. x) t'
    × ((b : Text) (row : AttemptRow) → lookup b t'.attempts ≡ some row → expired 15 row ≡ false)
recover_attempts_clears_example =
    recover_attempts_clears (λ x. x) (λ a b h. h) 20 15 open_tables
      (Reach-LedgerInv (λ x. x) (λ a b h. h) open_tables open_Reach)

twice_Reach : Reach (λ x. x) (handle_release release (handle_release release open_tables).0).0
twice_Reach = released release refl (released release refl open_Reach)

Reach-LedgerInv_example :
    LedgerInv (λ x. x) (handle_release release (handle_release release open_tables).0).0
Reach-LedgerInv_example =
    Reach-LedgerInv (λ x. x) (λ a b h. h)
      (handle_release release (handle_release release open_tables).0).0 twice_Reach

abbrev open_memory : MemoryLedger
open_memory = (apply_attempt_started attempt_start new_memory_ledger).0

nothing_Agree : Agree (λ x. x) new_memory_ledger empty_tables
unfolding lookup metered
nothing_Agree = record { states = λ a. refl; releases = λ a r h. cc; events = λ a. refl }

open_Agree : Agree (λ x. x) open_memory open_tables
open_Agree = start-Agree (λ x. x) attempt_start new_memory_ledger empty_tables nothing_Agree

attempt_is_persisted : lookup attempt open_tables.attempts ≡ some (started_row attempt_start)
unfolding handle_attempt_started start_unless lookup list_beq
attempt_is_persisted = refl

release_fits : Storable release
release_fits = (
  (omega arith, omega arith),
  (omega arith, omega arith),
  (omega arith, omega arith),
  (omega arith, omega arith),
  (omega arith, omega arith),
)

ledgers-Agree_example :
    Agree
      (λ x. x)
      (apply_attempt_started attempt_start open_memory).0
      (handle_attempt_started attempt_start open_tables)
    × Agree (λ x. x) (apply_release release open_memory).0 (handle_release release open_tables).0
    × ((apply_release release open_memory).1
        ≡ is_recorded (λ x. x) (λ a b h. h) (handle_release release open_tables).1)
ledgers-Agree_example =
    ledgers-Agree (λ x. x) (λ a b h. h) attempt_start release open_memory open_tables
      (started_row attempt_start) refl
      (Reach-LedgerInv (λ x. x) (λ a b h. h) open_tables open_Reach) attempt_is_persisted
      release_fits open_Agree

start_is_valid : validate_attempt_started attempt_start ≡ none
unfolding validate_attempt_started supported_schema_version is_blank trim_space trim_left is_space
start_is_valid = refl

hash_is_named : is_blank attempt ≡ false
unfolding is_blank trim_space trim_left is_space
hash_is_named = refl

synthetic_release_validates_example :
    validate_release (λ x. x) (synthetic_release (λ x. x) 20 attempt (started_row attempt_start))
    ≡ none
synthetic_release_validates_example =
    synthetic_release_validates (λ x. x) attempt_start 20 start_is_valid (omega arith) hash_is_named
