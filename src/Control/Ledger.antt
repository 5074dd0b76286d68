-- ===== src/Control/Ledger.antt =====
-- internal/control/ledger.go: the metering ledger over the tables `request_attempts` and
-- `usage_ledger` of migrations/001_initial.sql. Each handler is one transaction; a row of the ledger
-- is the release it is made from. The hash of `TerminalEventID` is a parameter.
pub mod Once
pub mod Delivery
pub mod Reachable
pub mod Synthetic
pub mod Memory
pub mod Refinement
use gateway_platform.Base.Int.{pos, ℤ, leb_ℤ, negsuc}
use gateway_platform.Base.Map.{lookup, put}
use gateway_platform.Contracts.Events.{AttemptStarted, Release}
use gateway_platform.Contracts.Types.{Time, network_error, missing}
use gateway_platform.Base.{
  true, false, some, none, [], ◌∷◌, List, Option, Bool, ◌==◌, if◌then◌else◌, some_and, ◌&&◌, ◌||◌,
  not, ltb, nat_eq, list_eq,
}
use gateway_platform.Base.Text.{Text, codes}

pub data AttemptState : Type 0 where
  attempt_open attempt_terminal attempt_reconciled : AttemptState

pub record AttemptRow : Type 0 where
  pub request_id : Text
  pub started_at : Time
  pub deadline_at : Time
  pub state : AttemptState
  pub account_id : Text
  pub provider : Text
  pub model : Text
  pub tenant_id : Text
  pub terminal_event_id : Option Text

pub record Tables : Type 0 where
  pub attempts : List (Text × AttemptRow)
  pub usage : List Release

abbrev pub empty_tables : Tables
empty_tables = record { attempts = []; usage = [] }

unfoldable pub started_row : AttemptStarted → AttemptRow
started_row e = record {
  request_id = e.request_id;
  started_at = e.occurred_at;
  deadline_at = e.deadline_at;
  state = attempt_open;
  account_id = e.account_id;
  provider = e.provider;
  model = e.model;
  tenant_id = e.tenant_id;
  terminal_event_id = none;
}

unfoldable pub start_unless : Option AttemptRow → AttemptStarted → Tables → Tables
unfolding started_row
start_unless (some _) e t = t
start_unless none e t = record t { attempts = (e.attempt_id, started_row e) ∷ t.attempts }

-- `HandleAttemptStarted`: ON CONFLICT (attempt_id) DO NOTHING.
unfoldable pub handle_attempt_started : AttemptStarted → Tables → Tables
unfolding start_unless
handle_attempt_started e t = start_unless (lookup e.attempt_id t.attempts) e t

-- The two UNIQUE columns of `usage_ledger`.
unfoldable pub conflicts : Release → List Release → Bool
conflicts r [] = false
conflicts r (u ∷ us) = u.event_id == r.event_id || u.attempt_id == r.attempt_id || conflicts r us

-- INSERT … ON CONFLICT DO NOTHING.
unfoldable pub insert_usage : Release → List Release → List Release
unfolding conflicts
insert_usage r us = if conflicts r us then us else r ∷ us

-- The UNIQUE column `terminal_event_id`: another attempt carries the id.
unfoldable pub event_taken : Text → Text → List (Text × AttemptRow) → Bool
event_taken event_id attempt_id [] = false
event_taken event_id attempt_id ((a, row) ∷ rows) =
    (some_and (λ e. e == event_id) row.terminal_event_id && not (a == attempt_id))
    || event_taken event_id attempt_id rows

unfoldable pub close_state : AttemptState → AttemptState
close_state attempt_reconciled = attempt_reconciled
close_state _ = attempt_terminal

unfoldable pub coalesce : Option Text → Text → Option Text
coalesce none e = some e
coalesce (some d) e = some d

unfoldable pub close_row : Text → AttemptRow → AttemptRow
unfolding close_state coalesce
close_row event_id row = record row {
  terminal_event_id = coalesce row.terminal_event_id event_id;
  state = close_state row.state;
}

-- Whether a release is recorded, was recorded before, or is an error that rolls back: its attempt is not
-- there, a number does not fit its column, or its event is another attempt's. Only a release
-- that is recorded reaches the health authority.
pub data ReleaseResult : Type 0 where
  recorded duplicate not_persisted out_of_range unique_violation : ReleaseResult

unfoldable pub close_attempt : Release → AttemptRow → Tables → Tables × ReleaseResult
unfolding event_taken close_row insert_usage conflicts
close_attempt r row t =
    let row' = close_row r.event_id row in
    if some_and (λ e. event_taken e r.attempt_id t.attempts) row'.terminal_event_id
    then (t, unique_violation)
    else (
      record { attempts = put r.attempt_id row' t.attempts; usage = insert_usage r t.usage },
      if conflicts r t.usage then duplicate else recorded,
    )

-- A column INTEGER of `usage_ledger`.
unfoldable pub fits_integer : ℤ → Bool
fits_integer n = leb_ℤ (negsuc 2147483647) n && leb_ℤ n (pos 2147483647)

-- A number out of the range of its column is refused, also where the row would conflict.
unfoldable pub fits_row : Release → Bool
unfolding fits_integer
fits_row r =
    fits_integer r.status_code
    && fits_integer r.tokens_in
    && fits_integer r.tokens_out
    && fits_integer r.cache_read_tokens
    && fits_integer r.cache_write_tokens

unfoldable pub deliver : Option AttemptRow → Release → Tables → Tables × ReleaseResult
unfolding close_attempt fits_row
deliver none r t = (t, not_persisted)
deliver (some row) r t = if fits_row r then close_attempt r row t else (t, out_of_range)

-- `HandleRelease`.
unfoldable pub handle_release : Release → Tables → Tables × ReleaseResult
unfolding deliver
handle_release r t = deliver (lookup r.attempt_id t.attempts) r t

unfoldable pub is_open : AttemptState → Bool
is_open attempt_open = true
is_open _ = false

unfoldable pub expired : Time → AttemptRow → Bool
unfolding is_open
expired before row = is_open row.state && ltb row.deadline_at before

-- The rows that the recovery selects; it skips none, as no one else holds a lock.
unfoldable pub candidates : Time → List (Text × AttemptRow) → List (Text × AttemptRow)
unfolding expired
candidates before [] = []
candidates before ((a, row) ∷ rows) =
    let rest = candidates before rows in if expired before row then (a, row) ∷ rest else rest

infixl 5 ◌>>=◌
abbrev pub ◌>>=◌ : {A B : Type 0} → Option A → (A → Option B) → Option B
none >>= f = none
some a >>= f = f a

module _ (terminal_event_id : Text → Text) where
  -- The release that stands for one that never came.
  unfoldable pub synthetic_release : Time → Text → AttemptRow → Release
  synthetic_release now a row = record {
    schema_version = pos 1;
    event_id = terminal_event_id a;
    request_id = row.request_id;
    attempt_id = a;
    attempt_no = pos 0;
    producer_id = codes "control-reconciler";
    occurred_at = now;
    account_id = row.account_id;
    provider = row.provider;
    status_code = pos 504;
    latency_ms = pos 0;
    tokens_in = pos 0;
    tokens_out = pos 0;
    cache_read_tokens = pos 0;
    cache_write_tokens = pos 0;
    model = row.model;
    tenant_id = row.tenant_id;
    error_class = network_error;
    usage_source = missing;
    partial = true;
    inbound_protocol = [];
  }

  unfoldable pub reconcile_row : Text → AttemptRow → AttemptRow
  reconcile_row a row = record row {
    terminal_event_id = some (terminal_event_id a);
    state = attempt_reconciled;
  }

  -- One turn of the loop; `none` rolls the recovery back.
  unfoldable pub recover_one : Time → Text → AttemptRow → Tables → Option Tables
  unfolding synthetic_release reconcile_row insert_usage event_taken
  recover_one now a row t =
      if event_taken (terminal_event_id a) a t.attempts
      then none
      else some (record {
        attempts = put a (reconcile_row a row) t.attempts;
        usage = insert_usage (synthetic_release now a row) t.usage;
      })

  unfoldable pub recover_all : Time → List (Text × AttemptRow) → Tables → Option Tables
  unfolding recover_one
  recover_all now [] t = some t
  recover_all now ((a, row) ∷ rows) t = recover_one now a row t >>= λ t'. recover_all now rows t'

  -- `RecoverAttempts`.
  unfoldable pub recover_attempts : Time → Time → Tables → Option Tables
  unfolding recover_all candidates
  recover_attempts now before t = recover_all now (candidates before t.attempts) t
