-- ===== src/Control/Ledger/Synthetic.antt =====
-- internal/control/ledger.go with pkg/contracts/contracts.go: the release that a recovery makes up is
-- one that `Release.Validate` accepts.
use gateway_platform.Control.Ledger.{synthetic_release, started_row}
use gateway_platform.Contracts.Types.{error_class_valid, Time}
use gateway_platform.Contracts.Events.{
  AttemptStarted, validate_attempt_started, validate_release, supported_schema_version,
  known_source,
}
use gateway_platform.Base.{◌≡◌, refl, false, none, arith, ◌<◌, ==_refl}
use gateway_platform.Base.Text.{Text, is_blank, trim_space, trim_left, is_space, codes}

-- What `AttemptStarted.Validate` makes sure of, as far as the recovery uses it.
record NamedAttempt (e : AttemptStarted) : Type 0 where
  request_id : is_blank e.request_id ≡ false
  attempt_id : is_blank e.attempt_id ≡ false
  account_id : is_blank e.account_id ≡ false
  provider : is_blank e.provider ≡ false
  model : is_blank e.model ≡ false
  tenant_id : is_blank e.tenant_id ≡ false

valid-NamedAttempt : (e : AttemptStarted) → validate_attempt_started e ≡ none → NamedAttempt e
unfolding validate_attempt_started
valid-NamedAttempt e h = record {
  request_id = ground arith;
  attempt_id = ground arith;
  account_id = ground arith;
  provider = ground arith;
  model = ground arith;
  tenant_id = ground arith;
}

reconciler_named : is_blank (codes "control-reconciler") ≡ false
unfolding is_blank trim_space trim_left is_space
reconciler_named = refl

-- The release that a recovery makes up for an attempt whose start was valid is valid too, at any
-- instant but Go's zero time, if the hash is not blank.
pub synthetic_release_validates :
    (terminal_event_id : Text → Text) (e : AttemptStarted) (now : Time)
    → validate_attempt_started e ≡ none
    → 0 < now
    → is_blank (terminal_event_id e.attempt_id) ≡ false
    → validate_release terminal_event_id
        (synthetic_release terminal_event_id now e.attempt_id (started_row e))
      ≡ none
unfolding validate_release supported_schema_version error_class_valid known_source synthetic_release
    started_row
synthetic_release_validates terminal_event_id e now h t b =
    let n = valid-NamedAttempt e h in
    rw
      (
        b,
        n.request_id,
        n.attempt_id,
        reconciler_named,
        n.account_id,
        n.provider,
        n.model,
        n.tenant_id,
        ==_refl (terminal_event_id e.attempt_id),
      )
      (ground arith)
