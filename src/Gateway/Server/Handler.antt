-- ===== src/Gateway/Server/Handler.antt =====
-- internal/gateway/server.go: handleNonStreaming. The clocks, the ids, whether an event was appended and what
-- upstream answered are inputs of each attempt. The server's clock of the counters and of the pins stands
-- still within a request, and no other request runs between its steps.
use gateway_platform.Gateway.Server.Attempt.{
  Server, Tenant, lease_provider, AttemptInputs, release_class, criteria_platform, not_chosen,
  no_usage, conclude, Gateway, ServerError, Next, Response, respond, failure, attempt_failed,
  not_admitted, again, unauthenticated, release_failed, model_required, unsupported,
  snapshot_not_fresh,
}
use gateway_platform.Base.{
  ℕ, zero, suc, Bool, false, not, ◌||◌, Option, none, List, [], ◌∷◌, ◌++◌, ◌+◌, if◌then◌else◌,
  nat_eq, list_eq, get_or, is_some, true,
}
use gateway_platform.Base.Int.{ℤ, pos, leb_ℤ, int_eq, pos_part}
use gateway_platform.Base.Text.{Text, is_empty, codes}
use gateway_platform.Contracts.Types.{Time, Lease, Criteria, ErrorClass, upstream, missing}
use gateway_platform.Contracts.Events.{
  AttemptStarted, Release, StreamEvent, EventType, attempt_started_event, release_event,
  schema_version, validate_stream_event,
}
use gateway_platform.Gateway.Chooser.Select.{acquire_preferring, leased, refused, Acquired}
use gateway_platform.Gateway.Limiter.{
  Link, Permit, Admission, admitted, acquire, acquire_tenant, release, Counters, down, unanswered,
  up,
}
use gateway_platform.Gateway.Sticky.{Pins, lookup_pin, pin}
use gateway_platform.Gateway.Server.Answer.{
  Request, contains_unsupported_message_fields, seconds_duration,
}

-- The chooser refuses, or the attempt goes on with its lease.
unfoldable pub chosen :
    ℤ → Option ServerError → Gateway → (Lease → Response × Gateway) → Acquired → Response × Gateway
unfolding not_chosen
chosen last_status last_err g attempt (refused e) = (not_chosen e last_status last_err, g)
chosen last_status last_err g attempt (leased lease) = attempt lease

-- `continue`, or a return.
unfoldable pub continue_with :
    (ℤ → Option ServerError → Gateway → Response × Gateway) → Next × Gateway → Response × Gateway
continue_with more (respond r, g) = (r, g)
continue_with more (again status err, g) = more status err g

-- A server, a request to it, and what they take from elsewhere: whole seconds of a duration, the digest and
-- the lifetime of a pin, the hash of TerminalEventID, json.Valid and json.Marshal of the two events.
pub record Setting : Type 0 where
  pub whole_seconds : ℕ → ℕ
  pub digest : Text → Text
  pub lifetime : ℤ → ℕ
  pub terminal_event_id : Text → Text
  pub json_valid : List ℕ → Bool
  pub marshal_started : AttemptStarted → List ℕ
  pub marshal_release : Release → List ℕ
  pub server : Server
  pub tenant : Tenant
  pub request : Request
  pub request_id : Text
  pub inbound_protocol : Text

module _ (setting : Setting) where
  open setting use {
    whole_seconds, digest, lifetime, terminal_event_id, json_valid, marshal_started,
    marshal_release, server, tenant, request, request_id, inbound_protocol,
  }

  unfoldable pub pin_session : Bool → Lease → Pins → Pins
  unfolding seconds_duration
  pin_session reachable lease p =
      if is_empty tenant.session_key
      then p
      else pin digest lifetime reachable tenant.tenant_id tenant.session_key lease.account_id
          (seconds_duration lease.limits.sticky_ttl) p

  abbrev deadline : ℕ
  deadline =
      if leb_ℤ server.request_timeout (pos 0) then 120000000000 else pos_part server.request_timeout

  unfoldable pub started_of : AttemptInputs → Lease → ℕ → AttemptStarted
  unfolding lease_provider
  started_of i lease nth = record {
    schema_version = schema_version;
    event_id = i.start_id;
    request_id = request_id;
    attempt_id = i.attempt_id;
    attempt_no = pos nth;
    producer_id = server.producer_id;
    occurred_at = i.started_at;
    account_id = lease.account_id;
    provider = lease_provider server lease;
    model = request.model;
    tenant_id = tenant.tenant_id;
    deadline_at = i.started_at + deadline;
  }

  unfoldable pub release_body : AttemptInputs → Lease → ℕ → ErrorClass → Release
  unfolding lease_provider
  release_body i lease nth class =
      let u = get_or no_usage i.answer.usage in
      record {
        schema_version = schema_version;
        event_id = terminal_event_id i.attempt_id;
        request_id = request_id;
        attempt_id = i.attempt_id;
        attempt_no = pos nth;
        producer_id = server.producer_id;
        occurred_at = i.ended_at;
        account_id = lease.account_id;
        provider = lease_provider server lease;
        status_code = i.answer.status;
        latency_ms = i.latency_ms;
        tokens_in = u.input;
        tokens_out = u.output;
        cache_read_tokens = u.cache_read;
        cache_write_tokens = u.cache_write;
        model = request.model;
        tenant_id = tenant.tenant_id;
        error_class = class;
        usage_source = if is_some i.answer.usage then upstream else missing;
        partial = false;
        inbound_protocol = inbound_protocol;
      }

  abbrev stream_event : EventType → Text → Text → Time → List ℕ → StreamEvent
  stream_event event_type event_id attempt_id occurred_at payload = record {
    event_type = event_type;
    schema_version = schema_version;
    event_id = event_id;
    request_id = request_id;
    attempt_id = attempt_id;
    producer_id = server.producer_id;
    occurred_at = occurred_at;
    payload = payload;
  }

  -- The events of an attempt as they stand in the stream.
  unfoldable pub started_event : AttemptInputs → Lease → ℕ → StreamEvent
  unfolding started_of
  started_event i lease nth =
      let a = started_of i lease nth in
      stream_event attempt_started_event a.event_id a.attempt_id a.occurred_at (marshal_started a)

  unfoldable pub release_stream_event : AttemptInputs → Lease → ℕ → ErrorClass → StreamEvent
  unfolding release_body
  release_stream_event i lease nth class =
      let r = release_body i lease nth class in
      stream_event release_event r.event_id r.attempt_id r.occurred_at (marshal_release r)

  -- Producer.Add: the stream behind the call, and whether it returns no error. An event that is not valid is
  -- not sent; a call that loses its answer appends it and returns an error.
  unfoldable pub send_event : Link → StreamEvent → List StreamEvent → List StreamEvent × Bool
  send_event down e es = (es, false)
  send_event unanswered e es = (es ++ e ∷ [], false)
  send_event up e es = (es ++ e ∷ [], true)

  unfoldable pub add_event : Link → StreamEvent → List StreamEvent → List StreamEvent × Bool
  unfolding send_event
  add_event link e es =
      if is_some (validate_stream_event json_valid e) then (es, false) else send_event link e es

  -- The attempt once its release was sent.
  unfoldable pub after_release :
      AttemptInputs → Lease → ℕ → ErrorClass → Gateway → List StreamEvent × Bool → Next × Gateway
  unfolding conclude
  after_release i lease nth class g (es, false) =
      (respond (failure (pos 503) release_failed), record g { stream = es })
  after_release i lease nth class g (es, true) =
      conclude i lease request.model nth class (record g { stream = es })

  -- The attempt once its start was sent; `g` has its permit given back.
  unfoldable pub after_start :
      AttemptInputs → Lease → ℕ → Gateway → List StreamEvent × Bool → Next × Gateway
  unfolding after_release release_stream_event release_class add_event
  after_start i lease nth g (es, false) =
      (respond (failure (pos 503) attempt_failed), record g { stream = es })
  after_start i lease nth g (es, true) =
      let class = release_class lease i.answer in
      after_release i lease nth class g
        (add_event i.release_appended (release_stream_event i lease nth class) es)

  -- The part of an attempt that holds a permit of its account.
  unfoldable pub with_permit : AttemptInputs → Lease → ℕ → Permit → Gateway → Next × Gateway
  unfolding started_event after_start add_event
  with_permit i lease nth permit g =
      after_start i lease nth (record g { counters = release i.given_back permit g.counters })
        (add_event i.start_appended (started_event i lease nth) g.stream)

  unfoldable pub admit_lease :
      AttemptInputs → ℕ → Lease → Gateway → Admission × Counters → Next × Gateway
  unfolding with_permit
  admit_lease i nth lease g (admitted permit, counters) =
      with_permit i lease nth permit (record g { counters = counters })
  admit_lease i nth lease g (other, counters) =
      (respond (failure (pos 429) (not_admitted other)), record g { counters = counters })

  unfoldable pub with_lease : AttemptInputs → ℕ → Lease → Gateway → Next × Gateway
  unfolding admit_lease pin_session
  with_lease i nth lease g =
      admit_lease i nth lease (record g { pins = pin_session i.pinning lease g.pins })
        (acquire i.link lease.account_id lease.limits i.unix g.counters)

  abbrev criteria : Text → Criteria
  criteria group = record {
    platform = criteria_platform server;
    model = request.model;
    group = group;
    session_key = [];
  }

  -- for attemptNo := 1; attemptNo <= 2; attemptNo++, with `left` attempts left.
  unfoldable pub attempts :
      (ℕ → AttemptInputs)
      → Text
      → Text
      → (left nth : ℕ) → List Text
      → ℤ
      → Option ServerError
      → Gateway
      → Response × Gateway
  unfolding with_lease chosen continue_with criteria_platform
  attempts inputs group pinned zero nth attempted last_status last_err g =
      (record { body = none; status = pos 502; error = last_err }, g)
  attempts inputs group pinned (suc left) nth attempted last_status last_err g =
      chosen last_status last_err g
        (λ lease.
          continue_with (attempts inputs group pinned left (suc nth) (lease.account_id ∷ attempted))
            (with_lease (inputs nth) nth lease g))
        (acquire_preferring whole_seconds (inputs nth).chosen_at g.chooser (criteria group) pinned
          attempted)

  -- Lines 1257 to 1398, with the tenant's permit.
  unfoldable pub serve :
      (ℕ → AttemptInputs) → Text → Bool → Link → Permit → Gateway → Response × Gateway
  unfolding attempts
  serve inputs group reachable back permit g =
      let pinned =
        lookup_pin digest lifetime reachable tenant.tenant_id tenant.session_key g.pins in
      let (r, g') = attempts inputs group pinned 2 1 [] (pos 0) none g in
      (r, record g' { counters = release back permit g'.counters })

  -- Lines 1257 to 1261: the tenant's permit, or a refusal.
  unfoldable pub admit :
      (ℕ → AttemptInputs) → Text → Bool → Link → Admission → Gateway → Response × Gateway
  unfolding serve
  admit inputs group reachable back (admitted permit) g = serve inputs group reachable back permit g
  admit inputs group reachable back other g = (failure (pos 429) (not_admitted other), g)

  unfoldable pub handle_non_streaming :
      (ℕ → AttemptInputs) → Text → Bool → Link → Link → ℕ → Bool → Gateway → Response × Gateway
  unfolding admit contains_unsupported_message_fields
  handle_non_streaming inputs group fresh link back unix reachable g =
      if is_empty tenant.tenant_id
      then (failure (pos 401) unauthenticated, g)
      else if is_empty request.model
      then (failure (pos 400) model_required, g)
      else if request.stream || contains_unsupported_message_fields request.messages
      then (failure (pos 400) unsupported, g)
      else if not fresh
      then (failure (pos 503) snapshot_not_fresh, g)
      else (let (a, counters) =
            acquire_tenant link tenant.tenant_id tenant.limits unix g.counters in
          admit inputs (if is_empty group then codes "default" else group) reachable back a
            (record g { counters = counters }))
