-- ===== src/Tests/Server.antt =====
-- A request whose first attempt upstream fails, and whose second attempt, with another account, is answered.
use gateway_platform.Gateway.Server.Served.{Ended, handled_served}
use gateway_platform.Base.Map.{lookup}
use gateway_platform.Gateway.Chooser.Select.{has_quota}
use gateway_platform.Gateway.Chooser.Select.{egress_blocked}
use gateway_platform.Gateway.Chooser.Select.{is_cooling}
use gateway_platform.Gateway.Chooser.Select.{supports}
use gateway_platform.Gateway.Chooser.Select.{credential_expired}
use gateway_platform.Base.{list_beq}
use gateway_platform.Gateway.Chooser.Select.{platform_differs}
use gateway_platform.Base.Sort.{sort_strings}
use gateway_platform.Gateway.Chooser.Select.{acquire_preferring, is_stale}
use gateway_platform.Gateway.Limiter.{unanswered}
use gateway_platform.Gateway.Limiter.{
  up, acquire_tenant, acquire_keys, acquire_script, increment, count_minute, unanswered,
}
use gateway_platform.Base.Int.{pos, pos_part}
use gateway_platform.Gateway.Chooser.{new_chooser}
use gateway_platform.Gateway.Sticky.{lookup_pin}
use gateway_platform.Gateway.Limiter.{acquire, release, release_script}
use gateway_platform.Contracts.Events.{validate_stream_event}
use gateway_platform.Base.Int.{int_beq}
use gateway_platform.Gateway.Chooser.Cooldowns.{mark_failure}
use gateway_platform.Base.Text.{codes, Text}
use gateway_platform.Gateway.Server.Attempt.{Gateway, AttemptInputs, no_usage}
use gateway_platform.Gateway.Server.Answer.{Answer}
use gateway_platform.Gateway.Server.Handler.{Setting, handle_non_streaming}
use gateway_platform.Contracts.Types.{Account, unset, failover, Lease}
use gateway_platform.Base.{
  ◌≡◌, ℕ, ◌/◌, [], true, ◌∷◌, false, ◌++◌, some, none, refl, if◌then◌else◌, ◌==◌, nat_eq,
}

abbrev account : Text → Account
account id = record {
  id = id;
  provider = codes "kiro";
  platform = codes "p";
  group = codes "default";
  credential = record {
    kind = codes "oauth";
    access_token = codes "token";
    proxy = [];
    metadata = [];
    expires_at = 0;
    version = pos 1;
  };
  profile = record {
    base_url = codes "https://up";
    proxy = [];
    protocol = [];
    inference_path = [];
    tls_fingerprint = [];
    user_agent = [];
    extra_headers = [];
    metadata = [];
    ws = false;
  };
  limits = record {
    max_concurrency = pos 2;
    rpm = pos 0;
    sticky_ttl = pos 0;
    degrade_policy = unset;
  };
  status = codes "active";
  fence_epoch = pos 1;
  quota = record { items = [] };
  capabilities = [];
  excluded_models = [];
  usage_integrity = failover;
}

abbrev setting : Setting
setting = record {
  whole_seconds = λ d. d / 1000000000;
  digest = λ s. s;
  lifetime = λ ttl. pos_part ttl / 1000000;
  terminal_event_id = λ s. codes "t-" ++ s;
  json_valid = λ b. true;
  marshal_started = λ a. codes "{}";
  marshal_release = λ r. codes "{}";
  server = record {
    provider = codes "p";
    choose_all_platforms = false;
    producer_id = codes "gateway";
    request_timeout = pos 0;
  };
  tenant = record {
    tenant_id = codes "t";
    session_key = [];
    limits = record { max_concurrency = pos 1; rpm = pos 0 };
  };
  request = record { model = codes "m"; messages = []; stream = false };
  request_id = codes "r";
  inbound_protocol = codes "openai";
}

abbrev answer : ℕ → Answer
answer n = record {
  body = codes "hello";
  status = if n == 1 then pos 503 else pos 200;
  usage = if n == 1 then none else some no_usage;
  network_failed = false;
  reset = pos 0;
  call_failed = n == 1;
}

abbrev inputs : ℕ → AttemptInputs
inputs n = record {
  chosen_at = 10;
  pinning = true;
  link = up;
  given_back = up;
  unix = 0;
  attempt_id = codes "a" ++ n ∷ [];
  start_id = codes "s" ++ n ∷ [];
  started_at = 11;
  start_appended = up;
  answer = answer n;
  ended_at = 12;
  latency_ms = pos 1;
  release_appended = up;
  marked_at = 13;
  jitter = none;
}

abbrev gateway : Gateway
gateway = record {
  chooser = record new_chooser {
    accounts = (codes "a", account (codes "a")) ∷ (codes "b", account (codes "b")) ∷ [];
  };
  counters = record { clock = 0; counts = λ _. none };
  pins = record { clock = 10; pinned = λ _. none };
  stream = [];
}

answered :
    (handle_non_streaming setting inputs [] true up up 0 true gateway).0.body ≡ some (codes "hello")
unfolding handle_non_streaming acquire_tenant acquire_keys acquire_script increment count_minute
    acquire_preferring sort_strings is_stale new_chooser platform_differs list_beq
    credential_expired supports is_cooling egress_blocked has_quota lookup lookup_pin acquire
    validate_stream_event int_beq mark_failure release release_script
answered = refl

handled_served_example :
    (nth : ℕ) × (lease : Lease) × Ended setting
      (inputs nth)
      nth
      lease
      (codes "hello")
      (handle_non_streaming setting inputs [] true up up 0 true gateway).1
handled_served_example =
    handled_served setting inputs [] true up up 0 true gateway (codes "hello") answered
