-- ===== src/Gateway/Server/Attempt.antt =====
-- internal/gateway/server.go: what a request reads and writes, the class of its release, and what an
-- attempt that has its answer leads to.
use gateway_platform.Base.{
  ℕ, Bool, true, false, not, ◌&&◌, Option, none, some, List, [], ltb, if◌then◌else◌, ◌==◌, nat_eq,
  list_eq, get_or, is_some,
}
use gateway_platform.Base.Int.{ℤ, pos, leb_ℤ, ltb_ℤ, int_eq}
use gateway_platform.Base.Text.{Text, is_empty, codes}
use gateway_platform.Contracts.Types.{
  Time, Lease, ErrorClass, ok, auth_invalid, network_error, usage_missing, forbidden_transport,
  UsageIntegrity, zero_cost, estimated_cost,
}
use gateway_platform.Contracts.Events.{StreamEvent}
use gateway_platform.Gateway.Chooser.{Chooser}
use gateway_platform.Gateway.Chooser.Select.{AcquireError, quota_exhausted}
use gateway_platform.Gateway.Chooser.Cooldowns.{mark_failure, mark_egress_rejected}
use gateway_platform.Gateway.Limiter.{Counters, Link, Admission, TenantLimits}
use gateway_platform.Gateway.Sticky.{Pins}
use gateway_platform.Gateway.Server.Answer.{
  Answer, Usage, classify_http_with_reset, should_failover_status,
}

pub record Server : Type 0 where
  pub provider : Text
  pub choose_all_platforms : Bool
  pub producer_id : Text
  pub request_timeout : ℤ

-- What a request reads and writes.
pub record Gateway : Type 0 where
  pub chooser : Chooser
  pub counters : Counters
  pub pins : Pins
  pub stream : List StreamEvent

pub record Tenant : Type 0 where
  pub tenant_id : Text
  pub session_key : Text
  pub limits : TenantLimits

pub record AttemptInputs : Type 0 where
  pub chosen_at : Time
  pub pinning : Bool
  pub link : Link
  pub given_back : Link
  pub unix : ℕ
  pub attempt_id : Text
  pub start_id : Text
  pub started_at : Time
  pub start_appended : Link
  pub answer : Answer
  pub ended_at : Time
  pub latency_ms : ℤ
  pub release_appended : Link
  pub marked_at : Time
  pub jitter : Option ℕ

pub data ServerError : Type 0 where
  unauthenticated model_required unsupported snapshot_not_fresh : ServerError
  attempt_failed release_failed network usage_unavailable call_error : ServerError
  not_admitted : Admission → ServerError
  not_leased : AcquireError → ServerError
  upstream_status : ℤ → ServerError

pub record Response : Type 0 where
  pub body : Option Text
  pub status : ℤ
  pub error : Option ServerError

abbrev pub failure : ℤ → ServerError → Response
failure status e = record { body = none; status = status; error = some e }

-- What an attempt leads to: a response, or another attempt with lastStatus and lastErr.
pub data Next : Type 0 where
  respond : Response → Next
  again : ℤ → Option ServerError → Next

unfoldable pub lease_provider : Server → Lease → Text
lease_provider s lease = if is_empty lease.provider then s.provider else lease.provider

unfoldable pub criteria_platform : Server → Text
criteria_platform s = if s.choose_all_platforms then [] else s.provider

abbrev pub opts_out : UsageIntegrity → Bool
opts_out zero_cost = true
opts_out estimated_cost = true
opts_out _ = false

unfoldable pub integrity_failover : Lease → Answer → Bool
integrity_failover lease a =
    not a.network_failed
    && ltb_ℤ a.status (pos 400)
    && not (is_some a.usage)
    && not (opts_out lease.usage_integrity)

-- A network error, or the class of a status of 400 and above, or the lack of usage.
unfoldable pub release_class : Lease → Answer → ErrorClass
unfolding classify_http_with_reset integrity_failover
release_class lease a =
    if a.network_failed
    then network_error
    else if leb_ℤ (pos 400) a.status
    then (if a.status == pos 401 && lease.credential.kind == codes "static"
        then auth_invalid
        else classify_http_with_reset a.status a.body a.reset)
    else if integrity_failover lease a
    then usage_missing
    else ok

abbrev pub no_usage : Usage
no_usage = record { input = pos 0; output = pos 0; cache_read = pos 0; cache_write = pos 0 }

-- Line 1798: the failure goes to the path or to the account.
unfoldable pub mark_transport_or_account :
    AttemptInputs → Lease → Text → ErrorClass → ℤ → Chooser → Chooser
mark_transport_or_account i lease model forbidden_transport reset c =
    (mark_egress_rejected i.jitter i.marked_at c lease).0
mark_transport_or_account i lease model class reset c =
    mark_failure i.jitter i.marked_at c lease.account_id model class reset

abbrev pub bad_gateway : ℤ → ℤ
bad_gateway status = if status == pos 0 then pos 502 else status

-- The refusal of the chooser, or what the attempt before it failed with.
unfoldable pub not_chosen : AcquireError → ℤ → Option ServerError → Response
not_chosen e last_status (some last) = failure (bad_gateway last_status) last
not_chosen quota_exhausted last_status none = failure (pos 429) (not_leased quota_exhausted)
not_chosen e last_status none = failure (pos 503) (not_leased e)

-- Lines 1340 to 1395, behind the release: `nth` is the number of the attempt.
unfoldable pub conclude : AttemptInputs → Lease → Text → ℕ → ErrorClass → Gateway → Next × Gateway
unfolding integrity_failover should_failover_status mark_transport_or_account
conclude i lease model nth class g =
    let a = i.answer in
    if a.network_failed
    then (respond (failure (pos 502) network), g)
    else if leb_ℤ (pos 400) a.status
    then (let g' = record g {
      chooser = mark_transport_or_account i lease model class a.reset g.chooser;
    } in
        let last = if a.call_failed then some call_error else none in
        if should_failover_status a.status && ltb nth 2 then (again a.status last, g') else (
          respond (failure (bad_gateway a.status) (get_or (upstream_status a.status) last)),
          g',
        ))
    else if not (is_some a.usage) && integrity_failover lease a
    then (if ltb nth 2
        then (again (pos 502) (some usage_unavailable), g)
        else (respond (failure (pos 502) usage_unavailable), g))
    else (respond (record { body = some a.body; status = pos 200; error = none }), g)
