-- ===== src/Gateway/Server/Served.antt =====
-- What a request is answered with: the body of an attempt that upstream served and metered.
use gateway_platform.Gateway.Chooser.Select.{
  AcquireError, Acquired, quota_exhausted, refused, snapshot_stale, egress_refused, leased,
  no_account,
}
use gateway_platform.Gateway.Limiter.{
  release, acquire, Link, rate_limited, tenant_rate_limited, unavailable,
}
use gateway_platform.Gateway.Server.Metering.{add_event-cases, conclude-stream}
use gateway_platform.Gateway.Limiter.{Permit, Admission, Counters, release, admitted, acquire}
use gateway_platform.Contracts.Events.{StreamEvent}
use gateway_platform.Gateway.Server.Handler.{
  Setting, with_permit, with_lease, add_event, release_stream_event, admit_lease, pin_session,
  started_event, continue_with, chosen, attempts, admit, handle_non_streaming, serve, after_release,
  after_start,
}
use gateway_platform.Base.Int.{ltb_ℤ, pos, ℤ}
use gateway_platform.Gateway.Server.Answer.{Answer, contains_unsupported_message_fields}
use gateway_platform.Gateway.Server.Attempt.{
  conclude, release_class, integrity_failover, AttemptInputs, Gateway, opts_out, Response, respond,
  Next, release_failed, not_admitted, not_chosen, again, ServerError, failure, attempt_failed,
}
use gateway_platform.Contracts.Types.{Lease, ok, ErrorClass}
use gateway_platform.Base.{
  ℕ, true, false, ◌≡◌, arith, some, ◌⊎◌, is_some, List, ◌++◌, ◌∷◌, [], ◌∙◌, ap, inl, inr, Option,
  none, Bool, suc, Bool-cases, refl, zero, sym, ◌||◌, not,
}
use gateway_platform.Base.Text.{Text, is_empty}

-- Upstream served the attempt under the lease, and metered it unless the lease opts out of that.
abbrev pub IsServed : Lease → Answer → Type 0
IsServed lease a =
    (a.network_failed ≡ false)
    × (ltb_ℤ a.status (pos 400) ≡ true)
    × ((is_some a.usage ≡ true) ⊎ (opts_out lease.usage_integrity ≡ true))

conclude-body :
    (i : AttemptInputs) (lease : Lease) (model : Text) (nth : ℕ) (class : ErrorClass) (g : Gateway)
    (r : Response) (body : Text)
    → (conclude i lease model nth class g).0 ≡ respond r
    → r.body ≡ some body
    → (i.answer.body ≡ body) × IsServed lease i.answer
unfolding conclude integrity_failover
conclude-body i lease model nth class g r body e b = ground arith

release_class-ok : (lease : Lease) (a : Answer) → IsServed lease a → release_class lease a ≡ ok
unfolding release_class integrity_failover
release_class-ok lease a h = ground arith

body_of : Next → Option Text
body_of (respond r) = r.body
body_of (again _ _) = none

none-ne-some : {body : Text} → none ≡ some body → ⊥
none-ne-some e = cc

module _ (setting : Setting) where
  -- The attempt served the body, and the stream ends with its release, of class ok.
  abbrev pub Ended : AttemptInputs → ℕ → Lease → Text → Gateway → Type 0
  Ended i nth lease body g =
      (i.answer.body ≡ body)
      × IsServed lease i.answer
      × ((before : List StreamEvent) × (g.stream
            ≡ before ++ release_stream_event setting i lease nth ok ∷ []))

  Released : AttemptInputs → ℕ → Lease → Text → Next × Gateway → Type 0
  Released i nth lease body p =
      (r : Response) → p.0 ≡ respond r → r.body ≡ some body → Ended i nth lease body p.1

  failure-Released :
      (i : AttemptInputs) (nth : ℕ) (lease : Lease) (body : Text) (status : ℤ) (e : ServerError)
      (g : Gateway)
      → Released i nth lease body (respond (failure status e), g)
  unfolding Released body_of
  failure-Released i nth lease body status e g r q b = absurd (none-ne-some (ap body_of q ∙ b))

  after_release-Released :
      (i : AttemptInputs) (lease : Lease) (nth : ℕ) (g : Gateway) (body : Text)
      (es : List StreamEvent) (p : List StreamEvent × Bool)
      → (p.0 ≡ es ++ release_stream_event setting i lease nth (release_class lease i.answer) ∷ [])
        ⊎ (p.1 ≡ false)
      → Released i nth lease body
          (after_release setting i lease nth (release_class lease i.answer) g p)
  unfolding after_release Released
  after_release-Released i lease nth g body es (gs, false) h r q b =
      failure-Released i nth lease body (pos 503) release_failed (record g { stream = gs }) r q b
  after_release-Released i lease nth g body es (gs, true) (inr e) r q b = cc
  after_release-Released i lease nth g body es (gs, true) (inl e) r q b =
      let (same, served) = conclude-body i lease setting.request.model nth _ _ r body q b in
      (
        same,
        served,
        (
          es,
          conclude-stream i lease setting.request.model nth (release_class lease i.answer) _
              ∙ e
              ∙ ap (λ class. es ++ release_stream_event setting i lease nth class ∷ [])
                  (release_class-ok lease i.answer served),
        ),
      )

  sent_or_failed :
      (link : Link) (e : StreamEvent) (es : List StreamEvent)
      → ((add_event setting link e es).0 ≡ es ++ e ∷ []) ⊎ ((add_event setting link e es).1 ≡ false)
  sent_or_failed link e es = elim (add_event-cases setting link e es) [
    | inl h ↦ inr (ap (λ p. p.1) h)
    | inr (b, h) ↦ inl (ap (λ p. p.0) h)
  ]

  after_start-Released :
      (i : AttemptInputs) (lease : Lease) (nth : ℕ) (g : Gateway) (body : Text)
      (p : List StreamEvent × Bool)
      → Released i nth lease body (after_start setting i lease nth g p)
  unfolding after_start Released
  after_start-Released i lease nth g body (es, false) =
      failure-Released i nth lease body (pos 503) attempt_failed (record g { stream = es })
  after_start-Released i lease nth g body (es, true) =
      after_release-Released i lease nth g body es _ (
        sent_or_failed i.release_appended
          (release_stream_event setting i lease nth (release_class lease i.answer)) es)

  with_permit-Released :
      (i : AttemptInputs) (lease : Lease) (nth : ℕ) (permit : Permit) (g : Gateway) (body : Text)
      → Released i nth lease body (with_permit setting i lease nth permit g)
  unfolding with_permit Released
  with_permit-Released i lease nth permit g body =
      after_start-Released i lease nth
        (record g { counters = release i.given_back permit g.counters }) body
        (add_event setting i.start_appended (started_event setting i lease nth) g.stream)

  with_lease-Released :
      (i : AttemptInputs) (nth : ℕ) (lease : Lease) (g : Gateway) (body : Text)
      → Released i nth lease body (with_lease setting i nth lease g)
  unfolding with_lease Released
  with_lease-Released i nth lease g body =
      entered (acquire i.link lease.account_id lease.limits i.unix g.counters)
    where
      entered :
          (a : Admission × Counters)
          → Released i nth lease body (
              admit_lease setting i nth lease
                (record g { pins = pin_session setting i.pinning lease g.pins })
                a)
      entered (admitted permit, counters) = with_permit-Released i lease nth permit _ body
      entered (rate_limited, counters) =
          failure-Released i nth lease body (pos 429) (not_admitted rate_limited)
            (record g { pins = pin_session setting i.pinning lease g.pins; counters = counters })
      entered (tenant_rate_limited, counters) =
          failure-Released i nth lease body (pos 429) (not_admitted tenant_rate_limited)
            (record g { pins = pin_session setting i.pinning lease g.pins; counters = counters })
      entered (unavailable, counters) =
          failure-Released i nth lease body (pos 429) (not_admitted unavailable)
            (record g { pins = pin_session setting i.pinning lease g.pins; counters = counters })

  -- A request that is answered with a body was served it by one of its attempts.
  abbrev pub FromAttempt : (ℕ → AttemptInputs) → Text → Response × Gateway → Type 0
  FromAttempt inputs body p =
      p.0.body ≡ some body → (nth : ℕ) × (lease : Lease) × Ended (inputs nth) nth lease body p.1

  continue_with-FromAttempt :
      (inputs : ℕ → AttemptInputs) (body : Text) (nth : ℕ) (lease : Lease)
      (more : ℤ → Option ServerError → Gateway → Response × Gateway) (p : Next × Gateway)
      → Released (inputs nth) nth lease body p
      → ((status : ℤ) (err : Option ServerError) (g : Gateway)
          → FromAttempt inputs body (more status err g))
      → FromAttempt inputs body (continue_with more p)
  unfolding continue_with Released
  continue_with-FromAttempt inputs body nth lease more (respond r, g) released h b =
      (nth, lease, released r refl b)
  continue_with-FromAttempt inputs body nth lease more (again status err, g) released h b =
      h status err g b

  not_chosen-body :
      (e : AcquireError) (last_status : ℤ) (last_err : Option ServerError)
      → (not_chosen e last_status last_err).body ≡ none
  unfolding not_chosen
  not_chosen-body quota_exhausted last_status none = refl
  not_chosen-body snapshot_stale last_status none = refl
  not_chosen-body egress_refused last_status none = refl
  not_chosen-body no_account last_status none = refl
  not_chosen-body quota_exhausted last_status (some last) = refl
  not_chosen-body snapshot_stale last_status (some last) = refl
  not_chosen-body egress_refused last_status (some last) = refl
  not_chosen-body no_account last_status (some last) = refl

  chosen-FromAttempt :
      (inputs : ℕ → AttemptInputs) (body : Text) (last_status : ℤ) (last_err : Option ServerError)
      (g : Gateway) (attempt : Lease → Response × Gateway) (a : Acquired)
      → ((lease : Lease) → FromAttempt inputs body (attempt lease))
      → FromAttempt inputs body (chosen last_status last_err g attempt a)
  unfolding chosen
  chosen-FromAttempt inputs body last_status last_err g attempt (refused e) h b =
      absurd (none-ne-some (sym (not_chosen-body e last_status last_err) ∙ b))
  chosen-FromAttempt inputs body last_status last_err g attempt (leased lease) h b = h lease b

  attempts-FromAttempt :
      (inputs : ℕ → AttemptInputs) (body group pinned : Text) (left nth : ℕ) (attempted : List Text)
      (last_status : ℤ) (last_err : Option ServerError) (g : Gateway)
      → FromAttempt inputs body
          (attempts setting inputs group pinned left nth attempted last_status last_err g)
  unfolding attempts
  attempts-FromAttempt inputs body group pinned zero nth attempted last_status last_err g =
      λ b. absurd (none-ne-some b)
  attempts-FromAttempt inputs body group pinned (suc left) nth attempted last_status last_err g =
      chosen-FromAttempt inputs body last_status last_err g _ _ (λ lease.
        continue_with-FromAttempt inputs body nth lease _
          (with_lease setting (inputs nth) nth lease g)
          (with_lease-Released (inputs nth) nth lease g body)
          (λ status err g'.
            attempts-FromAttempt inputs body group pinned left (suc nth)
              (lease.account_id ∷ attempted) status err g'))

  admit-FromAttempt :
      (inputs : ℕ → AttemptInputs) (body group : Text) (reachable : Bool) (back : Link)
      (a : Admission) (g : Gateway)
      → FromAttempt inputs body (admit setting inputs group reachable back a g)
  unfolding admit serve
  admit-FromAttempt inputs body group reachable back (admitted permit) g =
      attempts-FromAttempt inputs body group _ 2 1 [] (pos 0) none g
  admit-FromAttempt inputs body group reachable back rate_limited g = λ b. absurd (none-ne-some b)
  admit-FromAttempt inputs body group reachable back tenant_rate_limited g =
      λ b. absurd (none-ne-some b)
  admit-FromAttempt inputs body group reachable back unavailable g = λ b. absurd (none-ne-some b)

handled-FromAttempt :
    (setting : Setting) (inputs : ℕ → AttemptInputs) (body group : Text) (fresh : Bool)
    (link back : Link) (unix : ℕ) (reachable : Bool) (g : Gateway)
    → FromAttempt setting inputs body
        (handle_non_streaming setting inputs group fresh link back unix reachable g)
unfolding handle_non_streaming
handled-FromAttempt setting inputs body group fresh link back unix reachable g =
    elim (Bool-cases (is_empty setting.tenant.tenant_id)) [
      | inl e ↦ rw e (λ b. absurd (none-ne-some b))
      | inr e ↦ rw e (elim (Bool-cases (is_empty setting.request.model)) [
        | inl f ↦ rw f (λ b. absurd (none-ne-some b))
        | inr f ↦
            rw f
              (elim (Bool-cases (
                setting.request.stream
                || contains_unsupported_message_fields setting.request.messages)) [
                  | inl u ↦ rw u (λ b. absurd (none-ne-some b))
                  | inr u ↦ rw u (elim (Bool-cases (not fresh)) [
                    | inl v ↦ rw v (λ b. absurd (none-ne-some b))
                    | inr v ↦ rw v (admit-FromAttempt setting inputs body _ reachable back _ _)
                  ])
                ])
      ])
    ]

-- A request is answered with a body only if it is the body of an attempt that upstream served, with its
-- usage unless the provider opts out of it, and whose release, of class ok, ends the stream.
pub handled_served :
    (setting : Setting) (inputs : ℕ → AttemptInputs) (group : Text) (fresh : Bool)
    (link back : Link) (unix : ℕ) (reachable : Bool) (g : Gateway) (body : Text)
    → (handle_non_streaming setting inputs group fresh link back unix reachable g).0.body
      ≡ some body
    → (nth : ℕ) × (lease : Lease) × Ended setting
        (inputs nth)
        nth
        lease
        body
        (handle_non_streaming setting inputs group fresh link back unix reachable g).1
handled_served setting inputs group fresh link back unix reachable g body =
    handled-FromAttempt setting inputs body group fresh link back unix reachable g
