-- ===== src/Gateway/Server/Metering.antt =====
-- The events of a request: an attempt that is announced is released, or the caller is told that it is not.
use gateway_platform.Gateway.Limiter.{Link, down, unanswered, up}
use gateway_platform.Contracts.Types.{Lease, ErrorClass}
use gateway_platform.Gateway.Server.Attempt.{
  ServerError, Next, Response, conclude, Gateway, respond, AttemptInputs, release_failed,
  release_class, attempt_failed,
}
use gateway_platform.Contracts.Events.{
  StreamEvent, attempt_started_event, release_event, validate_stream_event,
}
use gateway_platform.Base.{
  ℕ, ◌≡◌, refl, List, [], ◌∷◌, ◌++◌, arith, Option, some, Bool, suc, inl, inr, Bool-cases, ◌⊎◌,
  false, true, is_some,
}
use gateway_platform.Base.Text.{Text}
use gateway_platform.Gateway.Server.Handler.{
  Setting, add_event, started_event, release_stream_event, attempts, send_event,
}

-- A start and the release of the same attempt.
abbrev pub IsPair : StreamEvent → StreamEvent → Type 0
IsPair s r =
    (s.event_type ≡ attempt_started_event)
    × (r.event_type ≡ release_event)
    × (s.attempt_id ≡ r.attempt_id)

-- The caller is told that the start or the release of an attempt could not be recorded.
abbrev pub Untold : Option ServerError → Type 0
Untold error = (error ≡ some attempt_failed) ⊎ (error ≡ some release_failed)

-- The events of a request that ends with `error`, in at most `attempts` attempts.
pub data Logged (error : Option ServerError) : ℕ → List StreamEvent → Type 0 where
  nothing_more : {attempts : ℕ} → Logged error attempts []
  unreleased :
      {attempts : ℕ} (s : StreamEvent)
      → s.event_type ≡ attempt_started_event
      → Untold error
      → Logged error (suc attempts) (s ∷ [])
  metered :
      {attempts : ℕ} (s r : StreamEvent) {es : List StreamEvent}
      → IsPair s r
      → Logged error attempts es
      → Logged error (suc attempts) (s ∷ r ∷ es)
  without_permit :
      {attempts : ℕ} {es : List StreamEvent}
      → Logged error attempts es
      → Logged error (suc attempts) es

-- The events of one attempt.
data Attempted : Next → List StreamEvent → Type 0 where
  silent : {n : Next} → Attempted n []
  cut_off :
      {n : Next} (s : StreamEvent) (r : Response)
      → s.event_type ≡ attempt_started_event
      → n ≡ respond r
      → Untold r.error
      → Attempted n (s ∷ [])
  complete_pair : {n : Next} (s r : StreamEvent) → IsPair s r → Attempted n (s ∷ r ∷ [])

pub conclude-stream :
    (i : AttemptInputs) (lease : Lease) (model : Text) (nth : ℕ) (class : ErrorClass) (g : Gateway)
    → (conclude i lease model nth class g).1.stream ≡ g.stream
unfolding conclude
conclude-stream i lease model nth class g = ground arith

module _ (setting : Setting) where
  -- An event is appended, or the stream stays; an error is no proof that it stays.
  pub add_event-cases :
      (link : Link) (e : StreamEvent) (es : List StreamEvent)
      → (add_event setting link e es ≡ (es, false))
        ⊎ ((b : Bool) × (add_event setting link e es ≡ (es ++ e ∷ [], b)))
  unfolding add_event send_event
  add_event-cases link e es =
      elim (Bool-cases (is_some (validate_stream_event setting.json_valid e))) [
        | inl h ↦ inl (rw h refl)
        | inr h ↦ rw h (sent link)
      ]
    where
      sent :
          (link : Link)
          → (send_event setting link e es ≡ (es, false))
            ⊎ ((b : Bool) × (send_event setting link e es ≡ (es ++ e ∷ [], b)))
      sent down = inl refl
      sent unanswered = inr (false, refl)
      sent up = inr (true, refl)

  -- The stream grows by the events of an attempt.
  abbrev GrowsFrom : List StreamEvent → Next × Gateway → Type 0
  GrowsFrom before p = (es : List StreamEvent) × (p.1.stream ≡ before ++ es) × Attempted p.0 es

  abbrev Grows : Gateway → Next × Gateway → Type 0
  Grows g p = GrowsFrom g.stream p

  -- The two events of an attempt.
  abbrev start_of : AttemptInputs → Lease → ℕ → StreamEvent
  start_of i lease nth = started_event setting i lease nth

  abbrev end_of : AttemptInputs → Lease → ℕ → StreamEvent
  end_of i lease nth = release_stream_event setting i lease nth (release_class lease i.answer)

  -- A response and the events that the stream has gained.
  abbrev pub Answered : ℕ → Gateway → Response × Gateway → Type 0
  Answered left g p =
      (es : List StreamEvent) × (p.1.stream ≡ g.stream ++ es) × Logged p.0.error left es
