-- ===== src/Stream/Metered.antt =====
-- The ledger behind the stream.
use gateway_platform.Contracts.Types.{Time}
use gateway_platform.Stream.Rounds.{
  until_error, process_all, recover, run_once, Round, with_tables, recovery, read_fresh,
}
use gateway_platform.Control.Ledger.Reachable.{
  Reach, Reach-LedgerInv, started, released, recovered, empty,
}
use gateway_platform.Control.Ledger.Once.{Derived, LedgerInv}
use gateway_platform.Stream.Envelope.{decode}
use gateway_platform.Contracts.Events.{
  validate_release, StreamEvent, EventType, Release, AttemptStarted, other_event,
  validate_stream_event, attempt_started_event, release_event, validate_attempt_started,
}
use gateway_platform.Base.Map.{update}
use gateway_platform.Base.Text.{Text}
use gateway_platform.Control.Ledger.{Tables, recover_attempts, empty_tables}
use gateway_platform.Stream.Consumer.{
  Codec, StreamMessage, acknowledge, bury, after_handler, counted_delivery, after_count, with_check,
  process, drop_retries, Outcome, dead_letter, Calls, DeadEntry, Payload, Category, Bus, check,
  failed, handle, unanswered, answered, max_retries, started_payload, release_payload, payload_of,
  checked_event, checked_release, checked_started, same_release, same_attempt, invalid_json,
  invalid_envelope, invalid_contract,
}
use gateway_platform.Base.{
  inl, inr, ◌≡◌, ◌⊎◌, Bool, ℕ, Bool-cases, refl, ap, ltb, sym, nat_eq, list_eq, ◌∙◌, false, true,
  Option, subst, is_some, some, ==→eq, not, arith, ◌||◌, none, List, ◌∷◌, [],
}

module _ (codec : Codec) where
  -- The tables stay, or the handler has run on the payload of the message.
  abbrev Steps : StreamMessage → Tables → Tables → Type 0
  Steps m t t' = (t' ≡ t) ⊎ ((p : Payload) × (check codec m ≡ inr p) × (t' ≡ (handle p t).0))

  acknowledge-tables :
      (o d : Outcome) (id : Text) (b : Bus) → (acknowledge o d id b).0.tables ≡ b.tables
  unfolding acknowledge drop_retries
  acknowledge-tables failed d id b = refl
  acknowledge-tables unanswered d id b = refl
  acknowledge-tables answered failed id b = refl
  acknowledge-tables answered unanswered id b = refl
  acknowledge-tables answered answered id b = refl

  bury-tables :
      (o : Outcome) (c : Calls) (e : DeadEntry) (b : Bus) → (bury o c e b).0.tables ≡ b.tables
  unfolding bury
  bury-tables failed c e b = refl
  bury-tables unanswered c e b = refl
  bury-tables answered c e b = acknowledge-tables c.acknowledged c.dropped e.original_id _

  after_handler-Steps :
      (o : Outcome) (c : Calls) (m : StreamMessage) (p : Payload) (result : Tables × Bool) (b : Bus)
      → check codec m ≡ inr p
      → handle p b.tables ≡ result
      → Steps m b.tables (after_handler codec o c m.message_id result b).0.tables
  unfolding after_handler
  after_handler-Steps failed c m p result b v h = inl refl
  after_handler-Steps unanswered c m p (t, fine) b v h = inr (p, v, ap (λ r. r.0) (sym h))
  after_handler-Steps answered c m p (t, false) b v h = inr (p, v, ap (λ r. r.0) (sym h))
  after_handler-Steps answered c m p (t, true) b v h = inr (
    p,
    v,
    acknowledge-tables c.acknowledged c.dropped m.message_id (record b { tables = t })
        ∙ ap (λ r. r.0) (sym h),
  )

  counted_delivery-Steps :
      (c : Calls) (m : StreamMessage) (p : Payload) (attempt : ℕ) (b : Bus)
      → check codec m ≡ inr p
      → Steps m b.tables (counted_delivery codec c m p attempt b).0.tables
  unfolding counted_delivery dead_letter
  counted_delivery-Steps c m p attempt b v = elim (Bool-cases (ltb max_retries attempt)) [
    | inl e ↦ rw (e, counted_delivery) (inl (bury-tables c.dead_added c _ b))
    | inr e ↦
        rw (e, counted_delivery) (after_handler-Steps c.handled c m p (handle p b.tables) b v refl)
  ]

  after_count-Steps :
      (o : Outcome) (c : Calls) (m : StreamMessage) (p : Payload) (attempt : ℕ) (b : Bus)
      → check codec m ≡ inr p
      → Steps m b.tables (after_count codec o c m p attempt b).0.tables
  unfolding after_count
  after_count-Steps failed c m p attempt b v = inl refl
  after_count-Steps unanswered c m p attempt b v = inl refl
  after_count-Steps answered c m p attempt b v =
      counted_delivery-Steps c m p attempt
        (record b { retries = update b.retries m.message_id attempt }) v

  with_check-Steps :
      (c : Calls) (m : StreamMessage) (checked : Category ⊎ Payload) (b : Bus)
      → check codec m ≡ checked
      → Steps m b.tables (with_check codec c m checked b).0.tables
  unfolding with_check dead_letter
  with_check-Steps c m (inl category) b v = inl (bury-tables c.dead_added c _ b)
  with_check-Steps c m (inr p) b v = after_count-Steps c.counted c m p _ b v

  process-Steps :
      (c : Calls) (m : StreamMessage) (b : Bus) → Steps m b.tables (process codec c m b).0.tables
  unfolding process
  process-Steps c m b = with_check-Steps c m (check codec m) b refl

  abbrev Reached : Tables → Type 0
  Reached = Reach codec.terminal_event_id

  not_valid : (c : Category) (p : Payload) → inl c ≡ inr p → ⊥
  not_valid c p e = cc

  -- A release that is handled has the event id of its attempt.
  IsDerived : Payload → Type 0
  IsDerived (started_payload p) = Unit
  IsDerived (release_payload r) = Derived codec.terminal_event_id r

  valid_release-Derived :
      (r : Release)
      → is_some (validate_release codec.terminal_event_id r) ≡ false
      → Derived codec.terminal_event_id r
  unfolding validate_release
  valid_release-Derived r h =
      ==→eq r.event_id (codec.terminal_event_id r.attempt_id) (ground (arith, h))

  checked_release-IsDerived :
      (e : StreamEvent) (found : Option Release) (p : Payload)
      → checked_release codec e found ≡ inr p
      → IsDerived p
  unfolding IsDerived
  checked_release-IsDerived e none p h = absurd (not_valid invalid_json p h)
  checked_release-IsDerived e (some r) p h =
      elim (Bool-cases
        (not (same_release e r) || is_some (validate_release codec.terminal_event_id r))) [
          | inl f ↦ absurd (not_valid invalid_contract p (ground (arith, h, f)))
          | inr f ↦
              let same : release_payload r ≡ p = ground (arith, h, f) in
              subst IsDerived same (valid_release-Derived r (ground (arith, f)))
        ]

  checked_started-IsDerived :
      (e : StreamEvent) (found : Option AttemptStarted) (p : Payload)
      → checked_started codec e found ≡ inr p
      → IsDerived p
  unfolding IsDerived
  checked_started-IsDerived e none p h = absurd (not_valid invalid_json p h)
  checked_started-IsDerived e (some a) p h =
      elim (Bool-cases (not (same_attempt e a) || is_some (validate_attempt_started a))) [
        | inl f ↦ absurd (not_valid invalid_contract p (ground (arith, h, f)))
        | inr f ↦ let same : started_payload a ≡ p = ground (arith, h, f) in subst IsDerived same tt
      ]

  payload_of-IsDerived :
      (t : EventType) (e : StreamEvent) (p : Payload) → payload_of codec t e ≡ inr p → IsDerived p
  payload_of-IsDerived attempt_started_event e p h = checked_started-IsDerived e _ p h
  payload_of-IsDerived release_event e p h = checked_release-IsDerived e _ p h
  payload_of-IsDerived (other_event s) e p h = checked_release-IsDerived e _ p h

  checked_event-IsDerived :
      (found : Option StreamEvent) (p : Payload) → checked_event codec found ≡ inr p → IsDerived p
  checked_event-IsDerived none p h = absurd (not_valid invalid_envelope p h)
  checked_event-IsDerived (some e) p h =
      elim (Bool-cases (is_some (validate_stream_event codec.json_valid e))) [
        | inl f ↦ absurd (not_valid invalid_contract p (ground (arith, h, f)))
        | inr f ↦ payload_of-IsDerived e.event_type e p (ground (arith, h, f))
      ]

  check-IsDerived : (m : StreamMessage) (p : Payload) → check codec m ≡ inr p → IsDerived p
  unfolding check
  check-IsDerived m p h =
      checked_event-IsDerived (decode codec.format_time codec.parse_time m.values) p h

  handle-Reached : (p : Payload) (t : Tables) → IsDerived p → Reached t → Reached (handle p t).0
  unfolding handle IsDerived
  handle-Reached (started_payload a) t d r = started a r
  handle-Reached (release_payload a) t d r = released a d r

  process-Reached :
      (c : Calls) (m : StreamMessage) (b : Bus)
      → Reached b.tables
      → Reached (process codec c m b).0.tables
  process-Reached c m b r = elim (process-Steps c m b) [
    | inl e ↦ subst Reached (sym e) r
    | inr (p, v, e) ↦ subst Reached (sym e) (handle-Reached p b.tables (check-IsDerived m p v) r)
  ]

  until_error-Reached :
      (next : Bus → Bus × Bool) (p : Bus × Bool)
      → ((b : Bus) → Reached b.tables → Reached (next b).0.tables)
      → Reached p.0.tables
      → Reached (until_error codec next p).0.tables
  until_error-Reached next (b, true) h r = h b r
  until_error-Reached next (b, false) h r = r

  process_all-Reached :
      (ms : List (Calls × StreamMessage)) (b : Bus)
      → Reached b.tables
      → Reached (process_all codec ms b).0.tables
  unfolding process_all
  process_all-Reached [] b r = r
  process_all-Reached ((c, m) ∷ ms) b r =
      until_error-Reached (process_all codec ms) (process codec c m b) (process_all-Reached ms)
        (process-Reached c m b r)

  with_tables-Reached :
      (fine : Bool) (t : Option Tables) (b : Bus) (now before : Time)
      → recover_attempts codec.terminal_event_id now before b.tables ≡ t
      → Reached b.tables
      → Reached (with_tables codec fine t b).0.tables
  with_tables-Reached fine none b now before e r = r
  with_tables-Reached fine (some t) b now before e r = recovered now before r e

  recover-Reached :
      (o : Outcome) (now before : Time) (b : Bus)
      → Reached b.tables
      → Reached
          (recover codec o
            (recover_attempts codec.terminal_event_id now before b.tables)
            b).0.tables
  unfolding recover
  recover-Reached failed now before b r = r
  recover-Reached unanswered now before b r = with_tables-Reached false _ b now before refl r
  recover-Reached answered now before b r = with_tables-Reached true _ b now before refl r

  read_fresh-Reached :
      (r : Round) (b : Bus) → Reached b.tables → Reached (read_fresh codec r b).0.tables
  unfolding read_fresh
  read_fresh-Reached r b h = elim (Bool-cases r.readable) [
    | inl e ↦
        rw (e, read_fresh)
          (until_error-Reached (recovery codec r) (process_all codec r.fresh b)
            (λ b h. recover-Reached r.recovered r.recovered_at _ b h)
            (process_all-Reached r.fresh b h))
    | inr e ↦ rw (e, read_fresh) h
  ]

  run_once-Reached :
      (r : Round) (b : Bus) → Reached b.tables → Reached (run_once codec r b).0.tables
  unfolding run_once
  run_once-Reached r b h = elim (Bool-cases (not r.grouped || not r.claimable)) [
    | inl e ↦ rw (e, run_once) h
    | inr e ↦
        rw (e, run_once)
          (until_error-Reached (read_fresh codec r) (process_all codec r.claimed b)
            (read_fresh-Reached r) (process_all-Reached r.claimed b h))
  ]

  abbrev pub rounds : List Round → Bus → Bus
  rounds [] b = b
  rounds (r ∷ rs) b = rounds rs (run_once codec r b).0

  rounds-Reached : (rs : List Round) (b : Bus) → Reached b.tables → Reached (rounds rs b).tables
  rounds-Reached [] b h = h
  rounds-Reached (r ∷ rs) b h = rounds-Reached rs (run_once codec r b).0 (run_once-Reached r b h)

-- From empty tables, whatever messages the stream hands out, forged, again or out of order, and whichever calls
-- fail, each attempt is metered at most once, and it is closed exactly if it is metered, if the hash of
-- TerminalEventID is injective.
pub rounds-LedgerInv :
    (codec : Codec)
    → ((a b : Text) → codec.terminal_event_id a ≡ codec.terminal_event_id b → a ≡ b)
    → (rs : List Round) (b : Bus) → b.tables ≡ empty_tables
    → LedgerInv codec.terminal_event_id (rounds codec rs b).tables
rounds-LedgerInv codec injective rs b e =
    Reach-LedgerInv codec.terminal_event_id injective (rounds codec rs b).tables
      (rounds-Reached codec rs b (subst (Reach codec.terminal_event_id) (sym e) empty))
