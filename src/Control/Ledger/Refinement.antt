-- ===== src/Control/Ledger/Refinement.antt =====
-- internal/control/state.go with internal/control/ledger.go: MemoryLedger answers as the tables do.
use gateway_platform.Control.Ledger.Delivery.{close_attempt_lem, Storable, fits_row-Storable}
use gateway_platform.Contracts.Events.{AttemptStarted, Release}
use gateway_platform.Base.Map.{lookup, lookup-put, put}
use gateway_platform.Control.Ledger.{
  AttemptRow, Tables, handle_attempt_started, AttemptState, lookup, start_unless, started_row,
  is_open, AttemptStarted, close_state, close_row, ReleaseResult, attempt_terminal, handle_release,
  attempt_open, recorded, deliver, attempt_reconciled, insert_usage, conflicts, fits_row,
}
use gateway_platform.Control.Ledger.Memory.{
  MemoryLedger, apply_attempt_started, AttemptRecord, start_in_memory, apply_release, opened,
  close_record, release_in_memory, remember, add_event,
}
use gateway_platform.Base.{
  ◌≡◌, refl, true, false, some, none, inl, inr, ◌∷◌, Option, is_some, not, sym, nat_eq, list_eq, ap,
  ◌∙◌, List, Bool, ◌==◌, Bool-cases, if◌then◌else◌, ◌||◌, ==→eq, ne→==, false_iff, Option-cases,
  some_inj,
}
use gateway_platform.Base.Text.{Text, text_beq_iff}
use gateway_platform.Control.Ledger.Once.{LedgerInv, Derived, metered, conflicts-metered}

-- The state of an attempt, in memory and in its row.
abbrev pub record_state : Option AttemptRecord → Option AttemptState
record_state none = none
record_state (some a) = some a.state

abbrev pub row_state : Option AttemptRow → Option AttemptState
row_state none = none
row_state (some row) = some row.state

lookup_cons :
    (k a : Text) (row : AttemptRow) (rows : List (Text × AttemptRow))
    → lookup a ((k, row) ∷ rows) ≡ (if k == a then some row else lookup a rows)
unfolding lookup
lookup_cons k a row rows = refl

if_states :
    (b : Bool) (r : AttemptRecord) (row : AttemptRow) (o : Option AttemptRecord)
    (q : Option AttemptRow)
    → r.state ≡ row.state
    → record_state o ≡ row_state q
    → record_state (if b then some r else o) ≡ row_state (if b then some row else q)
if_states true r row o q h k = ap some h
if_states false r row o q h k = k

put_releases :
    (k a : Text) (new r : AttemptRecord) (ms : List (Text × AttemptRecord))
    → is_some new.release ≡ not (is_open new.state)
    → (lookup a ms ≡ some r → is_some r.release ≡ not (is_open r.state))
    → lookup a (put k new ms) ≡ some r
    → is_some r.release ≡ not (is_open r.state)
put_releases k a new r ms h old l = elim (Bool-cases (k == a)) [
  | inl t ↦
      let same : new ≡ r = some_inj (sym (rw (lookup-put k a new ms, t) refl) ∙ l) in rw (← same) h
  | inr f ↦ old (sym (rw (lookup-put k a new ms, f) refl) ∙ l)
]

no_state : {s : AttemptState} → some s ≡ none → ⊥
no_state h = cc

closed_again : (s : AttemptState) → is_open s ≡ false → close_state s ≡ s
unfolding is_open close_state
closed_again attempt_open h = cc
closed_again attempt_terminal h = refl
closed_again attempt_reconciled h = refl

closes_open : (s : AttemptState) → is_open s ≡ true → attempt_terminal ≡ close_state s
unfolding is_open close_state
closes_open attempt_open h = refl
closes_open attempt_terminal h = cc
closes_open attempt_reconciled h = cc

or_comm : (p q : Bool) → (p || q) ≡ (q || p)
or_comm true true = refl
or_comm true false = refl
or_comm false true = refl
or_comm false false = refl

module _ (terminal_event_id : Text → Text) where
  -- Both hold the same attempts in the same states; a record has a release exactly if it is closed;
  -- an event is remembered exactly if its attempt is metered.
  pub record Agree (m : MemoryLedger) (t : Tables) : Type 0 where
    pub states : (a : Text) → record_state (lookup a m.attempts) ≡ row_state (lookup a t.attempts)
    pub releases :
        (a : Text) (r : AttemptRecord)
        → lookup a m.attempts ≡ some r
        → is_some r.release ≡ not (is_open r.state)
    pub events : (a : Text) → m.events (terminal_event_id a) ≡ metered a t.usage

  pub start-Agree :
      (e : AttemptStarted) (m : MemoryLedger) (t : Tables)
      → Agree m t
      → Agree (apply_attempt_started e m).0 (handle_attempt_started e t)
  unfolding apply_attempt_started handle_attempt_started start_in_memory start_unless started_row
      is_open
  start-Agree e m t g =
      by_lookups (lookup e.attempt_id m.attempts) (lookup e.attempt_id t.attempts) refl refl
    where
      by_lookups :
          (o : Option AttemptRecord) (q : Option AttemptRow)
          → lookup e.attempt_id m.attempts ≡ o
          → lookup e.attempt_id t.attempts ≡ q
          → Agree (start_in_memory o e m).0 (start_unless q e t)
      by_lookups (some r) (some row) h k = g
      by_lookups (some r) none h k =
          absurd (no_state (sym (ap record_state h) ∙ g.states e.attempt_id ∙ ap row_state k))
      by_lookups none (some row) h k =
          absurd (no_state (sym (sym (ap record_state h) ∙ g.states e.attempt_id ∙ ap row_state k)))
      by_lookups none none h k = record {
        states = λ a.
            rw
              (
                lookup-put e.attempt_id a (opened e) m.attempts,
                lookup_cons e.attempt_id a (started_row e) t.attempts,
              )
              (if_states (e.attempt_id == a) (opened e) (started_row e) _ _ refl (g.states a));
        releases =
            λ a r l. put_releases e.attempt_id a (opened e) r m.attempts refl (g.releases a r) l;
        events = g.events;
      }

  module _ (injective : (a b : Text) → terminal_event_id a ≡ terminal_event_id b → a ≡ b) where
    same_hash : (a b : Text) → (terminal_event_id a == terminal_event_id b) ≡ (b == a)
    same_hash a b = elim (Bool-cases (b == a)) [
      | inl t ↦ (text_beq_iff _ _).1 (ap terminal_event_id (sym (==→eq b a t))) ∙ sym t
      | inr f ↦
          ne→== (terminal_event_id a) (terminal_event_id b)
            (λ q. absurd ((false_iff _ (text_beq_iff b a)).0 f (sym (injective a b q))))
          ∙ sym f
    ]

    -- A release that is a duplicate changes neither side.
    duplicate-Agree :
        (r : Release) (m : MemoryLedger) (t : Tables) (row : AttemptRow)
        → lookup r.attempt_id t.attempts ≡ some row
        → is_open row.state ≡ false
        → Agree m t
        → Agree m (record t { attempts = put r.attempt_id (close_row r.event_id row) t.attempts })
    unfolding close_row
    duplicate-Agree r m t row h c g = record {
      states = λ a. elim (Bool-cases (r.attempt_id == a)) [
        | inl q ↦
            let here : lookup a t.attempts ≡ some row =
              ap (λ x. lookup x t.attempts) (sym (==→eq r.attempt_id a q)) ∙ h in
            rw (lookup-put r.attempt_id a (close_row r.event_id row) t.attempts, q)
              (g.states a ∙ ap row_state here ∙ ap some (sym (closed_again row.state c)))
        | inr f ↦
            rw (lookup-put r.attempt_id a (close_row r.event_id row) t.attempts, f) (g.states a)
      ];
      releases = g.releases;
      events = g.events;
    }

    first-Agree :
        (r : Release) (m : MemoryLedger) (t : Tables) (row : AttemptRow) (rec : AttemptRecord)
        → Derived terminal_event_id r
        → is_open row.state ≡ true
        → Agree m t
        → Agree
            (remember r
              (record m { attempts = put r.attempt_id (close_record r rec) m.attempts })).0
            (record {
              attempts = put r.attempt_id (close_row r.event_id row) t.attempts;
              usage = r ∷ t.usage;
            })
    unfolding close_row close_record remember add_event metered is_open
    first-Agree r m t row rec d o g = record {
      states = λ a.
          rw
            (
              lookup-put r.attempt_id a (close_record r rec) m.attempts,
              lookup-put r.attempt_id a (close_row r.event_id row) t.attempts,
            )
            (if_states (r.attempt_id == a) (close_record r rec) (close_row r.event_id row) _ _
              (closes_open row.state o) (g.states a));
      releases = λ a x l.
          put_releases r.attempt_id a (close_record r rec) x m.attempts refl (g.releases a x) l;
      events = λ a.
          rw (d, g.events a, same_hash a r.attempt_id)
            (or_comm (metered a t.usage) (r.attempt_id == a));
    }

    -- The answer of the tables as the one of the memory.
    abbrev pub is_recorded : ReleaseResult → Bool
    is_recorded recorded = true
    is_recorded _ = false

    release_agrees :
        (r : Release) (m : MemoryLedger) (t : Tables) (row : AttemptRow)
        → Derived terminal_event_id r
        → LedgerInv terminal_event_id t
        → lookup r.attempt_id t.attempts ≡ some row
        → fits_row r ≡ true
        → Agree m t
        → Agree (apply_release r m).0 (handle_release r t).0
          × ((apply_release r m).1 ≡ is_recorded (handle_release r t).1)
    unfolding apply_release release_in_memory handle_release deliver insert_usage remember
    release_agrees r m t row d i h fits g =
        let known : m.events r.event_id ≡ conflicts r t.usage =
          ap m.events d
          ∙ g.events r.attempt_id
          ∙ sym (conflicts-metered terminal_event_id injective r t.usage d i.derived) in
        let closed : conflicts r t.usage ≡ not (is_open row.state) =
          conflicts-metered terminal_event_id injective r t.usage d i.derived
          ∙ (i.rows r.attempt_id row h).0 in
        let lem = close_attempt_lem terminal_event_id injective r row t d i h in
        elim (Bool-cases (is_open row.state)) [
          | inr c ↦
              rw (known, h, deliver, fits, lem, closed, c) (duplicate-Agree r m t row h c g, refl)
          | inl o ↦ elim (Option-cases (lookup r.attempt_id m.attempts)) [
            | inl n ↦
                absurd (
                  no_state (sym (sym (ap record_state n) ∙ g.states r.attempt_id ∙ ap row_state h)))
            | inr (rec, f) ↦
                let same : rec.state ≡ row.state =
                  state_inj (sym (ap record_state f) ∙ g.states r.attempt_id ∙ ap row_state h) in
                let unreleased : is_some rec.release ≡ false =
                  g.releases r.attempt_id rec f ∙ ap (λ x. not (is_open x)) same ∙ ap not o in
                rw (known, h, deliver, fits, lem, closed, o, f, unreleased)
                  (first-Agree r m t row rec d o g, refl)
          ]
        ]
      where
        state_inj : {x y : AttemptState} → some x ≡ some y → x ≡ y
        state_inj h = some_inj h

    -- Where the attempt of a release of its own event is persisted and the release's numbers fit the
    -- columns of 32 bits, the memory accepts the release exactly if the tables record it; starts and
    -- such releases keep the two ledgers in agreement. The tables satisfy the ledger's invariant, and
    -- the hash is injective.
    pub ledgers-Agree :
        (e : AttemptStarted) (r : Release) (m : MemoryLedger) (t : Tables) (row : AttemptRow)
        → Derived terminal_event_id r
        → LedgerInv terminal_event_id t
        → lookup r.attempt_id t.attempts ≡ some row
        → Storable r
        → Agree m t
        → Agree (apply_attempt_started e m).0 (handle_attempt_started e t)
          × Agree (apply_release r m).0 (handle_release r t).0
          × ((apply_release r m).1 ≡ is_recorded (handle_release r t).1)
    ledgers-Agree e r m t row d i h fits g =
        let (after, same) = release_agrees r m t row d i h ((fits_row-Storable r).1 fits) g in
        (start-Agree e m t g, after, same)
