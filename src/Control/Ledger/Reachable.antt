-- ===== src/Control/Ledger/Reachable.antt =====
-- internal/control/ledger.go: the tables under any sequence of events, redeliveries and recoveries.
use gateway_platform.Contracts.Types.{Time}
use gateway_platform.Contracts.Events.{AttemptStarted, Release}
use gateway_platform.Control.Ledger.Delivery.{handle_release-LedgerInv, recover_attempts_clears}
use gateway_platform.Base.Map.{lookup}
use gateway_platform.Control.Ledger.{
  Tables, handle_attempt_started, empty_tables, started_row, AttemptStarted, handle_release, Time,
  recover_attempts, AttemptRow, is_open, start_unless,
}
use gateway_platform.Base.{
  ◌≡◌, refl, true, false, some, none, inl, inr, [], ◌∷◌, arith, sym, ◌∙◌, subst, Option-cases, List,
  All-map, is_some, All, Bool-cases, nat_eq, list_eq, Bool, ◌==◌, ap, ==→eq, some_inj,
}
use gateway_platform.Base.Text.{Text}
use gateway_platform.Control.Ledger.Once.{LedgerInv, Derived, metered, RowInv}

still_known :
    (a : Text) (row : AttemptRow) (rows : List (Text × AttemptRow)) (b : Text)
    → is_some (lookup b rows) ≡ true
    → is_some (lookup b ((a, row) ∷ rows)) ≡ true
unfolding lookup
still_known a row rows b h = ground arith

not_metered :
    (a : Text) (rows : List (Text × AttemptRow)) (us : List Release)
    → All (λ u. is_some (lookup u.attempt_id rows) ≡ true) us
    → lookup a rows ≡ none
    → metered a us ≡ false
unfolding metered
not_metered a rows [] k n = refl
not_metered a rows (u ∷ us) k n = elim (Bool-cases (u.attempt_id == a)) [
  | inl t ↦ absurd (no (ap is_some (ap (λ x. lookup x rows) (==→eq u.attempt_id a t) ∙ n)) k.0)
  | inr f ↦ rw (f, not_metered a rows us k.1 n) refl
]
  where
    no : {p : Bool} → p ≡ false → p ≡ true → ⊥
    no h k = cc

module _ (terminal_event_id : Text → Text) where
  pub data Reach : Tables → Type 0 where
    empty : Reach empty_tables
    started : {t : Tables} (e : AttemptStarted) → Reach t → Reach (handle_attempt_started e t)
    released :
        {t : Tables} (r : Release)
        → Derived terminal_event_id r
        → Reach t
        → Reach (handle_release r t).0
    recovered :
        {t t' : Tables} (now before : Time)
        → Reach t
        → recover_attempts terminal_event_id now before t ≡ some t'
        → Reach t'

  new_rows :
      (e : AttemptStarted) (t : Tables)
      → LedgerInv terminal_event_id t
      → lookup e.attempt_id t.attempts ≡ none
      → (b : Text) (row : AttemptRow)
      → lookup b ((e.attempt_id, started_row e) ∷ t.attempts) ≡ some row
      → RowInv terminal_event_id t.usage b row
  unfolding lookup started_row is_open
  new_rows e t i n b row h = elim (Bool-cases (e.attempt_id == b)) [
    | inl q ↦
        let same : started_row e ≡ row = ground arith in
        rw (← same, ← ==→eq e.attempt_id b q)
          (not_metered e.attempt_id t.attempts t.usage i.persisted n, refl)
    | inr f ↦ i.rows b row (rw f at h)
  ]

  handle_attempt_started-LedgerInv :
      (e : AttemptStarted) (t : Tables)
      → LedgerInv terminal_event_id t
      → LedgerInv terminal_event_id (handle_attempt_started e t)
  unfolding handle_attempt_started start_unless started_row
  handle_attempt_started-LedgerInv e t i = elim (Option-cases (lookup e.attempt_id t.attempts)) [
    | inr (row, h) ↦ rw h i
    | inl n ↦ rw n (record {
      distinct = (n, i.distinct);
      once = i.once;
      derived = i.derived;
      persisted =
          All-map _ _ (λ u k. still_known e.attempt_id (started_row e) t.attempts u.attempt_id k)
            t.usage i.persisted;
      rows = λ b row h. new_rows e t i n b row h;
    })
  ]

  module _ (injective : (a b : Text) → terminal_event_id a ≡ terminal_event_id b → a ≡ b) where
    -- However starts, releases of an attempt's own event and recoveries follow each other, again and
    -- out of order, no attempt and no event stands in two rows of the ledger, and an attempt is
    -- closed exactly if a row stands for it.
    pub Reach-LedgerInv : (t : Tables) → Reach t → LedgerInv terminal_event_id t
    unfolding lookup
    Reach-LedgerInv _ empty = record {
      distinct = tt;
      once = tt;
      derived = tt;
      persisted = tt;
      rows = λ a row h. cc;
    }
    Reach-LedgerInv _ (started {t} e r) = handle_attempt_started-LedgerInv e t (Reach-LedgerInv t r)
    Reach-LedgerInv _ (released {t} m d r) =
        handle_release-LedgerInv terminal_event_id injective m t d (Reach-LedgerInv t r)
    Reach-LedgerInv t' (recovered {t} now before r h) =
        let (t2, h2, i, _) =
          recover_attempts_clears terminal_event_id injective now before t (Reach-LedgerInv t r) in
        let same : t2 ≡ t' = some_inj (sym h2 ∙ h) in subst (LedgerInv terminal_event_id) same i
