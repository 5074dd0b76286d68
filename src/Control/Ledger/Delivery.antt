-- ===== src/Control/Ledger/Delivery.antt =====
-- internal/control/ledger.go: HandleRelease and RecoverAttempts where every attempt is closed with its own
-- event.
use gateway_platform.Base.Int.{ℤ, pos_part, pos, negsuc, neg_part}
use gateway_platform.Control.Ledger.Once.{
  RowInv, Derived, event_free, close-LedgerInv, conflicts-metered, LedgerInv,
}
use gateway_platform.Base.Map.{Entry, lookup, put, lookup_of_Entry, Entry-of_lookup, lookup-put}
use gateway_platform.Contracts.Types.{Time}
use gateway_platform.Contracts.Events.{Release}
use gateway_platform.Control.Ledger.{
  candidates, Tables, close_row, close_attempt, AttemptRow, ReleaseResult, coalesce, close_state,
  event_taken, is_open, expired, not_persisted, recorded, insert_usage, duplicate, conflicts,
  handle_release, recover_one, reconcile_row, recover_all, recover_attempts, synthetic_release,
  deliver, fits_row, out_of_range, ℤ, fits_integer,
}
use gateway_platform.Base.{
  ◌≡◌, refl, true, false, some, none, inl, inr, [], ◌∷◌, arith, List, Bool, ◌==◌, ◌||◌, Bool-cases,
  if◌then◌else◌, nat_eq, list_eq, ◌⊎◌, Option-cases, ap, not, sym, ◌∙◌, ==_refl, some_inj, ◌↔◌,
  false_iff, ◌<◌, ◌^◌, ◌≤◌,
}
use gateway_platform.Base.Text.{Text, text_beq_iff}

has_key : Text → List (Text × AttemptRow) → Bool
has_key b [] = false
has_key b ((a, row) ∷ rows) = a == b || has_key b rows

candidate_key :
    (before : Time) (b : Text) (row : AttemptRow) (rows : List (Text × AttemptRow))
    → Entry b row rows
    → expired before row ≡ true
    → has_key b (candidates before rows) ≡ true
unfolding has_key candidates
candidate_key before b row [] m x = elim m [ ]
candidate_key before b row ((a, r) ∷ rows) (inl (p, q)) x = rw (q, x, (text_beq_iff a b).1 p) refl
candidate_key before b row ((a, r) ∷ rows) (inr m) x =
    let rest = candidate_key before b row rows m x in
    elim (Bool-cases (expired before r)) [
      | inl t ↦ rw (t, rest) (or_true (a == b))
      | inr f ↦ rw f rest
    ]
  where
    or_true : (p : Bool) → (p || true) ≡ true
    or_true true = refl
    or_true false = refl

-- The number is one of 32 bits.
abbrev pub Int32 : ℤ → Type 0
Int32 n = (pos_part n < 2 ^ 31) × (neg_part n ≤ 2 ^ 31)

-- The status and the counts of tokens are of 32 bits.
abbrev pub Storable : Release → Type 0
Storable r =
    Int32 r.status_code
    × Int32 r.tokens_in
    × Int32 r.tokens_out
    × Int32 r.cache_read_tokens
    × Int32 r.cache_write_tokens

fits_integer-Int32 : (n : ℤ) → (fits_integer n ≡ true) ↔ Int32 n
unfolding fits_integer
fits_integer-Int32 (pos n) = ground arith
fits_integer-Int32 (negsuc n) = ground arith

pub fits_row-Storable : (r : Release) → (fits_row r ≡ true) ↔ Storable r
unfolding fits_row
fits_row-Storable r = ground (
  arith,
  fits_integer-Int32 r.status_code,
  fits_integer-Int32 r.tokens_in,
  fits_integer-Int32 r.tokens_out,
  fits_integer-Int32 r.cache_read_tokens,
  fits_integer-Int32 r.cache_write_tokens,
)

-- What a release meets: no attempt of its id, columns that its numbers do not fit, an open attempt, or a
-- closed one.
pub data Delivery (r : Release) (t t' : Tables) : ReleaseResult → Type 0 where
  unknown_attempt : lookup r.attempt_id t.attempts ≡ none → t' ≡ t → Delivery r t t' not_persisted
  unstorable :
      {row : AttemptRow}
      → lookup r.attempt_id t.attempts ≡ some row
      → ¬ Storable r
      → t' ≡ t
      → Delivery r t t' out_of_range
  first_release :
      {row : AttemptRow}
      → lookup r.attempt_id t.attempts ≡ some row
      → Storable r
      → is_open row.state ≡ true
      → t'.usage ≡ r ∷ t.usage
      → lookup r.attempt_id t'.attempts ≡ some (close_row r.event_id row)
      → Delivery r t t' recorded
  late_release :
      {row : AttemptRow}
      → lookup r.attempt_id t.attempts ≡ some row
      → Storable r
      → is_open row.state ≡ false
      → t'.usage ≡ t.usage
      → Delivery r t t' duplicate

module _ (terminal_event_id : Text → Text)
    (injective : (a b : Text) → terminal_event_id a ≡ terminal_event_id b → a ≡ b) where
  row_event :
      (usage : List Release) (a : Text) (row : AttemptRow) (e : Text)
      → RowInv terminal_event_id usage a row
      → row.terminal_event_id ≡ some e
      → e ≡ terminal_event_id a
  row_event usage a row e i h = ground arith

  no_clash :
      (a : Text) (t : Tables)
      → LedgerInv terminal_event_id t
      → event_taken (terminal_event_id a) a t.attempts ≡ false
  no_clash a t i = event_free terminal_event_id injective a t.attempts (λ b row e m q.
      row_event t.usage b row e (i.rows b row (lookup_of_Entry b row t.attempts i.distinct m)) q)

  closing_event :
      (r : Release) (usage : List Release) (row : AttemptRow)
      → Derived terminal_event_id r
      → RowInv terminal_event_id usage r.attempt_id row
      → (close_row r.event_id row).terminal_event_id ≡ some (terminal_event_id r.attempt_id)
  unfolding close_row coalesce
  closing_event r usage row d i = ground arith

  closed_state :
      (event_id : Text) (row : AttemptRow) → is_open (close_row event_id row).state ≡ false
  unfolding close_row close_state is_open
  closed_state event_id row = ground arith

  pub close_attempt_lem :
      (r : Release) (row : AttemptRow) (t : Tables)
      → Derived terminal_event_id r
      → LedgerInv terminal_event_id t
      → lookup r.attempt_id t.attempts ≡ some row
      → close_attempt r row t ≡ (
        record {
          attempts = put r.attempt_id (close_row r.event_id row) t.attempts;
          usage = insert_usage r t.usage;
        },
        if conflicts r t.usage then duplicate else recorded,
      )
  unfolding close_attempt
  close_attempt_lem r row t d i h =
      rw (closing_event r t.usage row d (i.rows r.attempt_id row h), no_clash r.attempt_id t i) refl

  -- A release of the attempt's own event is recorded exactly if the attempt is there and open and the
  -- release's numbers fit the columns of 32 bits; a later one, also after a recovery, changes no row of
  -- the ledger, and one that comes before its attempt or does not fit changes nothing. The tables
  -- satisfy the ledger's invariant, and the hash is injective.
  pub handle_release-Delivery :
      (r : Release) (t : Tables)
      → Derived terminal_event_id r
      → LedgerInv terminal_event_id t
      → Delivery r t (handle_release r t).0 (handle_release r t).1
  unfolding handle_release deliver insert_usage
  handle_release-Delivery r t d i = elim (Option-cases (lookup r.attempt_id t.attempts)) [
    | inl n ↦ rw n (unknown_attempt n refl)
    | inr (row, h) ↦
        let m : conflicts r t.usage ≡ not (is_open row.state) =
          conflicts-metered terminal_event_id injective r t.usage d i.derived
          ∙ (i.rows r.attempt_id row h).0 in
        elim (Bool-cases (fits_row r)) [
          | inr n ↦ rw (h, deliver, n) (unstorable h ((false_iff _ (fits_row-Storable r)).0 n) refl)
          | inl f ↦
              rw (h, deliver, f, close_attempt_lem r row t d i h, m)
                (elim (Bool-cases (is_open row.state)) [
                  | inl o ↦ rw o (
                      first_release h ((fits_row-Storable r).0 f) o refl
                        (rw (lookup-put _ _ _ t.attempts, ==_refl r.attempt_id) refl))
                  | inr c ↦ rw c (late_release h ((fits_row-Storable r).0 f) c refl)
                ])
        ]
  ]

  pub handle_release-LedgerInv :
      (r : Release) (t : Tables)
      → Derived terminal_event_id r
      → LedgerInv terminal_event_id t
      → LedgerInv terminal_event_id (handle_release r t).0
  unfolding handle_release deliver
  handle_release-LedgerInv r t d i = elim (Option-cases (lookup r.attempt_id t.attempts)) [
    | inl n ↦ rw n i
    | inr (row, h) ↦ elim (Bool-cases (fits_row r)) [
      | inr n ↦ rw (h, deliver, n) i
      | inl f ↦
          rw (h, deliver, f, close_attempt_lem r row t d i h)
            (close-LedgerInv terminal_event_id injective r.attempt_id r (close_row r.event_id row) t
              refl d (closed_state r.event_id row)
              (closing_event r t.usage row d (i.rows r.attempt_id row h)) i)
    ]
  ]

  -- One turn of the recovery goes through.
  recover_one_lem :
      (now : Time) (a : Text) (row : AttemptRow) (t : Tables)
      → LedgerInv terminal_event_id t
      → (t' : Tables) × (recover_one terminal_event_id now a row t ≡ some t')
        × LedgerInv terminal_event_id t'
        × (t'.attempts ≡ put a (reconcile_row terminal_event_id a row) t.attempts)
  unfolding recover_one reconcile_row synthetic_release is_open
  recover_one_lem now a row t i = (
    record {
      attempts = put a (reconcile_row terminal_event_id a row) t.attempts;
      usage = insert_usage (synthetic_release terminal_event_id now a row) t.usage;
    },
    rw (no_clash a t i) refl,
    close-LedgerInv terminal_event_id injective a (synthetic_release terminal_event_id now a row)
        (reconcile_row terminal_event_id a row) t refl refl refl refl i,
    refl,
  )

  after_one :
      (a : Text) (r : AttemptRow) (cs : List (Text × AttemptRow)) (t t1 : Tables)
      → t1.attempts ≡ put a (reconcile_row terminal_event_id a r) t.attempts
      → (b : Text) (row : AttemptRow)
      → (is_open row.state ≡ false) ⊎ ((lookup b t1.attempts ≡ some row) × (has_key b cs ≡ false))
      → (is_open row.state ≡ false)
        ⊎ ((lookup b t.attempts ≡ some row) × (((a == b) || has_key b cs) ≡ false))
  unfolding reconcile_row is_open
  after_one a r cs t t1 p b row (inl c) = inl c
  after_one a r cs t t1 p b row (inr (h, k)) =
      let found = ap (lookup b) (sym p) ∙ h in
      elim (Bool-cases (a == b)) [
        | inl e ↦
            let same : reconcile_row terminal_event_id a r ≡ row = some_inj (
              sym (rw (lookup-put a b (reconcile_row terminal_event_id a r) t.attempts, e) refl)
              ∙ found) in
            inl (ap (λ x. is_open x.state) (sym same))
        | inr f ↦
            let kept : lookup b t.attempts ≡ some row =
              sym (rw (lookup-put a b (reconcile_row terminal_event_id a r) t.attempts, f) refl)
              ∙ found in
            inr (kept, rw (f, k) refl)
      ]

  not_expired :
      (before : Time) (b : Text) (row : AttemptRow) (t : Tables)
      → (is_open row.state ≡ false)
        ⊎ ((lookup b t.attempts ≡ some row) × (has_key b (candidates before t.attempts) ≡ false))
      → expired before row ≡ false
  unfolding expired
  not_expired before b row t (inl c) = rw c refl
  not_expired before b row t (inr (h, k)) = elim (Bool-cases (expired before row)) [
    | inr f ↦ f
    | inl x ↦
        absurd (no (candidate_key before b row t.attempts (Entry-of_lookup b row t.attempts h) x) k)
  ]
    where
      no : {p : Bool} → p ≡ true → p ≡ false → ⊥
      no h k = cc

  recover_all_lem :
      (now : Time) (cs : List (Text × AttemptRow)) (t : Tables)
      → LedgerInv terminal_event_id t
      → (t' : Tables) × (recover_all terminal_event_id now cs t ≡ some t')
        × LedgerInv terminal_event_id t'
        × ((b : Text) (row : AttemptRow)
            → lookup b t'.attempts ≡ some row
            → (is_open row.state ≡ false)
              ⊎ ((lookup b t.attempts ≡ some row) × (has_key b cs ≡ false)))
  unfolding recover_all has_key
  recover_all_lem now [] t i = (t, refl, i, λ b row h. inr (h, refl))
  recover_all_lem now ((a, r) ∷ cs) t i =
      let (t1, h1, i1, p1) = recover_one_lem now a r t i in
      let (t2, h2, i2, k2) = recover_all_lem now cs t1 i1 in
      (t2, rw (h1, h2) refl, i2, λ b row h. after_one a r cs t t1 p1 b row (k2 b row h))

  -- The recovery goes through; after it no attempt is open whose deadline passed before the given
  -- time.
  pub recover_attempts_clears :
      (now before : Time) (t : Tables)
      → LedgerInv terminal_event_id t
      → (t' : Tables) × (recover_attempts terminal_event_id now before t ≡ some t')
        × LedgerInv terminal_event_id t'
        × ((b : Text) (row : AttemptRow)
            → lookup b t'.attempts ≡ some row
            → expired before row ≡ false)
  unfolding recover_attempts
  recover_attempts_clears now before t i =
      let (t', h, i', k) = recover_all_lem now (candidates before t.attempts) t i in
      (t', h, i', λ b row q. not_expired before b row t (k b row q))
