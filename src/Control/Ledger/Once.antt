-- ===== src/Control/Ledger/Once.antt =====
-- internal/control/ledger.go: an attempt is metered once, and is closed exactly if it is metered.
use gateway_platform.Base.Map.{Distinct, Entry, lookup, put, put-Distinct, lookup-put}
use gateway_platform.Control.Ledger.{
  Tables, conflicts, event_taken, AttemptRow, is_open, insert_usage,
}
use gateway_platform.Contracts.Events.{Release}
use gateway_platform.Base.{
  ◌≡◌, refl, true, false, some, none, inl, inr, [], ◌∷◌, List, Bool, All, not, is_some, ◌==◌, ◌||◌,
  nat_eq, list_eq, if◌then◌else◌, Bool-cases, Option, some_and, ap, ◌∙◌, sym, ◌&&◌, ==→eq, ne→==,
  false_iff, ◌⊎◌, All-map, some_inj,
}
use gateway_platform.Base.Text.{Text, text_beq_iff}

-- A row of the ledger stands for the attempt.
unfoldable pub metered : Text → List Release → Bool
metered a [] = false
metered a (u ∷ us) = u.attempt_id == a || metered a us

-- No attempt and no event stands in two rows.
abbrev pub Once : List Release → Type 0
Once [] = Unit
Once (u ∷ us) = (conflicts u us ≡ false) × Once us

insert_usage-All :
    (P : Release → Type 0) (u : Release) (us : List Release)
    → P u
    → All P us
    → All P (insert_usage u us)
unfolding insert_usage
insert_usage-All P u us h hs = elim (Bool-cases (conflicts u us)) [
  | inl t ↦ rw t hs
  | inr f ↦ rw f (h, hs)
]

insert_usage-Once : (u : Release) (us : List Release) → Once us → Once (insert_usage u us)
unfolding insert_usage
insert_usage-Once u us h = elim (Bool-cases (conflicts u us)) [
  | inl t ↦ rw t h
  | inr f ↦ rw f (f, h)
]

put_known :
    (a : Text) (row : AttemptRow) (rows : List (Text × AttemptRow)) (b : Text)
    → (a ≡ b) ⊎ (is_some (lookup b rows) ≡ true)
    → is_some (lookup b (put a row rows)) ≡ true
put_known a row rows b h = elim (Bool-cases (a == b)) [
  | inl e ↦ rw (lookup-put a b row rows, e) refl
  | inr f ↦
      rw (lookup-put a b row rows, f)
        (elim h [ inl q ↦ absurd ((false_iff _ (text_beq_iff a b)).0 f q) | inr k ↦ k ])
]

module _ (terminal_event_id : Text → Text) where
  -- The event of a release is the one of its attempt, as `Release.Validate` requires.
  abbrev pub Derived : Release → Type 0
  Derived r = r.event_id ≡ terminal_event_id r.attempt_id

  -- An open attempt has no event and no row; a closed one has its own event and a row.
  abbrev pub RowInv : List Release → Text → AttemptRow → Type 0
  RowInv usage a row =
      (metered a usage ≡ not (is_open row.state))
      × (row.terminal_event_id ≡ (if is_open row.state then none else some (terminal_event_id a)))

  pub record LedgerInv (t : Tables) : Type 0 where
    pub distinct : Distinct t.attempts
    pub once : Once t.usage
    pub derived : All Derived t.usage
    pub persisted : All (λ u. is_some (lookup u.attempt_id t.attempts) ≡ true) t.usage
    pub rows : (a : Text) (row : AttemptRow) → lookup a t.attempts ≡ some row → RowInv t.usage a row

  module _ (injective : (a b : Text) → terminal_event_id a ≡ terminal_event_id b → a ≡ b) where
    same_event_attempt :
        (u r : Release)
        → Derived u
        → Derived r
        → (u.event_id == r.event_id) ≡ (u.attempt_id == r.attempt_id)
    same_event_attempt u r d e = elim (Bool-cases (u.attempt_id == r.attempt_id)) [
      | inl t ↦
          (text_beq_iff u.event_id r.event_id).1
            (d ∙ ap terminal_event_id (==→eq u.attempt_id r.attempt_id t) ∙ sym e)
          ∙ sym t
      | inr f ↦
          ne→== u.event_id r.event_id (λ q. absurd (
            (false_iff _ (text_beq_iff u.attempt_id r.attempt_id)).0 f
              (injective u.attempt_id r.attempt_id (sym d ∙ q ∙ e))))
          ∙ sym f
    ]

    own_event :
        (a b : Text) (o : Option Text)
        → ((e : Text) → o ≡ some e → e ≡ terminal_event_id b)
        → (some_and (λ e. e == terminal_event_id a) o && not (b == a)) ≡ false
    own_event a b none h = refl
    own_event a b (some e) h = elim (Bool-cases (b == a)) [
      | inl t ↦ rw t (and_false _)
      | inr f ↦
          rw
            (ne→== e (terminal_event_id a) (λ q.
              absurd ((false_iff _ (text_beq_iff b a)).0 f (injective b a (sym (h e refl) ∙ q)))))
            refl
    ]
      where
        and_false : (p : Bool) → (p && false) ≡ false
        and_false true = refl
        and_false false = refl

    pub conflicts-metered :
        (r : Release) (us : List Release)
        → Derived r
        → All Derived us
        → conflicts r us ≡ metered r.attempt_id us
    unfolding conflicts metered
    conflicts-metered r [] d ds = refl
    conflicts-metered r (u ∷ us) d ds =
        let same : (u.event_id == r.event_id) ≡ (u.attempt_id == r.attempt_id) =
          same_event_attempt u r ds.0 d in
        rw (same, conflicts-metered r us d ds.1) (or_same (u.attempt_id == r.attempt_id) _)
      where
        or_same : (p q : Bool) → (p || p || q) ≡ (p || q)
        or_same true q = refl
        or_same false q = refl

    -- No other attempt carries the event of one.
    pub event_free :
        (a : Text) (rows : List (Text × AttemptRow))
        → ((b : Text) (row : AttemptRow) (e : Text)
            → Entry b row rows
            → row.terminal_event_id ≡ some e
            → e ≡ terminal_event_id b)
        → event_taken (terminal_event_id a) a rows ≡ false
    unfolding event_taken
    event_free a [] h = refl
    event_free a ((b, row) ∷ rows) h =
        rw
          (
            own_event a b row.terminal_event_id (λ e q. h b row e (inl (refl, refl)) q),
            event_free a rows (λ c r e m. h c r e (inr m)),
          )
          refl

    metered_insert :
        (a b : Text) (u : Release) (us : List Release)
        → u.attempt_id ≡ a
        → Derived u
        → All Derived us
        → metered b (insert_usage u us) ≡ ((a == b) || metered b us)
    unfolding insert_usage metered
    metered_insert a b u us q d ds = elim (Bool-cases (conflicts u us)) [
      | inl t ↦
          let m : metered a us ≡ true =
            ap (λ x. metered x us) (sym q) ∙ sym (conflicts-metered u us d ds) ∙ t in
          rw t (elim (Bool-cases (a == b)) [ inl e ↦ rw (e, ← ==→eq a b e) m | inr n ↦ rw n refl ])
      | inr f ↦ rw (f, q) refl
    ]

    close_rows :
        (a : Text) (u : Release) (row : AttemptRow) (t : Tables)
        → u.attempt_id ≡ a
        → Derived u
        → is_open row.state ≡ false
        → row.terminal_event_id ≡ some (terminal_event_id a)
        → LedgerInv t
        → (b : Text) (r : AttemptRow) → lookup b (put a row t.attempts) ≡ some r
        → RowInv (insert_usage u t.usage) b r
    close_rows a u row t q d closed own i b r h = elim (Bool-cases (a == b)) [
      | inl e ↦
          let same : row ≡ r = some_inj (sym (rw (lookup-put a b row t.attempts, e) refl) ∙ h) in
          rw (metered_insert a b u t.usage q d i.derived, e, ← same, closed)
            (refl, own ∙ ap (λ x. some (terminal_event_id x)) (==→eq a b e))
      | inr n ↦
          let found : lookup b t.attempts ≡ some r =
            sym (rw (lookup-put a b row t.attempts, n) refl) ∙ h in
          rw (metered_insert a b u t.usage q d i.derived, n) (i.rows b r found)
    ]

    -- Closing an attempt with its own release.
    pub close-LedgerInv :
        (a : Text) (u : Release) (row : AttemptRow) (t : Tables)
        → u.attempt_id ≡ a
        → Derived u
        → is_open row.state ≡ false
        → row.terminal_event_id ≡ some (terminal_event_id a)
        → LedgerInv t
        → LedgerInv (record { attempts = put a row t.attempts; usage = insert_usage u t.usage })
    close-LedgerInv a u row t q d closed own i = record {
      distinct = put-Distinct a row t.attempts i.distinct;
      once = insert_usage-Once u t.usage i.once;
      derived = insert_usage-All Derived u t.usage d i.derived;
      persisted =
          insert_usage-All _ u t.usage (put_known a row t.attempts u.attempt_id (inl (sym q))) (
            All-map _ _ (λ x k. put_known a row t.attempts x.attempt_id (inr k)) t.usage
              i.persisted);
      rows = close_rows a u row t q d closed own i;
    }
