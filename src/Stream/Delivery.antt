-- ===== src/Stream/Delivery.antt =====
-- What a delivery of a message leads to.
use gateway_platform.Base.Map.{update}
use gateway_platform.Control.Ledger.{Tables}
use gateway_platform.Base.Text.{Text}
use gateway_platform.Stream.Consumer.{
  Codec, StreamMessage, Bus, Calls, DeadEntry, Payload, check, handle, dead_letter, Category,
  Outcome, failed, unanswered, answered, acknowledge, bury, after_handler, counted_delivery,
  after_count, with_check, process, drop_retries, max_retries, retry_exhausted,
}
use gateway_platform.Base.{
  inl, inr, ◌≡◌, ◌++◌, ◌⊎◌, ◌∷◌, [], true, Bool-cases, refl, Option, ℕ, ap, Bool, ltb, sym, false,
  nat_eq, list_eq, ◌∙◌,
}

module _ (codec : Codec) where
  -- The message stands in the dead letter stream, behind what stood there.
  pub record Buried (id : Text) (b b' : Bus) : Type 0 where
    pub entry : DeadEntry
    pub original : entry.original_id ≡ id
    pub dead : b'.dead ≡ b.dead ++ entry ∷ []
    pub tables : b'.tables ≡ b.tables

  -- The payload is valid, and the ledger has taken it.
  pub record Taken (m : StreamMessage) (b b' : Bus) : Type 0 where
    pub payload : Payload
    pub valid : check codec m ≡ inr payload
    pub accepted : (handle payload b.tables).1 ≡ true
    pub tables : b'.tables ≡ (handle payload b.tables).0
    pub dead : b'.dead ≡ b.dead

  abbrev pub Acknowledges : StreamMessage → Bus → Bus → Type 0
  Acknowledges m b b' =
      (b'.acked ≡ b.acked)
      ⊎ ((b'.acked ≡ m.message_id ∷ b.acked) × (Buried m.message_id b b' ⊎ Taken m b b'))

  acknowledge-Buried :
      (o d : Outcome) (entry : DeadEntry) (b : Bus)
      → let b' = (acknowledge o d entry.original_id (record b { dead = b.dead ++ entry ∷ [] })).0 in
        (b'.acked ≡ b.acked)
        ⊎ ((b'.acked ≡ entry.original_id ∷ b.acked) × Buried entry.original_id b b')
  unfolding acknowledge drop_retries
  acknowledge-Buried failed d entry b = inl refl
  acknowledge-Buried unanswered d entry b =
      inr (refl, record { entry = entry; original = refl; dead = refl; tables = refl })
  acknowledge-Buried answered failed entry b =
      inr (refl, record { entry = entry; original = refl; dead = refl; tables = refl })
  acknowledge-Buried answered unanswered entry b =
      inr (refl, record { entry = entry; original = refl; dead = refl; tables = refl })
  acknowledge-Buried answered answered entry b =
      inr (refl, record { entry = entry; original = refl; dead = refl; tables = refl })

  bury-Acknowledges :
      (o : Outcome) (c : Calls) (m : StreamMessage) (category : Category) (attempts : Option ℕ)
      (b : Bus)
      → Acknowledges m b
          (bury o c
            (record { original_id = m.message_id; category = category; attempts = attempts })
            b).0
  unfolding bury
  bury-Acknowledges failed c m category attempts b = inl refl
  bury-Acknowledges unanswered c m category attempts b = inl refl
  bury-Acknowledges answered c m category attempts b =
      elim (acknowledge-Buried c.acknowledged c.dropped
        (record { original_id = m.message_id; category = category; attempts = attempts }) b) [
          | inl e ↦ inl e
          | inr (e, buried) ↦ inr (e, inl buried)
        ]

  acknowledge-Taken :
      (o d : Outcome) (m : StreamMessage) (p : Payload) (tables : Tables) (b : Bus)
      → check codec m ≡ inr p
      → handle p b.tables ≡ (tables, true)
      → Acknowledges m b (acknowledge o d m.message_id (record b { tables = tables })).0
  unfolding acknowledge drop_retries
  acknowledge-Taken o d m p tables b v h = by_outcome o d
    where
      taken : (b' : Bus) → b'.tables ≡ tables → b'.dead ≡ b.dead → Taken m b b'
      taken b' t e = record {
        payload = p;
        valid = v;
        accepted = ap (λ r. r.1) h;
        tables = t ∙ ap (λ r. r.0) (sym h);
        dead = e;
      }

      by_outcome :
          (o d : Outcome)
          → Acknowledges m b (acknowledge o d m.message_id (record b { tables = tables })).0
      by_outcome failed d = inl refl
      by_outcome unanswered d = inr (refl, inr (taken _ refl refl))
      by_outcome answered failed = inr (refl, inr (taken _ refl refl))
      by_outcome answered unanswered = inr (refl, inr (taken _ refl refl))
      by_outcome answered answered = inr (refl, inr (taken _ refl refl))

  after_handler-Acknowledges :
      (o : Outcome) (c : Calls) (m : StreamMessage) (p : Payload) (result : Tables × Bool) (b : Bus)
      → check codec m ≡ inr p
      → handle p b.tables ≡ result
      → Acknowledges m b (after_handler codec o c m.message_id result b).0
  unfolding after_handler
  after_handler-Acknowledges failed c m p result b v h = inl refl
  after_handler-Acknowledges unanswered c m p (tables, fine) b v h = inl refl
  after_handler-Acknowledges answered c m p (tables, false) b v h = inl refl
  after_handler-Acknowledges answered c m p (tables, true) b v h =
      acknowledge-Taken c.acknowledged c.dropped m p tables b v h

  counted_delivery-Acknowledges :
      (c : Calls) (m : StreamMessage) (p : Payload) (attempt : ℕ) (b : Bus)
      → check codec m ≡ inr p
      → Acknowledges m b (counted_delivery codec c m p attempt b).0
  unfolding counted_delivery dead_letter
  counted_delivery-Acknowledges c m p attempt b v = elim (Bool-cases (ltb max_retries attempt)) [
    | inl e ↦ rw (e, counted_delivery) (bury-Acknowledges c.dead_added c m retry_exhausted _ b)
    | inr e ↦
        rw (e, counted_delivery)
          (after_handler-Acknowledges c.handled c m p (handle p b.tables) b v refl)
  ]

  after_count-Acknowledges :
      (o : Outcome) (c : Calls) (m : StreamMessage) (p : Payload) (attempt : ℕ) (b : Bus)
      → check codec m ≡ inr p
      → Acknowledges m b (after_count codec o c m p attempt b).0
  unfolding after_count
  after_count-Acknowledges failed c m p attempt b v = inl refl
  after_count-Acknowledges unanswered c m p attempt b v = inl refl
  after_count-Acknowledges answered c m p attempt b v =
      elim (counted_delivery-Acknowledges c m p attempt
        (record b { retries = update b.retries m.message_id attempt }) v) [
          | inl e ↦ inl e
          | inr (e, inl h) ↦ inr (
            e,
            inl (record {
              entry = h.entry;
              original = h.original;
              dead = h.dead;
              tables = h.tables;
            }),
          )
          | inr (e, inr h) ↦ inr (
            e,
            inr (record {
              payload = h.payload;
              valid = h.valid;
              accepted = h.accepted;
              tables = h.tables;
              dead = h.dead;
            }),
          )
        ]

  with_check-Acknowledges :
      (c : Calls) (m : StreamMessage) (checked : Category ⊎ Payload) (b : Bus)
      → check codec m ≡ checked
      → Acknowledges m b (with_check codec c m checked b).0
  unfolding with_check dead_letter
  with_check-Acknowledges c m (inl category) b v = bury-Acknowledges c.dead_added c m category _ b
  with_check-Acknowledges c m (inr p) b v = after_count-Acknowledges c.counted c m p _ b v

-- A delivery acknowledges its message at most once, and only if it put it into the dead letter stream and left
-- the ledger, or if its payload is valid and the ledger accepted it, whichever calls fail.
pub process-Acknowledges :
    (codec : Codec) (c : Calls) (m : StreamMessage) (b : Bus)
    → Acknowledges codec m b (process codec c m b).0
unfolding process
process-Acknowledges codec c m b = with_check-Acknowledges codec c m (check codec m) b refl
