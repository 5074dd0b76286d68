-- ===== src/Stream/Exhausted.antt =====
-- A message that the handler keeps refusing.
use gateway_platform.Base.Map.{update}
use gateway_platform.Control.Ledger.{Tables}
use gateway_platform.Stream.Consumer.{
  Outcome, Codec, Calls, StreamMessage, answered, Payload, Bus, after_handler, DeadEntry, process,
  failed, retry_exhausted, handle, counted_delivery, with_check, check, unanswered, after_count,
  max_retries, dead_letter, bury, acknowledge, drop_retries,
}
use gateway_platform.Base.{
  refl, none, inl, inr, ℕ, suc, ◌≡◌, Bool, get_or, ◌⊎◌, ◌++◌, ◌+◌, zero, ◌∷◌, false, [], ap, ◌≤◌,
  true, ltb, ◌<◌, arith, subst, ◌∙◌, sym, ==_refl, nat_eq, list_eq,
}

-- Calls that are answered, but for the handler's.
abbrev pub calls_with : Outcome → Calls
calls_with handled = record {
  counted = answered;
  handled = handled;
  looked_up = true;
  dead_added = answered;
  acknowledged = answered;
  dropped = answered;
}

module _ (codec : Codec) (m : StreamMessage) (p : Payload) (handled : Outcome) where
  abbrev pub deliveries : ℕ → Bus → Bus
  deliveries zero b = b
  deliveries (suc k) b = deliveries k (process codec (calls_with handled) m b).0

  -- The handler fails, or the ledger refuses the payload.
  abbrev pub Refuses : Tables → Type 0
  Refuses tables = (handled ≡ failed) ⊎ (handle p tables ≡ (tables, false))

  -- The message stands in the dead letter stream, is acknowledged and counts no more.
  pub record GivenUp (b b' : Bus) : Type 0 where
    pub entry : DeadEntry
    pub original : entry.original_id ≡ m.message_id
    pub category : entry.category ≡ retry_exhausted
    pub dead : b'.dead ≡ b.dead ++ entry ∷ []
    pub acked : b'.acked ≡ m.message_id ∷ b.acked
    pub tables : b'.tables ≡ b.tables
    pub forgotten : b'.retries m.message_id ≡ none

  -- A delivery that is refused leaves all but the count.
  record Counted (b b' : Bus) : Type 0 where
    dead : b'.dead ≡ b.dead
    acked : b'.acked ≡ b.acked
    tables : b'.tables ≡ b.tables
    count : get_or 0 (b'.retries m.message_id) ≡ get_or 0 (b.retries m.message_id) + 1

  after_handler-refused :
      (o : Outcome) (b : Bus) (result : Tables × Bool)
      → (o ≡ failed) ⊎ (result ≡ (b.tables, false))
      → (after_handler codec o (calls_with handled) m.message_id result b).0 ≡ b
  unfolding after_handler
  after_handler-refused failed b result h = refl
  after_handler-refused unanswered b (tables, fine) (inl e) = cc
  after_handler-refused unanswered b (tables, fine) (inr e) = ap (λ r. record b { tables = r.0 }) e
  after_handler-refused answered b (tables, true) (inl e) = cc
  after_handler-refused answered b (tables, true) (inr e) = cc
  after_handler-refused answered b (tables, false) (inl e) = cc
  after_handler-refused answered b (tables, false) (inr e) = ap (λ r. record b { tables = r.0 }) e

  counted_delivery-refused :
      (attempt : ℕ) (b : Bus)
      → attempt ≤ max_retries
      → Refuses b.tables
      → (counted_delivery codec (calls_with handled) m p attempt b).0 ≡ b
  unfolding counted_delivery
  counted_delivery-refused attempt b h r =
      let within : ltb max_retries attempt ≡ false = ground arith in
      rw (within, counted_delivery) (after_handler-refused handled b (handle p b.tables) r)

  process-Counted :
      (b : Bus)
      → check codec m ≡ inr p
      → get_or 0 (b.retries m.message_id) < max_retries
      → Refuses b.tables
      → Counted b (process codec (calls_with handled) m b).0
  unfolding process with_check after_count
  process-Counted b v h r =
      let attempt = get_or 0 (b.retries m.message_id) + 1 in
      let up : Bus = record b { retries = update b.retries m.message_id attempt } in
      let kept = counted_delivery-refused attempt up (omega (arith, h)) r in
      rw (v, process)
        (record {
          dead = ap (λ b. b.dead) kept;
          acked = ap (λ b. b.acked) kept;
          tables = ap (λ b. b.tables) kept;
          count = ap (λ b. get_or 0 (b.retries m.message_id)) kept ∙ rw (==_refl m.message_id) refl;
        })

  process-GivenUp :
      (b : Bus)
      → check codec m ≡ inr p
      → get_or 0 (b.retries m.message_id) ≡ max_retries
      → GivenUp b (process codec (calls_with handled) m b).0
  unfolding process with_check after_count counted_delivery dead_letter bury acknowledge
      drop_retries
  process-GivenUp b v h =
      let over : ltb max_retries (get_or 0 (b.retries m.message_id) + 1) ≡ true =
        ground (arith, h) in
      rw (v, process)
        (rw (over, counted_delivery)
          (record {
            entry = _;
            original = refl;
            category = refl;
            dead = refl;
            acked = refl;
            tables = refl;
            forgotten = rw (==_refl m.message_id) refl;
          }))

  -- A message with a valid payload, counted five times at most, that the handler refuses at each delivery,
  -- where every call of Redis is answered and nothing else changes the tables, the retry count or the dead
  -- letter stream between the deliveries: after the deliveries that are left and one more it stands in the
  -- dead letter stream, is acknowledged, and is counted no more, and the tables are as they were.
  pub deliveries-GivenUp :
      (k : ℕ) (b : Bus)
      → check codec m ≡ inr p
      → get_or 0 (b.retries m.message_id) + k ≡ max_retries
      → Refuses b.tables
      → GivenUp b (deliveries (suc k) b)
  deliveries-GivenUp zero b v h r = process-GivenUp b v (omega (arith, h))
  deliveries-GivenUp (suc k) b v h r =
      let b' = (process codec (calls_with handled) m b).0 in
      let step = process-Counted b v (omega (arith, h)) r in
      let rest =
        deliveries-GivenUp k b' v (omega (arith, h, step.count))
          (subst Refuses (sym step.tables) r) in
      record {
        entry = rest.entry;
        original = rest.original;
        category = rest.category;
        dead = rest.dead ∙ ap (λ d. d ++ rest.entry ∷ []) step.dead;
        acked = rest.acked ∙ ap (λ a. m.message_id ∷ a) step.acked;
        tables = rest.tables ∙ step.tables;
        forgotten = rest.forgotten;
      }
