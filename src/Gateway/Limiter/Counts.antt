-- ===== src/Gateway/Limiter/Counts.antt =====
-- What the scripts do to a counter.
use gateway_platform.Base.Int.{ℤ, pos, ltb_ℤ, leb_ℤ, negsuc}
use gateway_platform.Gateway.Limiter.{
  Counters, increment, decrement, stored_count, read_count, ℤ, count_minute, acquire_script,
  release_script,
}
use gateway_platform.Base.{
  ℕ, ◌≡◌, ◌<◌, ◌+◌, ◌-◌, arith, ◌==◌, nat_eq, list_eq, if◌then◌else◌, Bool-cases, inl, ==→eq, inr,
  false, true, ◌⊎◌, ==_refl, ◌&&◌, refl, ==_sym,
}
use gateway_platform.Base.Text.{Text, text_beq_iff}

-- What GET reads of a counter, zero for a key that is not there.
unfoldable pub current : Text → Counters → ℕ
current key s = (stored_count (read_count s.clock (s.counts key))).0

pub increment-current :
    (key other : Text) (ttl : ℕ) (s : Counters)
    → 0 < ttl
    → current other (increment key ttl s).1
      ≡ (if key == other then current key s + 1 else current other s)
unfolding increment current
increment-current key other ttl s h = elim (Bool-cases (key == other)) [
  | inl e ↦ rw (← ==→eq key other e) (ground (arith, text_beq_iff key key))
  | inr e ↦ ground (arith, text_beq_iff key other, text_beq_iff other key)
]

pub decrement-current :
    (key other : Text) (s : Counters)
    → current other (decrement key s).1
      ≡ (if key == other then current key s - 1 else current other s)
unfolding decrement current
decrement-current key other s = elim (Bool-cases (key == other)) [
  | inl e ↦ rw (← ==→eq key other e) (ground (arith, text_beq_iff key key))
  | inr e ↦ ground (arith, text_beq_iff key other, text_beq_iff other key)
]

increment-result :
    (key : Text) (ttl : ℕ) (s : Counters) → (increment key ttl s).0 ≡ current key s + 1
unfolding increment current
increment-result key ttl s = refl

-- An acquisition that is admitted counts one request and stays under the ceiling; one that is refused
-- leaves the counter as it was.
abbrev pub Counted : Text → ℤ → ℤ → Counters → Counters → Type 0
Counted key max_concurrency (pos n) s t =
    (current key t ≡ current key s + 1)
    × (ltb_ℤ (pos 0) max_concurrency ≡ true → leb_ℤ (pos (current key t)) max_concurrency ≡ true)
Counted key max_concurrency (negsuc n) s t = current key t ≡ current key s

module _ (key rpm_key : Text) (max_concurrency rpm : ℤ) (ttl : ℕ) (positive : 0 < ttl) where
  count_minute-Counted :
      (n : ℕ) (s : Counters)
      → (key == rpm_key) ≡ false
      → ((count_minute key rpm_key rpm ttl n s).0 ≡ pos n)
          × (current key (count_minute key rpm_key rpm ttl n s).1 ≡ current key s)
        ⊎ ((count_minute key rpm_key rpm ttl n s).0 ≡ negsuc 1)
          × (current key (count_minute key rpm_key rpm ttl n s).1 ≡ current key s - 1)
  unfolding count_minute
  count_minute-Counted n s apart = ground (
    arith,
    increment-current rpm_key key ttl s positive,
    decrement-current key key (increment rpm_key ttl s).1,
    ==_refl key,
    ==_sym key rpm_key,
  )

  pub acquire_script-Counted :
      (s : Counters)
      → (key == rpm_key) ≡ false
      → Counted key max_concurrency
          (acquire_script key rpm_key max_concurrency rpm ttl s).0
          s
          (acquire_script key rpm_key max_concurrency rpm ttl s).1
  unfolding acquire_script
  acquire_script-Counted s apart =
      elim (Bool-cases
        (ltb_ℤ (pos 0) max_concurrency && ltb_ℤ max_concurrency (pos (increment key ttl s).0))) [
          | inl over ↦ rw over (
              ground (
                arith,
                increment-current key key ttl s positive,
                decrement-current key key (increment key ttl s).1,
                ==_refl key,
              ))
          | inr under ↦
              rw under
                (elim (count_minute-Counted (increment key ttl s).0 (increment key ttl s).1 apart) [
                  | inl (e, f) ↦ rw e (
                    ground (arith, increment-current key key ttl s positive, ==_refl key),
                    λ limited. ground (
                      arith,
                      increment-current key key ttl s positive,
                      increment-result key ttl s,
                      ==_refl key,
                    ),
                  )
                  | inr (e, f) ↦
                      rw e (ground (arith, increment-current key key ttl s positive, ==_refl key))
                ])
        ]

-- Another key's acquisitions and releases leave the counter alone.
module _ (key other rpm_key : Text) (apart : (other == key) ≡ false) where
  pub acquire_script-apart :
      (max_concurrency rpm : ℤ) (ttl : ℕ) (s : Counters)
      → 0 < ttl
      → (rpm_key == key) ≡ false
      → current key (acquire_script other rpm_key max_concurrency rpm ttl s).1 ≡ current key s
  unfolding acquire_script count_minute
  acquire_script-apart max_concurrency rpm ttl s positive h = ground (
    arith,
    increment-current other key ttl s positive,
    decrement-current other key (increment other ttl s).1,
    increment-current rpm_key key ttl (increment other ttl s).1 positive,
    decrement-current other key (increment rpm_key ttl (increment other ttl s).1).1,
  )

pub release_script-current :
    (key other : Text) (s : Counters)
    → current other (release_script key s).1
      ≡ (if key == other then current key s - 1 else current other s)
unfolding release_script current decrement
release_script-current key other s = elim (Bool-cases (key == other)) [
  | inl e ↦ rw (← ==→eq key other e) (ground (arith, text_beq_iff key key))
  | inr e ↦ ground (arith, text_beq_iff key other, text_beq_iff other key)
]
