-- ===== src/Gateway/Limiter/Balance.antt =====
-- What an acquisition takes of a counter, its release gives back.
use gateway_platform.Gateway.Limiter.Counts.{
  current, Counted, release_script-current, acquire_script-Counted, acquire_script-apart,
}
use gateway_platform.Gateway.Limiter.{
  Permit, Admission, release, Counters, verdict, fallback, acquire_keys, release_of, admitted, Link,
  unanswered, noop, counter_ttl, acquire_script, down, up, release_script,
}
use gateway_platform.Base.{
  ℕ, true, false, ◌≡◌, ◌≢◌, refl, ◌+◌, ◌-◌, arith, ◌==◌, nat_eq, list_eq, if◌then◌else◌, Bool,
  Bool-cases, ==→eq, inl, ◌∙◌, inr,
}
use gateway_platform.Base.Int.{ℤ, pos, negsuc}
use gateway_platform.Base.Text.{Text}

-- What a permit holds of a counter.
abbrev pub held : Text → Permit → ℕ
held k noop = 0
held k (release_of key) = if key == k then 1 else 0

abbrev pub owed : Text → Admission → ℕ
owed k (admitted permit) = held k permit
owed k _ = 0

-- A run of the release script gives back what the permit holds.
script-held :
    (k key : Text) (s : Counters)
    → current k (release_script key s).1 ≡ current k s - held k (release_of key)
script-held k key s = elim (Bool-cases (key == k)) [
  | inl e ↦ rw e (release_script-current key k s ∙ rw (e, ==→eq key k e) refl)
  | inr e ↦ rw e (release_script-current key k s ∙ rw e (omega arith))
]

pub release-held :
    (k : Text) (link : Link) (permit : Permit) (s : Counters)
    → link ≢ down
    → current k (release link permit s) ≡ current k s - held k permit
unfolding release
release-held k link noop s h = omega arith
release-held k down (release_of key) s h = absurd (h refl)
release-held k unanswered (release_of key) s h = script-held k key s
release-held k up (release_of key) s h = script-held k key s

verdict-owed :
    (key k : Text) (max_concurrency result : ℤ) (s t : Counters)
    → Counted key max_concurrency result s t
    → (key == k) ≡ true
    → current k t ≡ current k s + owed k (verdict key result)
verdict-owed key k max_concurrency (pos n) s t h e = rw e (rw (← ==→eq key k e) h.0)
verdict-owed key k max_concurrency (negsuc n) s t h e = rw (← ==→eq key k e) (omega (arith, h))

other-owed : (key k : Text) (result : ℤ) → (key == k) ≡ false → owed k (verdict key result) ≡ 0
other-owed key k (pos n) e = rw e refl
other-owed key k (negsuc n) e = refl

fallback-owed : (k : Text) (b : Bool) → owed k (fallback b) ≡ 0
unfolding fallback
fallback-owed k true = refl
fallback-owed k false = refl

module _ (k key rpm_key : Text) (max_concurrency rpm : ℤ) (apart : (key == rpm_key) ≡ false)
    (other : (rpm_key == k) ≡ false) where
  pub acquire_keys-owed :
      (link : Link) (failing_open : Bool) (s : Counters)
      → link ≢ unanswered
      → current k (acquire_keys link key rpm_key max_concurrency rpm failing_open s).1
        ≡ current k s + owed k (acquire_keys link key rpm_key max_concurrency rpm failing_open s).0
  unfolding acquire_keys
  acquire_keys-owed down b s h = omega (arith, fallback-owed k b)
  acquire_keys-owed unanswered b s h = absurd (h refl)
  acquire_keys-owed up b s h = elim (Bool-cases (key == k)) [
    | inl e ↦
        verdict-owed key k max_concurrency _ s _
          (acquire_script-Counted key rpm_key max_concurrency rpm counter_ttl (omega arith) s apart)
          e
    | inr e ↦
        let same =
          acquire_script-apart k key rpm_key e max_concurrency rpm counter_ttl s (omega arith)
            other in
        omega (
          arith,
          same,
          other-owed key k (acquire_script key rpm_key max_concurrency rpm counter_ttl s).0 e,
        )
  ]
