-- ===== src/Gateway/Limiter/InFlight.antt =====
-- The counter of an account against the requests that hold a permit for it.
use gateway_platform.Gateway.Limiter.Counts.{current}
use gateway_platform.Contracts.Types.{AccountLimits}
use gateway_platform.Base.Int.{ltb_ℤ, pos, leb_ℤ}
use gateway_platform.Gateway.Limiter.{
  concurrency_key, rpm_key, tenant_key, tenant_rpm_key, Counters, acquire, up, admitted,
  rate_limited, release_of, release, TenantLimits, acquire_tenant, read_count, unanswered, Link,
  down,
}
use gateway_platform.Base.Text.{Text}
use gateway_platform.Base.{
  ℕ, ◌≡◌, list_beq, ◌≢◌, ◌==◌, false, nat_eq, list_eq, refl, suc, true, ◌≤◌,
}

pub rpm_key-apart : (a b : Text) (unix : ℕ) → (rpm_key a unix == concurrency_key b) ≡ false
unfolding list_beq
rpm_key-apart a b unix = refl

pub tenant_rpm_key-apart :
    (a b : Text) (unix : ℕ) → (tenant_rpm_key a unix == concurrency_key b) ≡ false
unfolding list_beq
tenant_rpm_key-apart a b unix = refl

-- What happens to the counters, to the number of permits of one account that are out, and to the number of
-- those that nobody can give back any more, while its limits stay the same and its counter does not expire.
module _ (account_id : Text) (limits : AccountLimits) where
  pub data Move (s : Counters) (permits stuck : ℕ) : Counters → ℕ → ℕ → Type 0 where
    enter :
        (unix : ℕ) {t : Counters}
        → acquire up account_id limits unix s
          ≡ (admitted (release_of (concurrency_key account_id)), t)
        → Move s permits stuck t (suc permits) stuck
    turned_away :
        (unix : ℕ) {t : Counters}
        → acquire up account_id limits unix s ≡ (rate_limited, t)
        → Move s permits stuck t permits stuck
    answer_lost :
        (unix : ℕ)
        → (acquire up account_id limits unix s).0
          ≡ admitted (release_of (concurrency_key account_id))
        → Move s permits stuck (acquire unanswered account_id limits unix s).1 permits (suc stuck)
    refusal_lost :
        (unix : ℕ)
        → (acquire up account_id limits unix s).0 ≡ rate_limited
        → Move s permits stuck (acquire unanswered account_id limits unix s).1 permits stuck
    unreachable :
        (unix : ℕ) → Move s permits stuck (acquire down account_id limits unix s).1 permits stuck
    leave :
        (link : Link) (n : ℕ)
        → link ≢ down
        → permits ≡ suc n
        → Move s permits stuck (release link (release_of (concurrency_key account_id)) s) n stuck
    release_fails :
        (n : ℕ)
        → permits ≡ suc n
        → Move s permits stuck
            (release down (release_of (concurrency_key account_id)) s)
            n
            (suc stuck)
    other_account :
        (link : Link) (other : Text) (its : AccountLimits) (unix : ℕ)
        → other ≢ account_id
        → Move s permits stuck (acquire link other its unix s).1 permits stuck
    other_leaves :
        (link : Link) (other : Text)
        → other ≢ account_id
        → Move s permits stuck (release link (release_of (concurrency_key other)) s) permits stuck
    tenant_enters :
        (link : Link) (tenant_id : Text) (its : TenantLimits) (unix : ℕ)
        → Move s permits stuck (acquire_tenant link tenant_id its unix s).1 permits stuck
    tenant_leaves :
        (link : Link) (tenant_id : Text)
        → Move s permits stuck (release link (release_of (tenant_key tenant_id)) s) permits stuck
    wait :
        (now : ℕ)
        → s.clock ≤ now
        → read_count now (s.counts (concurrency_key account_id))
          ≡ read_count s.clock (s.counts (concurrency_key account_id))
        → Move s permits stuck (record s { clock = now }) permits stuck

  pub data Moves (s : Counters) : Counters → ℕ → ℕ → Type 0 where
    start : current (concurrency_key account_id) s ≡ 0 → Moves s s 0 0
    then_move : {t u : Counters} {n k m j : ℕ} → Moves s t n k → Move t n k u m j → Moves s u m j

  -- The counter stands at a number, and stays under a ceiling that is set.
  pub record InFlight (s : Counters) (permits : ℕ) : Type 0 where
    pub counts : current (concurrency_key account_id) s ≡ permits
    pub bounded :
        ltb_ℤ (pos 0) limits.max_concurrency ≡ true
        → leb_ℤ (pos permits) limits.max_concurrency ≡ true
