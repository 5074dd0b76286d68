-- ===== src/Gateway/Chooser/Cooldowns/Jitter.antt =====
-- internal/gateway/chooser.go: the range of a jittered duration.
use gateway_platform.Gateway.Chooser.Cooldowns.{with_jitter}
use gateway_platform.Base.Int.{pos_part, pos, wrap64, wrap64_pos, leb_ℤ}
use gateway_platform.Base.{
  ◌≡◌, refl, ◌≤◌, ◌<◌, arith, ◌*◌, ℕ, Option, ◌+◌, some, ◌%◌, none, ◌/◌, false,
}

-- The longest duration that the jitter scales without overflow, in nanoseconds: over two years.
abbrev pub jitter_limit : ℕ
jitter_limit = 70000000000000000

factor_bounds : (b raw : ℕ) → (b * 80 ≤ b * (80 + raw % 41)) × (b * (80 + raw % 41) ≤ b * 120)
factor_bounds b raw = (grind arith, grind arith)

with_jitter_lem :
    (raw b : ℕ)
    → 0 < b
    → b ≤ jitter_limit
    → with_jitter (some raw) (pos b) ≡ pos (b * (80 + raw % 41) / 100)
unfolding with_jitter
with_jitter_lem raw b h k =
    let positive : leb_ℤ (pos b) (pos 0) ≡ false = ground arith in
    let exact : wrap64 (pos (b * (80 + raw % 41))) ≡ pos (b * (80 + raw % 41)) =
      wrap64_pos (b * (80 + raw % 41)) (omega (arith, factor_bounds b raw)) in
    rw (positive, exact)

-- The jitter moves a positive duration by a fifth at most, whatever the random byte is and also
-- where none could be read, and rounds down by less than a nanosecond.
pub with_jitter_bounds :
    (raw : Option ℕ) (b : ℕ)
    → 0 < b
    → b ≤ jitter_limit
    → let r = pos_part (with_jitter raw (pos b)) in
      (with_jitter raw (pos b) ≡ pos r) × (100 * r ≤ 120 * b) × (80 * b < 100 * r + 100)
unfolding with_jitter
with_jitter_bounds none b h k = (refl, omega arith, omega arith)
with_jitter_bounds (some raw) b h k =
    rw (with_jitter_lem raw b h k)
      (refl, omega (arith, factor_bounds b raw), omega (arith, factor_bounds b raw))
