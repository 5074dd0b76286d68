-- ===== src/Tests/Cooldowns.antt =====
-- Cooldowns of one account, and rejections on one egress path.
use gateway_platform.Gateway.Chooser.Cooldowns.Jitter.{with_jitter_bounds}
use gateway_platform.Gateway.Chooser.Cooldowns.Egress.{two_accounts_trip}
use gateway_platform.Gateway.Chooser.Cooldowns.{with_jitter, mark_egress_rejected}
use gateway_platform.Gateway.Chooser.Select.{make_lease}
use gateway_platform.Contracts.Types.{Lease}
use gateway_platform.Gateway.Chooser.Select.Eligible.{Eligible}
use gateway_platform.Gateway.Chooser.{Chooser, new_chooser}
use gateway_platform.Base.{
  ◌≡◌, refl, true, some, none, [], ◌∷◌, arith, ◌*◌, ◌≤◌, ◌<◌, ◌+◌, list_beq, ◌≢◌, false_iff,
}
use gateway_platform.Base.Text.{Text, text_beq_iff}
use gateway_platform.Base.Int.{pos, pos_part}
use gateway_platform.Tests.Chooser.{account, a, b, request}

abbrev one : Chooser
one = record new_chooser { accounts = (a, account a) ∷ [] }

with_jitter_bounds_example :
    let r = pos_part (with_jitter (some 200) (pos 7000000000)) in
    (with_jitter (some 200) (pos 7000000000) ≡ pos r)
    × (100 * r ≤ 120 * 7000000000)
    × (80 * 7000000000 < 100 * r + 100)
with_jitter_bounds_example = with_jitter_bounds (some 200) 7000000000 (omega arith) (omega arith)

-- Two failures were counted: the third rests the account for a minute.
abbrev counted_two : Chooser
counted_two = record one { failures = λ k. some 2 }

abbrev lease : Text → Lease
lease id = make_lease (λ n. n) 5 (account id)

b_is_not_a : b ≢ a
unfolding list_beq
b_is_not_a = (false_iff _ (text_beq_iff b a)).0 refl

two_accounts_trip_example :
    let after =
      mark_egress_rejected none 6 (mark_egress_rejected none 5 one (lease a)).0 (lease b) in
    (after.1 ≡ true) × (¬ Eligible after.0 request [] 7 a (account a))
unfolding make_lease
two_accounts_trip_example =
    two_accounts_trip none none 5 6 7 one (lease a) (lease b) request [] a (account a) refl refl
      b_is_not_a (omega arith) (omega arith)
