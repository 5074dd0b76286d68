-- ===== src/Tests/Limiter.antt =====
-- Permits of one account, a ceiling of two, and the pin of a session.
use gateway_platform.Gateway.Limiter.InFlight.{InFlight}
use gateway_platform.Gateway.Limiter.{
  acquire, up, acquire_keys, concurrency_key, acquire_script, count_minute, increment, admitted,
  release_of,
}
use gateway_platform.Gateway.Sticky.{Pins, lookup_pin, pin, pin_lookup}
use gateway_platform.Gateway.Limiter.{Counters}
use gateway_platform.Contracts.Types.{AccountLimits, unset, with_defaults}
use gateway_platform.Base.{
  ◌≡◌, refl, true, none, arith, [], ◌∷◌, list_beq, nat_eq, list_eq, ℕ, ◌/◌, List, ◌≢◌, ◌+◌, ap,
}
use gateway_platform.Base.Int.{ℤ, pos, pos_part}
use gateway_platform.Base.Text.{Text, codes}

abbrev limits : AccountLimits
limits = record { max_concurrency = pos 2; rpm = pos 0; sticky_ttl = pos 0; degrade_policy = unset }

abbrev idle : Counters
idle = record { clock = 0; counts = λ _. none }

abbrev one_in : Counters
unfolding acquire
one_in = (acquire up (codes "a") limits 0 idle).1

-- Two permits are out when the counter expires: a third is admitted.
abbrev two_in : Counters
unfolding acquire one_in
two_in = (acquire up (codes "a") limits 0 one_in).1

expired_admits :
    (acquire up (codes "a") limits 2 (record two_in { clock = 120000 })).0
    ≡ admitted (release_of (concurrency_key (codes "a")))
unfolding acquire acquire_keys acquire_script count_minute increment list_beq with_defaults one_in
    two_in
expired_admits = refl

abbrev digest : Text → Text
digest s = codes "0123456789abcdef"

abbrev lifetime : ℤ → ℕ
lifetime ttl = pos_part ttl / 1000000

abbrev list_sum : List ℕ → ℕ
list_sum [] = 0
list_sum (x ∷ xs) = x + list_sum xs

abbrev no_pins : Pins
no_pins = record { clock = 10; pinned = λ _. none }

u_is_not_t : codes "u" ≢ codes "t"
u_is_not_t e = omega (arith, ap (λ s. list_sum s) e)

pin_lookup_example :
    (lookup_pin digest lifetime true
        (codes "t")
        (codes "s")
        (record (pin digest lifetime true
          (codes "t")
          (codes "s")
          (codes "a")
          (pos 60000000000)
          no_pins) { clock = 50 })
      ≡ codes "a")
    × (lookup_pin digest lifetime true
          (codes "u")
          (codes "s")
          (pin digest lifetime true (codes "t") (codes "s") (codes "a") (pos 60000000000) no_pins)
        ≡ lookup_pin digest lifetime true (codes "u") (codes "s") no_pins)
pin_lookup_example =
    pin_lookup digest (λ a b. refl) lifetime (codes "t") (codes "s") (codes "a") (codes "u")
      (codes "s") (pos 60000000000) 50 no_pins refl refl refl refl (omega arith) u_is_not_t
