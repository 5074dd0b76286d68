-- ===== src/Gateway/Chooser/Cooldowns/Egress.antt =====
-- internal/gateway/chooser.go: when MarkEgressRejected short-circuits a path.
use gateway_platform.Gateway.Chooser.Cooldowns.Jitter.{with_jitter_bounds}
use gateway_platform.Gateway.Chooser.Select.Eligible.{Eligible}
use gateway_platform.Base.Text.{Text, text_beq_iff}
use gateway_platform.Base.Map.{lookup, put, lookup-put}
use gateway_platform.Contracts.Types.{Lease, Time, Criteria, Account}
use gateway_platform.Gateway.Chooser.{Chooser, Text, egress_key, seconds, add_time}
use gateway_platform.Gateway.Chooser.Cooldowns.{
  mark_egress_rejected, evidence, set_evidence, drop_old, later_exists, egress_signal_window,
  with_jitter, egress_short_circuit, egress_signal_accounts,
}
use gateway_platform.Base.{
  ◌≡◌, refl, ◌≤◌, ◌<◌, arith, ◌*◌, inl, inr, true, false, some, none, List, Option, [], ◌≢◌, ◌-◌, ℕ,
  ◌⊎◌, length, ==_refl, ◌∷◌, Bool, All, ne→==, ◌+◌, nat_eq, list_eq, ◌∙◌, Bool-cases, ltb, ap, sym,
}

mark-seen :
    (raw : Option ℕ) (now : Time) (c : Chooser) (l : Lease)
    → (mark_egress_rejected raw now c l).0.egress_seen (egress_key l.profile) ≡ evidence c l now
unfolding mark_egress_rejected set_evidence
mark-seen raw now c l = ground (arith, ==_refl (egress_key l.profile))

-- The only account seen on the path, if any was, is this one.
abbrev pub OnlySeen : Chooser → Text → Text → Type 0
OnlySeen c key id = (c.egress_seen key ≡ []) ⊎ ((at : Time) × (c.egress_seen key ≡ (id, at) ∷ []))

evidence_single :
    (c : Chooser) (l : Lease) (now : Time)
    → OnlySeen c (egress_key l.profile) l.account_id
    → evidence c l now ≡ (l.account_id, now) ∷ []
unfolding evidence drop_old put
evidence_single c l now (inl e) = rw e (ground arith)
evidence_single c l now (inr (at, e)) = rw (e, ==_refl l.account_id) (ground arith)

-- The rejections of one lease, each at its instant and with its random byte.
pub reject_all : Lease → List (Option ℕ × Time) → Chooser → Chooser × List Bool
reject_all l [] c = (c, [])
reject_all l ((raw, now) ∷ rest) c =
    let (c', tripped) = mark_egress_rejected raw now c l in
    let (d, answers) = reject_all l rest c' in (d, tripped ∷ answers)

mark_single :
    (raw : Option ℕ) (now : Time) (c : Chooser) (l : Lease)
    → OnlySeen c (egress_key l.profile) l.account_id
    → ((mark_egress_rejected raw now c l).1 ≡ false)
      × ((mark_egress_rejected raw now c l).0.egress ≡ c.egress)
unfolding mark_egress_rejected set_evidence
mark_single raw now c l s = rw (evidence_single c l now s) (refl, refl)

-- One account alone never trips the short circuit: however often its lease is rejected, every answer
-- is false and no path is blocked that was not.
pub reject_all_single :
    (l : Lease) (marks : List (Option ℕ × Time)) (c : Chooser)
    → OnlySeen c (egress_key l.profile) l.account_id
    → All (λ b. b ≡ false) (reject_all l marks c).1 × ((reject_all l marks c).0.egress ≡ c.egress)
unfolding reject_all
reject_all_single l [] c s = (tt, refl)
reject_all_single l ((raw, now) ∷ marks) c s =
    let (refused, same) = mark_single raw now c l s in
    let c' = (mark_egress_rejected raw now c l).0 in
    let only : OnlySeen c' (egress_key l.profile) l.account_id =
      inr (now, mark-seen raw now c l ∙ evidence_single c l now s) in
    let (nos, sames) = reject_all_single l marks c' only in ((refused, nos), sames ∙ same)

lookup-drop_old :
    (k : Text) (now at : Time) (m : List (Text × Time))
    → lookup k m ≡ some at
    → now - at ≤ egress_signal_window
    → lookup k (drop_old now m) ≡ some at
unfolding lookup drop_old
lookup-drop_old k now at [] e h = cc
lookup-drop_old k now at ((j, t) ∷ m) e h = ground (arith, lookup-drop_old k now at m)

two_entries :
    (a b : Text) (x y : Time) (m : List (Text × Time))
    → lookup a m ≡ some x
    → lookup b m ≡ some y
    → a ≢ b
    → 2 ≤ length m
unfolding lookup
two_entries a b x y [] p q n = absurd (cc)
two_entries a b x y ((j, t) ∷ []) p q n = ground (arith, text_beq_iff j a, text_beq_iff j b)
two_entries a b x y ((j, t) ∷ (k, u) ∷ m) p q n = omega arith

evidence_self :
    (c : Chooser) (l : Lease) (now : Time) → lookup l.account_id (evidence c l now) ≡ some now
unfolding evidence
evidence_self c l now =
    lookup-drop_old l.account_id now now _
      (rw (
        lookup-put l.account_id l.account_id now (c.egress_seen (egress_key l.profile)),
        ==_refl l.account_id,
      ))
      (omega arith)

evidence_other :
    (c : Chooser) (l : Lease) (now at : Time) (id : Text)
    → lookup id (c.egress_seen (egress_key l.profile)) ≡ some at
    → l.account_id ≢ id
    → now - at ≤ egress_signal_window
    → lookup id (evidence c l now) ≡ some at
unfolding evidence
evidence_other c l now at id e n h =
    lookup-drop_old id now at _
      (rw
        (
          lookup-put l.account_id id now (c.egress_seen (egress_key l.profile)),
          ne→== l.account_id id n,
        )
        e)
      h

until_bound :
    (raw : Option ℕ) (now : Time)
    → 100 * now + 80 * seconds 7 < 100 * add_time now (with_jitter raw egress_short_circuit) + 100
until_bound raw now =
    let (j, _, low) = with_jitter_bounds raw (seconds 7) (omega arith) (omega arith) in
    rw j (omega arith)

later_cases :
    (o : Option Time) (until : Time)
    → (later_exists o until ≡ false)
      ⊎ ((current : Time) × (later_exists o until ≡ true) × (o ≡ some current) × (until < current))
unfolding later_exists
later_cases none until = inl refl
later_cases (some current) until = elim (Bool-cases (ltb until current)) [
  | inl e ↦ inr (current, e, refl, ground arith)
  | inr e ↦ inl e
]

-- A rejection with enough evidence trips, and blocks the path for nearly 5.6 s at least.
mark_trips :
    (raw : Option ℕ) (now : Time) (c : Chooser) (l : Lease)
    → 2 ≤ length (evidence c l now)
    → ((mark_egress_rejected raw now c l).1 ≡ true)
      × ((until : Time) × ((mark_egress_rejected raw now c l).0.egress (egress_key l.profile)
            ≡ some until)
          × (100 * now + 80 * seconds 7 < 100 * until + 100))
unfolding mark_egress_rejected set_evidence
mark_trips raw now c l h =
    let key = egress_key l.profile in
    let until = add_time now (with_jitter raw egress_short_circuit) in
    let enough : ltb (length (evidence c l now)) egress_signal_accounts ≡ false = ground arith in
    elim (later_cases (c.egress key) until) [
      | inl e ↦ rw (enough, e) (refl, (until, rw (==_refl key), until_bound raw now))
      | inr (current, e, f, g) ↦
          rw (enough, e) (refl, (current, f, omega (arith, until_bound raw now)))
    ]

-- Two accounts refused on one path within the window trip the short circuit, and no account is then
-- eligible through that path before four fifths of 7 s have passed.
pub two_accounts_trip :
    (raw raw' : Option ℕ) (now now' t : Time) (c : Chooser) (l l' : Lease) (criteria : Criteria)
    (excluded : List Text) (id : Text) (account : Account)
    → egress_key l'.profile ≡ egress_key l.profile
    → egress_key account.profile ≡ egress_key l.profile
    → l'.account_id ≢ l.account_id
    → now' ≤ now + egress_signal_window
    → 100 * t + 100 ≤ 100 * now' + 80 * seconds 7
    → let after = mark_egress_rejected raw' now' (mark_egress_rejected raw now c l).0 l' in
      (after.1 ≡ true) × (¬ Eligible after.0 criteria excluded t id account)
two_accounts_trip raw raw' now now' t c l l' criteria excluded id account p q n w v =
    let c' = (mark_egress_rejected raw now c l).0 in
    let first : lookup l.account_id (c'.egress_seen (egress_key l'.profile)) ≡ some now =
      rw (p, mark-seen raw now c l) (evidence_self c l now) in
    let both : 2 ≤ length (evidence c' l' now') =
      two_entries l'.account_id l.account_id now' now _ (evidence_self c' l' now')
        (evidence_other c' l' now' now l.account_id first n (omega arith)) n in
    let after = mark_egress_rejected raw' now' c' l' in
    let (tripped, path) = mark_trips raw' now' c' l' both in
    (
      tripped,
      λ h.
          absurd
            (omega (arith, path.2, h.egress_open path.0 (ap after.0.egress (q ∙ sym p) ∙ path.1))),
    )

-- A rejection leaves the accounts and the buckets as they are.
pub mark_egress-tables :
    (raw : Option ℕ) (now : Time) (c : Chooser) (l : Lease)
    → let d = (mark_egress_rejected raw now c l).0 in
      (d.accounts ≡ c.accounts) × (d.buckets ≡ c.buckets) × (d.owner ≡ c.owner)
unfolding mark_egress_rejected set_evidence
mark_egress-tables raw now c l = ground arith
