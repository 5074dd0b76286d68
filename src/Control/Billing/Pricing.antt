-- ===== src/Control/Billing/Pricing.antt =====
-- internal/control/billing.go: InsertModelPrice and priceAt together. A price takes effect only after
-- it is recorded, so no instant that has passed is priced anew.
use gateway_platform.Control.Billing.Wallet.{
  ModelPrice, in_effect, price_at, insert_model_price, later_price, price_row, PriceRequest,
  stored_time,
}
use gateway_platform.Base.{
  ◌≡◌, refl, true, false, some, none, inl, inr, [], ◌∷◌, arith, List, ◌≤◌, ◌↔◌, Option, All, Elem,
  false_iff, All-map, Bool-cases, ℕ, ltb, ◌<◌, ◌/◌, ◌*◌,
}
use gateway_platform.Base.Text.{Text, text_beq_iff}
use gateway_platform.Contracts.Types.{Time}

-- The price applies to the provider's model at the instant.
abbrev pub InEffect : Text → Text → Time → ModelPrice → Type 0
InEffect provider model at p = (p.provider ≡ provider) × (p.model ≡ model) × (p.effective_from ≤ at)

pub in_effect_iff :
    (provider model : Text) (at : Time) (p : ModelPrice)
    → (in_effect provider model at p ≡ true) ↔ InEffect provider model at p
unfolding in_effect
in_effect_iff provider model at p =
    ground (arith, text_beq_iff p.provider provider, text_beq_iff p.model model)

-- The answer is the last price in effect, or that there is none.
pub data LastInEffect (prices : List ModelPrice) (provider model : Text) (at : Time)
    : Option ModelPrice → Type 0 where
  no_price_yet :
      All (λ q. in_effect provider model at q ≡ false) prices
      → LastInEffect prices provider model at none
  last_price :
      {p : ModelPrice}
      → Elem p prices
      → InEffect provider model at p
      → All (λ q. InEffect provider model at q → q.effective_from ≤ p.effective_from) prices
      → LastInEffect prices provider model at (some p)

not_in_effect :
    (provider model : Text) (at : Time) (p : ModelPrice)
    → in_effect provider model at p ≡ false
    → InEffect provider model at p
    → ⊥
not_in_effect provider model at p f e = (false_iff _ (in_effect_iff provider model at p)).0 f e

-- A price in front of the others that is not in effect changes nothing.
skipped :
    (p : ModelPrice) (ps : List ModelPrice) (provider model : Text) (at : Time)
    (o : Option ModelPrice)
    → in_effect provider model at p ≡ false
    → LastInEffect ps provider model at o
    → LastInEffect (p ∷ ps) provider model at o
skipped p ps provider model at _ f (no_price_yet none_yet) = no_price_yet (f, none_yet)
skipped p ps provider model at _ f (last_price m e later) =
    last_price (inr m) e (λ i. absurd (not_in_effect provider model at p f i), later)

-- One that is in effect is compared with the last of the others.
compared :
    (p : ModelPrice) (ps : List ModelPrice) (provider model : Text) (at : Time)
    (o : Option ModelPrice)
    → InEffect provider model at p
    → LastInEffect ps provider model at o
    → LastInEffect (p ∷ ps) provider model at (later_price p o)
unfolding later_price
compared p ps provider model at _ e (no_price_yet none_yet) =
    let only =
      All-map _ (λ q. InEffect provider model at q → q.effective_from ≤ p.effective_from)
        (λ q f i. absurd (not_in_effect provider model at q f i)) ps none_yet in
    last_price (inl refl) e (λ _. omega arith, only)
compared p ps provider model at _ e (last_price {p = q} m i later) =
    elim (Bool-cases (ltb p.effective_from q.effective_from)) [
      | inl t ↦ rw t (last_price (inr m) i (λ _. ground arith, later))
      | inr f ↦
          let order : q.effective_from ≤ p.effective_from = ground arith in
          let only =
            All-map _ (λ r. InEffect provider model at r → r.effective_from ≤ p.effective_from)
              (λ r bound j. trans_le (bound j) order) ps later in
          rw f (last_price (inl refl) e (λ _. omega arith, only))
    ]
  where
    trans_le : {a b c : ℕ} → a ≤ b → b ≤ c → a ≤ c
    trans_le h k = omega arith

-- Whatever the prices, the lookup returns the last of those in effect for the model at the instant, and
-- nothing exactly when none of them is in effect.
pub price_at_last :
    (prices : List ModelPrice) (provider model : Text) (at : Time)
    → LastInEffect prices provider model at (price_at prices provider model at)
unfolding price_at
price_at_last [] provider model at = no_price_yet tt
price_at_last (p ∷ ps) provider model at =
    let rest = price_at_last ps provider model at in
    elim (Bool-cases (in_effect provider model at p)) [
      | inl t ↦
          rw t (compared p ps provider model at _ ((in_effect_iff provider model at p).0 t) rest)
      | inr f ↦ rw f (skipped p ps provider model at _ f rest)
    ]

-- Recording a price changes no price at an instant before the microsecond of the present, accepted or not.
pub insert_model_price_forward :
    (prices : List ModelPrice) (p : PriceRequest) (now : Time) (provider model : Text) (at : Time)
    → at < now / 1000 * 1000
    → price_at (insert_model_price prices p now).0 provider model at
      ≡ price_at prices provider model at
unfolding insert_model_price price_at in_effect price_row stored_time
insert_model_price_forward prices p now provider model at h = ground arith
