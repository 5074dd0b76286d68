-- ===== src/Control/Billing/Wallet.antt =====
-- internal/control/billing.go: prices, wallets and the journal. The tables are those of
-- migrations/005_billing.sql; a transaction that fails leaves them as they were.
use gateway_platform.Base.Map.{update}
use gateway_platform.Base.Int.{ℤ, ◌+ℤ◌, leb_ℤ, pos_part, pos, int_eq, neg_part, ltb_ℤ}
use gateway_platform.Base.Text.{Text, is_empty}
use gateway_platform.Base.{
  false, if◌then◌else◌, List, Bool, Option, ltb, ◌∷◌, not, ◌==◌, some, none, ◌||◌, [], ◌&&◌, ◌^◌,
  nat_beq, leb, nat_eq, list_eq, all, any, ℕ, ◌/◌, ◌*◌,
}
use gateway_platform.Contracts.Types.{Time}

-- A `ModelPrice` as a caller passes it.
pub record PriceRequest : Type 0 where
  pub id : Text
  pub provider : Text
  pub model : Text
  pub unit_scale : ℤ
  pub price_input : ℤ
  pub price_output : ℤ
  pub price_cache_read : ℤ
  pub price_cache_write : ℤ
  pub effective_from : Time

-- A row of `model_prices`, whose CHECK keeps the amounts from being negative.
pub record ModelPrice : Type 0 where
  pub id : Text
  pub provider : Text
  pub model : Text
  pub unit_scale : ℤ
  pub price_input : ℕ
  pub price_output : ℕ
  pub price_cache_read : ℕ
  pub price_cache_write : ℕ
  pub effective_from : Time

pub data MovementKind : Type 0 where
  topup debit adjustment : MovementKind
  unsupported_kind : Text → MovementKind

pub record WalletMovement : Type 0 where
  pub id : Text
  pub tenant_id : Text
  pub kind : MovementKind
  pub amount : ℤ
  pub billing_run_id : Text
  pub note : Text

pub record WalletTransaction : Type 0 where
  pub id : Text
  pub tenant_id : Text
  pub kind : MovementKind
  pub amount : ℤ
  pub balance_after : ℤ
  pub billing_run_id : Text
  pub note : Text

-- `tenant_wallets` and `wallet_transactions`; the journal is newest first.
pub record Wallets : Type 0 where
  pub balance : Text → Option ℤ
  pub journal : List WalletTransaction

pub data WalletError : Type 0 where
  missing_identity unstorable_amount refused_amount unknown_kind : WalletError
  wallet_not_found numeric_overflow duplicate_id : WalletError

pub data WalletResult (A : Type 0) : Type 0 where
  done : A → WalletResult A
  failed : WalletError → WalletResult A

-- A NUMERIC(38,12) holds 38 digits, 26 of them before the point.
abbrev pub fits_column : ℤ → Bool
fits_column a = ltb (pos_part a) (10 ^ 38) && ltb (neg_part a) (10 ^ 38)

-- `checkMovementKind`, for an amount that is a decimal.
unfoldable pub check_movement_kind : MovementKind → ℤ → Option WalletError
check_movement_kind topup amount = if leb_ℤ amount (pos 0) then some refused_amount else none
check_movement_kind debit amount = if leb_ℤ (pos 0) amount then some refused_amount else none
check_movement_kind adjustment amount = if amount == pos 0 then some refused_amount else none
check_movement_kind (unsupported_kind _) amount = some unknown_kind

unfoldable pub has_transaction : Text → List WalletTransaction → Bool
has_transaction id [] = false
has_transaction id (t ∷ ts) = t.id == id || has_transaction id ts

-- The update and the journal entry, once the wallet is locked.
unfoldable pub move : Wallets → WalletMovement → ℤ → WalletResult (WalletTransaction × Wallets)
unfolding has_transaction ◌+ℤ◌
move w m locked =
    let after = locked +ℤ m.amount in
    let entry : WalletTransaction = record {
      id = m.id;
      tenant_id = m.tenant_id;
      kind = m.kind;
      amount = m.amount;
      balance_after = after;
      billing_run_id = m.billing_run_id;
      note = m.note;
    } in
    if not (fits_column after)
    then failed numeric_overflow
    else if has_transaction m.id w.journal
    then failed duplicate_id
    else done (
      entry,
      record { balance = update w.balance m.tenant_id after; journal = entry ∷ w.journal },
    )

-- `applyMovement`.
unfoldable pub apply_movement :
    Wallets → WalletMovement → WalletResult (WalletTransaction × Wallets)
unfolding move check_movement_kind
apply_movement w m =
    if is_empty m.id || is_empty m.tenant_id
    then failed missing_identity
    else if not (fits_column m.amount)
    then failed unstorable_amount
    else elim (check_movement_kind m.kind m.amount) [
      | some e ↦ failed e
      | none ↦ elim (w.balance m.tenant_id) [
        | none ↦ failed wallet_not_found
        | some locked ↦ move w m locked
      ]
    ]

-- `EnsureWallet`.
unfoldable pub ensure_wallet : Wallets → Text → Option Wallets
ensure_wallet w tenant_id = if is_empty tenant_id then none else elim (w.balance tenant_id) [
  | some _ ↦ some w
  | none ↦ some (record w { balance = update w.balance tenant_id (pos 0) })
]

pub data PriceError : Type 0 where
  price_needs_identity bad_unit_scale not_in_future unstorable_price negative_price : PriceError
  duplicate_price : PriceError

unfoldable pub price_amounts : PriceRequest → List ℤ
price_amounts p = p.price_input ∷ p.price_output ∷ p.price_cache_read ∷ p.price_cache_write ∷ []

-- An instant as a column TIMESTAMPTZ holds it: in whole microseconds.
unfoldable pub stored_time : Time → Time
stored_time t = t / 1000 * 1000

unfoldable pub same_price_key : PriceRequest → ModelPrice → Bool
unfolding stored_time
same_price_key p q =
    p.id == q.id
    || (p.provider == q.provider
        && p.model == q.model
        && nat_beq (stored_time p.effective_from) q.effective_from)

unfoldable pub price_row : PriceRequest → ModelPrice
unfolding stored_time
price_row p = record {
  id = p.id;
  provider = p.provider;
  model = p.model;
  unit_scale = p.unit_scale;
  price_input = pos_part p.price_input;
  price_output = pos_part p.price_output;
  price_cache_read = pos_part p.price_cache_read;
  price_cache_write = pos_part p.price_cache_write;
  effective_from = stored_time p.effective_from;
}

-- `InsertModelPrice`. The four amounts are checked in the order of a Go map, so which of their two
-- errors is reported first is not determined.
unfoldable pub insert_model_price :
    List ModelPrice → PriceRequest → Time → List ModelPrice × Option PriceError
unfolding price_amounts same_price_key price_row
insert_model_price prices p now =
    if is_empty p.id || is_empty p.provider || is_empty p.model
    then (prices, some price_needs_identity)
    else if leb_ℤ p.unit_scale (pos 0)
    then (prices, some bad_unit_scale)
    else if leb p.effective_from now
    then (prices, some not_in_future)
    else if not (all (λ a. fits_column a) (price_amounts p))
    then (prices, some unstorable_price)
    else if any (λ a. ltb_ℤ a (pos 0)) (price_amounts p)
    then (prices, some negative_price)
    else if any (same_price_key p) prices
    then (prices, some duplicate_price)
    else (price_row p ∷ prices, none)

unfoldable pub in_effect : Text → Text → Time → ModelPrice → Bool
in_effect provider model at p =
    p.provider == provider && p.model == model && leb p.effective_from at

unfoldable pub later_price : ModelPrice → Option ModelPrice → Option ModelPrice
later_price p none = some p
later_price p (some q) = if ltb p.effective_from q.effective_from then some q else some p

-- `priceAt`: the last of the prices in effect at an instant, `none` where no row is found.
unfoldable pub price_at : List ModelPrice → Text → Text → Time → Option ModelPrice
unfolding in_effect later_price
price_at [] provider model at = none
price_at (p ∷ ps) provider model at =
    let rest = price_at ps provider model at in
    if in_effect provider model at p then later_price p rest else rest
