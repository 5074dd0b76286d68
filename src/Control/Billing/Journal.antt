-- ===== src/Control/Billing/Journal.antt =====
-- internal/control/billing.go: applyMovement and EnsureWallet keep a wallet's balance equal to its
-- journal.
use gateway_platform.Base.Map.{update}
use gateway_platform.Base.Int.{◌+ℤ◌, ℤ, pos}
use gateway_platform.Control.Billing.Wallet.{
  Wallets, move, apply_movement, WalletTransaction, WalletMovement, has_transaction,
  check_movement_kind, done, ensure_wallet,
}
use gateway_platform.Base.{
  ◌≡◌, refl, false, some, none, inl, inr, [], ◌∷◌, arith, List, get_or, if◌then◌else◌, ◌==◌, nat_eq,
  list_eq, Option-cases, ==_refl, sym, Bool-cases, ne→==, ◌∙◌, ap, ==→eq, false_iff,
}
use gateway_platform.Base.Text.{Text, text_beq_iff}

-- A tenant without a wallet has nothing.
abbrev pub balance_of : Wallets → Text → ℤ
balance_of w tenant_id = get_or (pos 0) (w.balance tenant_id)

-- What the journal, newest first, amounts to for a tenant.
unfoldable pub replay : List WalletTransaction → Text → ℤ
unfolding ◌+ℤ◌
replay [] tenant_id = pos 0
replay (t ∷ ts) tenant_id =
    if t.tenant_id == tenant_id then replay ts tenant_id +ℤ t.amount else replay ts tenant_id

-- Each entry carries the balance that it led to.
abbrev pub RunningBalances : List WalletTransaction → Type 0
RunningBalances [] = Unit
RunningBalances (t ∷ ts) = (t.balance_after ≡ replay (t ∷ ts) t.tenant_id) × RunningBalances ts

abbrev pub DistinctIds : List WalletTransaction → Type 0
DistinctIds [] = Unit
DistinctIds (t ∷ ts) = (has_transaction t.id ts ≡ false) × DistinctIds ts

abbrev pub Journaled : Wallets → Type 0
Journaled w =
    ((tenant_id : Text) → balance_of w tenant_id ≡ replay w.journal tenant_id)
    × RunningBalances w.journal
    × DistinctIds w.journal

-- What a movement that is applied does, and when it is.
pub data Moved (w : Wallets) (m : WalletMovement) (e : WalletTransaction) (w' : Wallets)
    : Type 0 where
  moved :
      {locked : ℤ}
      → w.balance m.tenant_id ≡ some locked
      → check_movement_kind m.kind m.amount ≡ none
      → has_transaction m.id w.journal ≡ false
      → (e.id ≡ m.id) × (e.tenant_id ≡ m.tenant_id) × (e.amount ≡ m.amount)
      → e.balance_after ≡ locked +ℤ m.amount
      → w'.balance ≡ update w.balance m.tenant_id (locked +ℤ m.amount)
      → w'.journal ≡ e ∷ w.journal
      → Moved w m e w'

pub move-Moved :
    (w : Wallets) (m : WalletMovement) (locked : ℤ) (e : WalletTransaction) (w' : Wallets)
    → w.balance m.tenant_id ≡ some locked
    → check_movement_kind m.kind m.amount ≡ none
    → move w m locked ≡ done (e, w')
    → Moved w m e w'
unfolding move
move-Moved w m locked e w' b k h =
    moved b k (ground arith) (ground arith) (ground arith) (ground arith) (ground arith)

pub apply_movement-Moved :
    (w : Wallets) (m : WalletMovement) (e : WalletTransaction) (w' : Wallets)
    → apply_movement w m ≡ done (e, w')
    → Moved w m e w'
unfolding apply_movement
apply_movement-Moved w m e w' h = elim (Option-cases (check_movement_kind m.kind m.amount)) [
  | inr (_, refused) ↦ ground arith
  | inl k ↦ elim (Option-cases (w.balance m.tenant_id)) [
    | inl no_wallet ↦ ground arith
    | inr (locked, b) ↦ move-Moved w m locked e w' b k (ground arith)
  ]
]

replay_here :
    (t : WalletTransaction) (ts : List WalletTransaction) (tenant_id : Text)
    → t.tenant_id ≡ tenant_id
    → replay (t ∷ ts) tenant_id ≡ replay ts tenant_id +ℤ t.amount
unfolding replay
replay_here t ts tenant_id h = ground (arith, text_beq_iff t.tenant_id tenant_id)

replay_elsewhere :
    (t : WalletTransaction) (ts : List WalletTransaction) (tenant_id : Text)
    → (t.tenant_id ≡ tenant_id → ⊥)
    → replay (t ∷ ts) tenant_id ≡ replay ts tenant_id
unfolding replay
replay_elsewhere t ts tenant_id h = ground (arith, text_beq_iff t.tenant_id tenant_id)

-- A tenant's balance after a movement.
pub Moved-balance :
    {w w' : Wallets} {m : WalletMovement} {e : WalletTransaction}
    → Moved w m e w'
    → (balance_of w' m.tenant_id ≡ balance_of w m.tenant_id +ℤ m.amount)
      × ((tenant_id : Text)
          → (tenant_id ≡ m.tenant_id → ⊥)
          → w'.balance tenant_id ≡ w.balance tenant_id)
Moved-balance {w} {w'} {m} {e} (moved {locked} b k fresh same after bs js) = (
  rw (bs, ==_refl m.tenant_id, b) refl,
  λ tenant_id n. rw (bs, ne→== tenant_id m.tenant_id n) refl,
)

-- What the journal amounts to after a movement.
Moved-replay :
    {w w' : Wallets} {m : WalletMovement} {e : WalletTransaction}
    → Moved w m e w'
    → (replay w'.journal m.tenant_id ≡ replay w.journal m.tenant_id +ℤ m.amount)
      × ((tenant_id : Text)
          → (tenant_id ≡ m.tenant_id → ⊥)
          → replay w'.journal tenant_id ≡ replay w.journal tenant_id)
Moved-replay {w} {w'} {m} {e} (moved b k fresh (_, t, a) after bs js) = (
  rw (js, replay_here e w.journal m.tenant_id t, a) refl,
  λ tenant_id n. rw js (replay_elsewhere e w.journal tenant_id (λ q. n (sym q ∙ t))),
)

Moved-totals :
    {w w' : Wallets} {m : WalletMovement} {e : WalletTransaction}
    → Moved w m e w'
    → ((tenant_id : Text) → balance_of w tenant_id ≡ replay w.journal tenant_id)
    → (tenant_id : Text) → balance_of w' tenant_id ≡ replay w'.journal tenant_id
Moved-totals {w} {w'} {m} h total t = elim (Bool-cases (t == m.tenant_id)) [
  | inl q ↦
      let here =
        (Moved-balance h).0
        ∙ ap (λ b. b +ℤ m.amount) (total m.tenant_id)
        ∙ sym (Moved-replay h).0 in
      rw (==→eq t m.tenant_id q) here
  | inr f ↦
      let n : t ≡ m.tenant_id → ⊥ = (false_iff _ (text_beq_iff t m.tenant_id)).0 f in
      ap (get_or (pos 0)) ((Moved-balance h).1 t n) ∙ total t ∙ sym ((Moved-replay h).1 t n)
]

pub Moved-Journaled :
    {w w' : Wallets} {m : WalletMovement} {e : WalletTransaction}
    → Moved w m e w'
    → Journaled w
    → Journaled w'
Moved-Journaled {w} {w'} {m} {e} (moved {locked} b k fresh same after bs js)
      (total, running, distinct) =
    let h : Moved w m e w' = moved b k fresh same after bs js in
    let was : locked ≡ replay w.journal m.tenant_id =
      sym (ap (get_or (pos 0)) b) ∙ total m.tenant_id in
    let entry : e.balance_after ≡ replay (e ∷ w.journal) e.tenant_id =
      cc (after, was, same.1, same.2, replay_here e w.journal e.tenant_id refl) in
    (Moved-totals h total, rw js (entry, running), rw js (rw same.0 fresh, distinct))

pub ensure_wallet-Journaled :
    (w w' : Wallets) (tenant_id : Text)
    → ensure_wallet w tenant_id ≡ some w'
    → Journaled w
    → Journaled w'
unfolding ensure_wallet
ensure_wallet-Journaled w w' tenant_id h (total, running, distinct) =
    elim (Option-cases (w.balance tenant_id)) [
      | inr (b, here) ↦ let same : w ≡ w' = ground arith in rw (← same) (total, running, distinct)
      | inl absent ↦
          let bs : w'.balance ≡ update w.balance tenant_id (pos 0) = ground arith in
          let js : w'.journal ≡ w.journal = ground arith in
          (
            λ t. elim (Bool-cases (t == tenant_id)) [
              | inl q ↦ rw (bs, q, js, ← total t, ==→eq t tenant_id q, absent) refl
              | inr f ↦ rw (bs, f, js) (total t)
            ],
            rw js running,
            rw js distinct,
          )
    ]

-- The wallets that a sequence of the two writers leads to.
pub data Reach : Wallets → Type 0 where
  empty_wallets : Reach (record { balance = λ _. none; journal = [] })
  ensured :
      {w w' : Wallets} (tenant_id : Text) → Reach w → ensure_wallet w tenant_id ≡ some w' → Reach w'
  applied :
      {w w' : Wallets} {e : WalletTransaction} (m : WalletMovement)
      → Reach w
      → apply_movement w m ≡ done (e, w')
      → Reach w'

-- However wallets are opened and moved, each balance is what the journal amounts to, each entry
-- carries the balance of its tenant at that point, and no two entries share an id.
pub Reach-Journaled : (w : Wallets) → Reach w → Journaled w
unfolding replay
Reach-Journaled _ empty_wallets = (λ _. refl, tt, tt)
Reach-Journaled w (ensured {w = v} t r h) = ensure_wallet-Journaled v w t h (Reach-Journaled v r)
Reach-Journaled w (applied {w = v} {e = e} m r h) =
    Moved-Journaled (apply_movement-Moved v m e w h) (Reach-Journaled v r)
