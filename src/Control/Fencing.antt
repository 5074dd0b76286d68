-- ===== src/Control/Fencing.antt =====
-- internal/control/fencing.go: Acquire and UpdateCredential over the tables `accounts` and
-- `credentials`. The advisory lock of TryAcquireSingleton is the database's own.
use gateway_platform.Base.Map.{update}
use gateway_platform.Base.{
  ◌≡◌, refl, false, some, none, inl, inr, arith, List, Option, ℕ, if◌then◌else◌, ◌≤◌, suc, ap, ◌<◌,
  ltb, some_and, Option-cases, ◌∙◌, nat_eq, list_eq, ◌^◌, nat_beq, ==_refl, some_inj, sym,
  Bool-cases, ◌==◌, ==→eq,
}
use gateway_platform.Base.Text.{Text}
use gateway_platform.Contracts.Types.{Time}

pub record StoredCredential : Type 0 where
  pub encrypted_secret : List ℕ
  pub expires_at : Option Time
  pub version : ℕ

-- The column fence_epoch by account, and the credential's row by account.
pub record FenceTables : Type 0 where
  pub fence_epoch : Text → Option ℕ
  pub credentials : Text → Option StoredCredential

bump : Option ℕ → Text → FenceTables → Option (ℕ × FenceTables)
bump none id t = none
bump (some epoch) id t =
    if ltb (suc epoch) (2 ^ 63)
    then some (suc epoch, record t { fence_epoch = update t.fence_epoch id (suc epoch) })
    else none

-- `Acquire`; `none` for an account that is not there, and where the BIGINT overflows.
unfoldable pub acquire_fence : Text → FenceTables → Option (ℕ × FenceTables)
unfolding bump
acquire_fence id t = bump (t.fence_epoch id) id t

pub data UpdateResult : Type 0 where
  updated fence_lost : UpdateResult

write_credential :
    Option StoredCredential → Text → List ℕ → Option Time → FenceTables → FenceTables × UpdateResult
write_credential none id secret expires_at t = (t, fence_lost)
write_credential (some c) id secret expires_at t = (
  record t {
    credentials =
        update t.credentials id
          (record { encrypted_secret = secret; expires_at = expires_at; version = suc c.version });
  },
  updated,
)

-- `UpdateCredential`: the row is written only under the account's present epoch.
unfoldable pub update_credential :
    Text → ℕ → List ℕ → Option Time → FenceTables → FenceTables × UpdateResult
unfolding write_credential
update_credential id epoch secret expires_at t =
    if some_and (λ e. nat_beq e epoch) (t.fence_epoch id)
    then write_credential (t.credentials id) id secret expires_at t
    else (t, fence_lost)

-- What the holders of fences do, in any order.
pub data Steps (t : FenceTables) : FenceTables → Type 0 where
  none_yet : Steps t t
  then_acquire :
      {u v : FenceTables} (id : Text) (epoch : ℕ)
      → Steps t u
      → acquire_fence id u ≡ some (epoch, v)
      → Steps t v
  then_update :
      {u : FenceTables} (id : Text) (epoch : ℕ) (secret : List ℕ) (expires_at : Option Time)
      → Steps t u
      → Steps t (update_credential id epoch secret expires_at u).0

update-epochs :
    (id : Text) (epoch : ℕ) (secret : List ℕ) (expires_at : Option Time) (t : FenceTables)
    → (update_credential id epoch secret expires_at t).0.fence_epoch ≡ t.fence_epoch
unfolding update_credential write_credential
update-epochs id epoch secret expires_at t = by_credential (t.credentials id)
  where
    by_credential :
        (c : Option StoredCredential)
        → (if some_and (λ e. nat_beq e epoch) (t.fence_epoch id)
            then write_credential c id secret expires_at t
            else (t, fence_lost)).0.fence_epoch
          ≡ t.fence_epoch
    by_credential none = ground arith
    by_credential (some c) = ground arith

-- The account's epoch is at least this.
abbrev AtLeast : ℕ → Text → FenceTables → Type 0
AtLeast n id t = (e : ℕ) × (t.fence_epoch id ≡ some e) × (n ≤ e)

acquire_fence_parts :
    (id : Text) (epoch : ℕ) (t u : FenceTables)
    → acquire_fence id t ≡ some (epoch, u)
    → (old : ℕ) × (t.fence_epoch id ≡ some old)
      × (epoch ≡ suc old)
      × (u.fence_epoch ≡ update t.fence_epoch id epoch)
unfolding acquire_fence bump
acquire_fence_parts id epoch t u h = elim (Option-cases (t.fence_epoch id)) [
  | inl n ↦ ground arith
  | inr (old, f) ↦ (old, f, ground arith, ground arith)
]

acquire-AtLeast :
    (n : ℕ) (id j : Text) (epoch : ℕ) (t u : FenceTables)
    → acquire_fence j t ≡ some (epoch, u)
    → AtLeast n id t
    → AtLeast n id u
acquire-AtLeast n id j epoch t u h (e, f, le) =
    let (old, g, q, w) = acquire_fence_parts j epoch t u h in
    elim (Bool-cases (id == j)) [
      | inl b ↦
          let same : old ≡ e = some_inj (sym g ∙ ap t.fence_epoch (sym (==→eq id j b)) ∙ f) in
          (epoch, ap (λ x. x id) w ∙ rw b refl, omega arith)
      | inr b ↦ (e, ap (λ x. x id) w ∙ rw b f, le)
    ]

Steps-AtLeast :
    (n : ℕ) (id : Text) {t u : FenceTables} → Steps t u → AtLeast n id t → AtLeast n id u
Steps-AtLeast n id none_yet a = a
Steps-AtLeast n id (then_acquire {u = u} {v = v} j epoch s h) a =
    acquire-AtLeast n id j epoch u v h (Steps-AtLeast n id s a)
Steps-AtLeast n id (then_update {u = u} j epoch secret expires_at s) a =
    let (e, f, le) = Steps-AtLeast n id s a in
    (e, ap (λ x. x id) (update-epochs j epoch secret expires_at u) ∙ f, le)

-- Once a second holder has acquired the account's fence, the first one's writes are refused and
-- change nothing, whatever else happens before, between and after.
pub stale_fence_refused :
    (id : Text) (first second : ℕ) (secret : List ℕ) (expires_at : Option Time)
    (t t1 t2 t3 t4 : FenceTables)
    → acquire_fence id t ≡ some (first, t1)
    → Steps t1 t2
    → acquire_fence id t2 ≡ some (second, t3)
    → Steps t3 t4
    → (first < second) × (update_credential id first secret expires_at t4 ≡ (t4, fence_lost))
unfolding update_credential
stale_fence_refused id first second secret expires_at t t1 t2 t3 t4 h s k r =
    let (_, _, _, w1) = acquire_fence_parts id first t t1 h in
    let held : AtLeast first id t1 =
      (first, ap (λ x. x id) w1 ∙ rw (==_refl id) refl, omega arith) in
    let (e2, f2, le2) = Steps-AtLeast first id s held in
    let (old, g, q, w3) = acquire_fence_parts id second t2 t3 k in
    let same : old ≡ e2 = some_inj (sym g ∙ f2) in
    let taken : AtLeast second id t3 =
      (second, ap (λ x. x id) w3 ∙ rw (==_refl id) refl, omega arith) in
    let (e4, f4, le4) = Steps-AtLeast second id r taken in
    let later : first < second = omega arith in
    let differs : nat_beq e4 first ≡ false = ground arith in (later, rw (f4, differs) refl)
