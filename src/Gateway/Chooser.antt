-- ===== src/Gateway/Chooser.antt =====
-- internal/gateway/chooser.go: the state of the account chooser. Each method holds the chooser's
-- lock, so it is one transition; the clock and the random byte of the jitter are arguments.
pub mod Select
pub mod Buckets
pub mod Cooldowns
pub mod Reachable
use gateway_platform.Base.{
  ℕ, ◌≡◌, ◌↔◌, Bool, true, ◌&&◌, ◌*◌, Option, none, List, [], ◌∷◌, ◌++◌, arith, Eq, ◌==◌, nat_eq,
  list_eq, ◌+◌, ◌-◌,
}
use gateway_platform.Base.Int.{ℤ, pos, pos_part, neg_part}
use gateway_platform.Base.Text.{Text, text_beq_iff, trim_space}
use gateway_platform.Contracts.Types.{Time, Account, UpstreamProfile}

pub record CooldownKey : Type 0 where
  pub account_id : Text
  pub model : Text

abbrev pub cooldown_key : Text → Text → CooldownKey
cooldown_key account_id model = record { account_id = account_id; model = model }

pub record Cooldown : Type 0 where
  pub until : Time
  pub credential_version : ℤ

abbrev pub key_beq : CooldownKey → CooldownKey → Bool
key_beq a b = a.account_id == b.account_id && a.model == b.model

pub key_beq_iff : (a b : CooldownKey) → (key_beq a b ≡ true) ↔ (a ≡ b)
key_beq_iff a b =
    ground (arith, text_beq_iff a.account_id b.account_id, text_beq_iff a.model b.model)

instance abbrev pub cooldown_key_eq : Eq CooldownKey
cooldown_key_eq = record { equal = key_beq; equal_iff = key_beq_iff }

-- A set of strings is the list of its elements.
pub record BucketState : Type 0 where
  pub epoch : ℤ
  pub valid_until : Time
  pub ids : List Text

pub record Chooser : Type 0 where
  pub accounts : List (Text × Account)
  pub buckets : List (Text × BucketState)
  pub owner : Text → Option Text
  pub cooling : CooldownKey → Option Cooldown
  pub failures : CooldownKey → Option ℕ
  pub egress : Text → Option Time
  pub egress_seen : Text → List (Text × Time)
  pub epoch : ℤ

unfoldable pub new_chooser : Chooser
new_chooser = record {
  accounts = [];
  buckets = [];
  owner = λ _. none;
  cooling = λ _. none;
  failures = λ _. none;
  egress = λ _. none;
  egress_seen = λ _. [];
  epoch = pos 0;
}

unfoldable pub bucket_key : Text → Text → Text
bucket_key platform group = platform ++ (0 ∷ group)

unfoldable pub egress_key : UpstreamProfile → Text
egress_key profile = trim_space profile.proxy

abbrev pub seconds : ℕ → ℕ
seconds n = n * 1000000000

-- time.Time.Add: no instant before Go's zero time is represented.
abbrev pub add_time : Time → ℤ → Time
add_time t d = t + pos_part d - neg_part d
