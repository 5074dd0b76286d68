-- ===== src/Migration/Statuses.antt =====
-- What is active in a plan is enabled in the source.
use gateway_platform.Base.Int.{ℤ, pos, int_beq_iff}
use gateway_platform.Migration.Conversion.{map_user_status, map_token_status}
use gateway_platform.Base.Text.{Text, codes, text_beq_iff}
use gateway_platform.Base.{
  inr, list_beq, ◌==◌, ◌≡◌, ◌≢◌, false, false_iff, arith, nat_eq, list_eq, refl,
}

active_is_not : (s : Text) → (s == codes "active") ≡ false → s ≢ codes "active"
active_is_not s e = (false_iff _ (text_beq_iff s (codes "active"))).0 e

suspended_is_not_active : codes "suspended" ≢ codes "active"
unfolding list_beq
suspended_is_not_active = active_is_not (codes "suspended") refl

revoked_is_not_active : codes "revoked" ≢ codes "active"
unfolding list_beq
revoked_is_not_active = active_is_not (codes "revoked") refl

pub map_user_status-active :
    (z : ℤ) (status : Text) → map_user_status z ≡ inr status → status ≡ codes "active" → z ≡ pos 1
unfolding map_user_status
map_user_status-active z status e a =
    let apart = suspended_is_not_active in ground (arith, int_beq_iff z (pos 1))

pub map_token_status-active :
    (z : ℤ) (status : Text) → map_token_status z ≡ inr status → status ≡ codes "active" → z ≡ pos 1
unfolding map_token_status
map_token_status-active z status e a =
    let apart = revoked_is_not_active in ground (arith, int_beq_iff z (pos 1))
