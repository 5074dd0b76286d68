-- ===== src/Tests/Fencing.antt =====
-- Two holders of one account's fence.
use gateway_platform.Base.Map.{update}
use gateway_platform.Base.{◌≡◌, refl, some, none, [], ◌∷◌, list_beq, ◌<◌, nat_eq, list_eq}
use gateway_platform.Base.Text.{Text, codes}
use gateway_platform.Control.Fencing.{
  FenceTables, acquire_fence, update_credential, none_yet, then_update, fence_lost, updated,
  stale_fence_refused,
}

abbrev id : Text
id = codes "a"

abbrev start : FenceTables
start = record {
  fence_epoch = λ _. some 4;
  credentials = λ _. some (record { encrypted_secret = 1 ∷ []; expires_at = none; version = 1 });
}

abbrev once : FenceTables
once = record start { fence_epoch = update start.fence_epoch id 5 }

abbrev twice : FenceTables
twice = record start { fence_epoch = update once.fence_epoch id 6 }

first_acquires : acquire_fence id start ≡ some (5, once)
unfolding acquire_fence
first_acquires = refl

second_acquires : acquire_fence id once ≡ some (6, twice)
unfolding acquire_fence list_beq
second_acquires = refl

second_writes : (update_credential id 6 (2 ∷ []) none twice).1 ≡ updated
unfolding update_credential list_beq
second_writes = refl

stale_fence_refused_example :
    let after = (update_credential id 6 (2 ∷ []) none twice).0 in
    (5 < 6) × (update_credential id 5 (3 ∷ []) none after ≡ (after, fence_lost))
stale_fence_refused_example =
    stale_fence_refused id 5 6 (3 ∷ []) none start once once twice
      (update_credential id 6 (2 ∷ []) none twice).0 first_acquires none_yet second_acquires
      (then_update id 6 (2 ∷ []) none none_yet)
