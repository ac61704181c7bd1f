-- ===== src/Sessions/Examples.antt =====
-- Runs of the store, and the theorems at concrete calls.
use ang.Common.{String, Bool, true, false, some, List, [], ◌∷◌, ◌==◌, ◌≡◌, refl, if◌then◌else◌}
use ang.Sessions.{
  RefreshTokenRecord, MemoryStore, new_memory_store, assign, or_zero, members, insert, remove,
  without, save, retire, rotate, rotate_if, rotate_found, revoke_each, revoke_all, find,
}
use ang.Sessions.Bookkeeping.{Call, saving, rotating, revoking, run}
use ang.Sessions.Rotation.{rotate-IsSpent, rotate-replay_ends, revoke_all_ends}

-- a sign-in on two devices, and one exchange
abbrev day : List Call
day = saving "a1" "ann" 10 ∷ saving "b1" "ann" 10 ∷ rotating "a1" "a2" "ann" 20 ∷ []

abbrev store : MemoryStore
store = run day new_memory_store

abbrev ann : String → Bool → RefreshTokenRecord
ann token revoked = record {
  token = token;
  user_id = "ann";
  expires_at = if token == "a2" then 20 else 10;
  revoked = revoked;
}

find-a1 : find "a1" store ≡ some (ann "a1" true)
unfolding save assign insert rotate_if rotate_found retire
find-a1 = refl

find-a2 : find "a2" store ≡ some (ann "a2" false)
unfolding save assign insert rotate_if rotate_found retire
find-a2 = refl

find-b1 : find "b1" (rotate "a1" "x" "ann" 30 store).store ≡ some (ann "b1" true)
unfolding save assign insert members remove without rotate_if rotate_found retire revoke_each
    or_zero
find-b1 = refl

find-all : find "a2" (revoke_all "ann" store) ≡ some (ann "a2" true)
unfolding save assign insert members remove without rotate_if rotate_found retire revoke_each
    or_zero revoke_all
find-all = refl

rotate-IsSpent_example :
    (rotate "a1" "x" "ann" 30 (run (revoking "a2" ∷ rotating "b1" "b2" "ann" 40 ∷ []) store)).err
    ≡ some "refresh token replay detected"
rotate-IsSpent_example =
    rotate-IsSpent "a1" (revoking "a2" ∷ rotating "b1" "b2" "ann" 40 ∷ []) store "x" "ann" 30
      (ann "a1" true, find-a1, refl) (refl, tt)

rotate-replay_ends_example :
    ((rotate "a1" "x" "ann" 30 store).err ≡ some "refresh token replay detected") × (true ≡ true)
rotate-replay_ends_example =
    rotate-replay_ends day "a1" "x" "ann" 30 (ann "a1" true) "b1" (ann "b1" true) find-a1 refl
      find-b1 refl

revoke_all_ends_example : (ann "a2" true).revoked ≡ true
revoke_all_ends_example = revoke_all_ends day "ann" "a2" (ann "a2" true) find-all refl
