-- ===== src/Sessions.antt =====
-- internal/adapter/auth/memory/store.go and internal/port/refreshstore.go: the refresh tokens in
-- memory. Each operation holds the mutex throughout, so it is a step on the store. A map is a
-- function, and a set a list. Its proofs are in the modules below.
mod Marking
mod Bookkeeping
mod Rotation
mod Examples
use ang.Common.{
  ℕ, String, Bool, true, false, Option, none, some, List, [], ◌∷◌, ◌==◌, if◌then◌else◌, contains,
}

pub record RefreshTokenRecord : Type 0 where
  pub token : String
  pub user_id : String
  pub expires_at : ℕ
  pub revoked : Bool

-- A set of a user that is not there is none.
pub record MemoryStore : Type 0 where
  pub tokens : String → Option RefreshTokenRecord
  pub by_user : String → Option (List String)

-- `NewMemoryStore`
abbrev pub new_memory_store : MemoryStore
new_memory_store = record { tokens = λ t. none; by_user = λ u. none }

-- `m[k] = v`, and with none `delete(m, k)`
unfoldable pub assign {ℓ} : {V : Type ℓ} → String → V → (String → V) → String → V
assign k v m j = if k == j then v else m j

-- the set, which is empty if it is nil
unfoldable pub members : Option (List String) → List String
members none = []
members (some toks) = toks

-- a token put into a set, which is made if it is nil
unfoldable pub insert : String → Option (List String) → Option (List String)
insert tok set = some (tok ∷ members set)

unfoldable pub without : String → List String → List String
without tok [] = []
without tok (x ∷ xs) = let rest = without tok xs in if x == tok then rest else x ∷ rest

-- `delete` of a token from a set, which may be nil
unfoldable pub remove : String → Option (List String) → Option (List String)
remove tok none = none
remove tok (some toks) = some (without tok toks)

-- a record read from the map, which is zero if it is not there
unfoldable pub or_zero : Option RefreshTokenRecord → RefreshTokenRecord
or_zero none = record { token = ""; user_id = ""; expires_at = 0; revoked = false }
or_zero (some rec) = rec

abbrev pub mark : RefreshTokenRecord → RefreshTokenRecord
mark rec = record rec { revoked = true }

-- the loops that revoke the tokens of a set
unfoldable pub revoke_each :
    List String → (String → Option RefreshTokenRecord) → String → Option RefreshTokenRecord
revoke_each [] tokens = tokens
revoke_each (tok ∷ toks) tokens =
    revoke_each toks (assign tok (some (mark (or_zero (tokens tok)))) tokens)

-- `Save`
unfoldable pub save : (token user_id : String) → (expires_at : ℕ) → MemoryStore → MemoryStore
save token user_id expires_at s = record {
  tokens =
      assign token
        (some
          (record { token = token; user_id = user_id; expires_at = expires_at; revoked = false }))
        s.tokens;
  by_user = assign user_id (insert token (s.by_user user_id)) s.by_user;
}

-- an error, and the store as the call leaves it
pub record Rotated : Type 0 where
  pub err : Option String
  pub store : MemoryStore

-- the old token's record is marked, and it leaves the set of its user
unfoldable pub retire : String → RefreshTokenRecord → MemoryStore → MemoryStore
retire token rec s = record {
  tokens = assign token (some (mark rec)) s.tokens;
  by_user = assign rec.user_id (remove token (s.by_user rec.user_id)) s.by_user;
}

unfoldable pub rotate_found :
    RefreshTokenRecord
    → (old_token new_token user_id : String) → (expires_at : ℕ) → MemoryStore
    → Rotated
rotate_found rec old_token new_token user_id expires_at s =
    if rec.revoked
    then record {
      err = some "refresh token replay detected";
      store = record s { tokens = revoke_each (members (s.by_user rec.user_id)) s.tokens };
    }
    else record { err = none; store = save new_token user_id expires_at (retire old_token rec s) }

-- `Rotate`
unfoldable pub rotate_if :
    Option RefreshTokenRecord
    → (old_token new_token user_id : String) → (expires_at : ℕ) → MemoryStore
    → Rotated
rotate_if none old_token new_token user_id expires_at s = record {
  err = some "refresh token not found";
  store = s;
}
rotate_if (some rec) old_token new_token user_id expires_at s =
    rotate_found rec old_token new_token user_id expires_at s

abbrev pub rotate :
    (old_token new_token user_id : String) → (expires_at : ℕ) → MemoryStore → Rotated
rotate old_token new_token user_id expires_at s =
    rotate_if (s.tokens old_token) old_token new_token user_id expires_at s

unfoldable pub revoke_if : Option RefreshTokenRecord → String → MemoryStore → MemoryStore
revoke_if none token s = s
revoke_if (some rec) token s = retire token rec s

-- `Revoke`
abbrev pub revoke : String → MemoryStore → MemoryStore
revoke token s = revoke_if (s.tokens token) token s

-- `RevokeAll`
unfoldable pub revoke_all : String → MemoryStore → MemoryStore
revoke_all user_id s = record {
  tokens = revoke_each (members (s.by_user user_id)) s.tokens;
  by_user = assign user_id none s.by_user;
}

-- `Find`
abbrev pub find : String → MemoryStore → Option RefreshTokenRecord
find token s = s.tokens token
