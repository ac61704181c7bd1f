-- ===== src/Sessions/Rotation.antt =====
-- What a caller of the store may rely on: tokens that are spent, and replays of them.
use ang.Common.{
  ℕ, String, true, false, some, List, [], ◌∷◌, ◌==◌, ◌≡◌, refl, ap, ◌∙◌, Bool-cases, inl, inr, sym,
  Option-cases,
}
use ang.Sessions.{
  RefreshTokenRecord, MemoryStore, Rotated, assign, or_zero, mark, save, retire, rotate, revoke,
  revoke_if, revoke_all, find, new_memory_store,
}
use ang.Sessions.Bookkeeping.{
  holds, IsKept, mark_user, tokens-mark_user, mark_user-cases, rotate-absent, rotate-replayed,
  rotate-live, Call, saving, rotating, revoking, revoking_all, run, run-IsKept,
  new_memory_store-IsKept,
}

-- The store holds the token as a revoked one.
abbrev pub IsSpent : String → MemoryStore → Type 0
IsSpent t s = (rec : RefreshTokenRecord) × (find t s ≡ some rec) × (rec.revoked ≡ true)

-- None of the calls issues the token.
abbrev pub NotIssued : String → List Call → Type 0
NotIssued t [] = Unit
NotIssued t (saving token user_id e ∷ calls) = ((token == t) ≡ false) × NotIssued t calls
NotIssued t (rotating old_token new_token user_id e ∷ calls) =
    ((new_token == t) ≡ false) × NotIssued t calls
NotIssued t (revoking token ∷ calls) = NotIssued t calls
NotIssued t (revoking_all user_id ∷ calls) = NotIssued t calls

IsSpent-save :
    (t token user_id : String) (e : ℕ) (s : MemoryStore)
    → (token == t) ≡ false
    → IsSpent t s
    → IsSpent t (save token user_id e s)
unfolding save assign
IsSpent-save t token user_id e s other h = (h.0, rw other h.1, h.2)

IsSpent-retire :
    (t token : String) (rec : RefreshTokenRecord) (s : MemoryStore)
    → IsSpent t s
    → IsSpent t (retire token rec s)
unfolding retire assign
IsSpent-retire t token rec s h = elim (Bool-cases (token == t)) [
  | inl same ↦ (mark rec, rw same refl, refl)
  | inr other ↦ (h.0, rw other h.1, h.2)
]

IsSpent-mark_user :
    (t user_id : String) (s : MemoryStore) → IsSpent t s → IsSpent t (mark_user user_id s)
unfolding or_zero
IsSpent-mark_user t user_id s h = elim (Bool-cases (holds s user_id t)) [
  | inl in_set ↦ (mark h.0, rw (in_set, h.1) at (tokens-mark_user user_id s t), refl)
  | inr out ↦ (h.0, rw out at (tokens-mark_user user_id s t) ∙ h.1, h.2)
]

IsSpent-rotate :
    (t old_token new_token user_id : String) (e : ℕ) (s : MemoryStore)
    → (new_token == t) ≡ false
    → IsSpent t s
    → IsSpent t (rotate old_token new_token user_id e s).store
IsSpent-rotate t old_token new_token user_id e s other h =
    elim (Option-cases (s.tokens old_token)) [
      | inl absent ↦ rw (rotate-absent old_token new_token user_id e s absent) h
      | inr found ↦ elim (Bool-cases found.0.revoked) [
        | inl gone ↦
            rw (rotate-replayed old_token new_token user_id e s found.0 found.1 gone)
              (IsSpent-mark_user t found.0.user_id s h)
        | inr live ↦ rw (rotate-live old_token new_token user_id e s found.0 found.1 live) (
            IsSpent-save t new_token user_id e (retire old_token found.0 s) other
              (IsSpent-retire t old_token found.0 s h))
      ]
    ]

IsSpent-revoke : (t token : String) (s : MemoryStore) → IsSpent t s → IsSpent t (revoke token s)
unfolding revoke_if
IsSpent-revoke t token s h = elim (Option-cases (s.tokens token)) [
  | inl absent ↦ rw absent h
  | inr found ↦ rw found.1 (IsSpent-retire t token found.0 s h)
]

IsSpent-revoke_all :
    (t user_id : String) (s : MemoryStore) → IsSpent t s → IsSpent t (revoke_all user_id s)
unfolding revoke_all
IsSpent-revoke_all t user_id s h = IsSpent-mark_user t user_id s h

run-IsSpent :
    (t : String) (calls : List Call) (s : MemoryStore)
    → NotIssued t calls
    → IsSpent t s
    → IsSpent t (run calls s)
run-IsSpent t [] s n h = h
run-IsSpent t (saving token user_id e ∷ calls) s n h =
    run-IsSpent t calls _ n.1 (IsSpent-save t token user_id e s n.0 h)
run-IsSpent t (rotating old_token new_token user_id e ∷ calls) s n h =
    run-IsSpent t calls _ n.1 (IsSpent-rotate t old_token new_token user_id e s n.0 h)
run-IsSpent t (revoking token ∷ calls) s n h = run-IsSpent t calls _ n (IsSpent-revoke t token s h)
run-IsSpent t (revoking_all user_id ∷ calls) s n h =
    run-IsSpent t calls _ n (IsSpent-revoke_all t user_id s h)

-- A token that the store holds as revoked cannot be exchanged any more: whatever calls follow that
-- do not issue the same token again, Rotate answers it with the replay error.
pub rotate-IsSpent :
    (t : String) (calls : List Call) (s : MemoryStore) (new_token user_id : String) (e : ℕ)
    → IsSpent t s
    → NotIssued t calls
    → (rotate t new_token user_id e (run calls s)).err ≡ some "refresh token replay detected"
rotate-IsSpent t calls s new_token user_id e h n =
    let (rec, found, gone) = run-IsSpent t calls s n h in
    ap (λ (r : Rotated). r.err) (rotate-replayed t new_token user_id e (run calls s) rec found gone)

mark_user_ends :
    (user_id : String) (s : MemoryStore) (t : String) (r : RefreshTokenRecord)
    → IsKept s
    → find t (mark_user user_id s) ≡ some r
    → r.user_id ≡ user_id
    → r.revoked ≡ true
mark_user_ends user_id s t r k at same = elim (mark_user-cases user_id s t r k at) [
  | inl c ↦ let (_, _, _, marked) = c in ap (λ (x : RefreshTokenRecord). x.revoked) marked
  | inr o ↦ elim (Bool-cases r.revoked) [
    | inl gone ↦ gone
    | inr live ↦
        absurd (true_not-false (sym (k.live t r o.1 live) ∙ ap (λ u. holds s u t) same ∙ o.0))
  ]
]
  where
    true_not-false : true ≡ false → ⊥
    true_not-false q = cc q

-- After any calls on a new store, an exchange of a revoked token returns an error and leaves no
-- token of its user that is not revoked.
pub rotate-replay_ends :
    (calls : List Call) (old_token new_token user_id : String) (e : ℕ) (rec : RefreshTokenRecord)
    (t : String) (r : RefreshTokenRecord)
    → find old_token (run calls new_memory_store) ≡ some rec
    → rec.revoked ≡ true
    → find t (rotate old_token new_token user_id e (run calls new_memory_store)).store ≡ some r
    → r.user_id ≡ rec.user_id
    → ((rotate old_token new_token user_id e (run calls new_memory_store)).err
        ≡ some "refresh token replay detected")
      × (r.revoked ≡ true)
rotate-replay_ends calls old_token new_token user_id e rec t r found gone at same =
    let s = run calls new_memory_store in
    let q = rotate-replayed old_token new_token user_id e s rec found gone in
    (
      ap (λ (x : Rotated). x.err) q,
      mark_user_ends rec.user_id s t r (run-IsKept calls new_memory_store new_memory_store-IsKept)
          (ap (λ (x : Rotated). find t x.store) (sym q) ∙ at) same,
    )

-- After any calls on a new store, RevokeAll leaves no token of the user that is not revoked.
pub revoke_all_ends :
    (calls : List Call) (user_id : String) (t : String) (r : RefreshTokenRecord)
    → find t (revoke_all user_id (run calls new_memory_store)) ≡ some r
    → r.user_id ≡ user_id
    → r.revoked ≡ true
unfolding revoke_all
revoke_all_ends calls user_id t r at same =
    mark_user_ends user_id (run calls new_memory_store) t r
      (run-IsKept calls new_memory_store new_memory_store-IsKept) at same
