-- ===== src/Sessions/Bookkeeping.antt =====
-- How the two maps of the store agree.
use ang.Common.{
  ℕ, String, Bool, true, false, not, ◌&&◌, ◌||◌, Option, none, some, List, [], ◌∷◌, ◌==◌, ◌≡◌, ◌≢◌,
  ◌⊎◌, refl, arith, eq_iff, ap, ◌∙◌, if◌then◌else◌, contains, Bool-cases, inl, inr, sym,
  Option-cases,
}
use ang.Sessions.{
  RefreshTokenRecord, MemoryStore, new_memory_store, assign, members, insert, remove, or_zero, mark,
  revoke_each, save, retire, rotate_found, rotate_if, rotate, revoke_if, revoke, revoke_all,
}
use ang.Sessions.Marking.{contains-without, revoke_each-at}

-- the store knows of the token as one of the user's
abbrev pub holds : MemoryStore → String → String → Bool
holds s user_id token = contains (members (s.by_user user_id)) token

-- Each token that is not revoked is in the set of its user, and each token in a set has a record;
-- a record names its token.
pub record IsKept (s : MemoryStore) : Type 0 where
  pub live :
      (t : String) (rec : RefreshTokenRecord)
      → s.tokens t ≡ some rec
      → rec.revoked ≡ false
      → holds s rec.user_id t ≡ true
  pub known : (u t : String) → holds s u t ≡ true → s.tokens t ≢ none
  pub named : (t : String) (rec : RefreshTokenRecord) → s.tokens t ≡ some rec → rec.token ≡ t

assign-same :
    {V : Type 0} (k : String) (v : V) (m : String → V) (j : String) → k ≡ j → assign k v m j ≡ v
unfolding assign
assign-same k v m j e = ground (arith, eq_iff k j)

assign-other :
    {V : Type 0} (k : String) (v : V) (m : String → V) (j : String)
    → (k == j) ≡ false
    → assign k v m j ≡ m j
unfolding assign
assign-other k v m j e = rw e refl

holds-save :
    (token user_id : String) (e : ℕ) (s : MemoryStore) (u t : String)
    → holds (save token user_id e s) u t ≡ ((user_id == u && token == t) || holds s u t)
unfolding save assign insert members contains
holds-save token user_id e s u t = elim (Bool-cases (user_id == u)) [
  | inl same ↦ rw (same, (eq_iff user_id u).0 same) refl
  | inr other ↦ rw other refl
]

save-IsKept :
    (token user_id : String) (e : ℕ) (s : MemoryStore) → IsKept s → IsKept (save token user_id e s)
unfolding save assign or_zero
save-IsKept token user_id e s k = record {
  live = λ t rec f l.
      rw (holds-save token user_id e s rec.user_id t) (elim (Bool-cases (token == t)) [
        | inl same ↦
            let u : user_id ≡ rec.user_id = ap (λ o. (or_zero o).user_id) (rw same at f) in
            ground (arith, eq_iff user_id rec.user_id)
        | inr other ↦ ground (arith, k.live t rec (rw other at f) l)
      ]);
  known = λ u t h. ground (arith, holds-save token user_id e s u t, k.known u t);
  named = λ t rec f. ground (arith, k.named t rec, eq_iff token t);
}

contains-remove :
    (token : String) (set : Option (List String)) (t : String)
    → contains (members (remove token set)) t ≡ (not (token == t) && contains (members set) t)
unfolding remove members contains
contains-remove token none t = ground arith
contains-remove token (some toks) t = contains-without token toks t

holds-retire :
    (token : String) (rec : RefreshTokenRecord) (s : MemoryStore) (u t : String)
    → holds (retire token rec s) u t ≡ (not (rec.user_id == u && token == t) && holds s u t)
unfolding retire assign remove members contains
holds-retire token rec s u t = elim (Bool-cases (rec.user_id == u)) [
  | inl same ↦ rw (same, (eq_iff rec.user_id u).0 same) (contains-remove token (s.by_user u) t)
  | inr other ↦ rw other refl
]

retire-IsKept :
    (token : String) (rec : RefreshTokenRecord) (s : MemoryStore)
    → s.tokens token ≡ some rec
    → IsKept s
    → IsKept (retire token rec s)
unfolding retire assign or_zero
retire-IsKept token rec s at k = record {
  live = λ t r f l. rw (holds-retire token rec s r.user_id t) (elim (Bool-cases (token == t)) [
    | inl same ↦
        let marked : r.revoked ≡ true = ap (λ o. (or_zero o).revoked) (sym (rw same at f)) in
        cc (marked, l)
    | inr other ↦ ground (arith, k.live t r (rw other at f) l)
  ]);
  known = λ u t h. ground (arith, holds-retire token rec s u t, k.known u t);
  named = λ t r f. ground (arith, k.named token rec at, k.named t r, eq_iff token t);
}

-- the tokens of one user marked
abbrev pub mark_user : String → MemoryStore → MemoryStore
mark_user user_id s = record s { tokens = revoke_each (members (s.by_user user_id)) s.tokens }

pub tokens-mark_user :
    (user_id : String) (s : MemoryStore) (t : String)
    → (mark_user user_id s).tokens t
      ≡ (if holds s user_id t then some (mark (or_zero (s.tokens t))) else s.tokens t)
tokens-mark_user user_id s t = revoke_each-at (members (s.by_user user_id)) s.tokens t

-- a record behind the marking, of a token in the set or of another
pub mark_user-cases :
    (user_id : String) (s : MemoryStore) (t : String) (rec : RefreshTokenRecord)
    → IsKept s
    → (mark_user user_id s).tokens t ≡ some rec
    → ((holds s user_id t ≡ true)
        × (r : RefreshTokenRecord) × (s.tokens t ≡ some r)
        × (rec ≡ mark r))
      ⊎ ((holds s user_id t ≡ false) × (s.tokens t ≡ some rec))
unfolding or_zero
mark_user-cases user_id s t rec k f = elim (Bool-cases (holds s user_id t)) [
  | inr out ↦ inr (out, sym (rw out at (tokens-mark_user user_id s t)) ∙ f)
  | inl in_set ↦ elim (Option-cases (s.tokens t)) [
    | inl e ↦ absurd (k.known user_id t in_set e)
    | inr e ↦
        inl (
          in_set,
          e.0,
          e.1,
          ap or_zero (sym f ∙ rw (in_set, e.1) at (tokens-mark_user user_id s t)),
        )
  ]
]

mark_user-IsKept : (user_id : String) (s : MemoryStore) → IsKept s → IsKept (mark_user user_id s)
mark_user-IsKept user_id s k = record {
  live = λ t rec f l. elim (mark_user-cases user_id s t rec k f) [
    | inl m ↦ let (_, r, _, same) = m in cc (ap (λ (x : RefreshTokenRecord). x.revoked) same, l)
    | inr o ↦ k.live t rec o.1 l
  ];
  known = λ u t h. elim (Bool-cases (holds s user_id t)) [
    | inl in_set ↦ λ q. cc (sym q ∙ rw in_set at (tokens-mark_user user_id s t))
    | inr out ↦ λ q. k.known u t h (sym (rw out at (tokens-mark_user user_id s t)) ∙ q)
  ];
  named = λ t rec f. elim (mark_user-cases user_id s t rec k f) [
    | inl m ↦
        let (_, r, e, same) = m in ap (λ (x : RefreshTokenRecord). x.token) same ∙ k.named t r e
    | inr o ↦ k.named t rec o.1
  ];
}

holds-revoke_all :
    (user_id : String) (s : MemoryStore) (u t : String)
    → holds (revoke_all user_id s) u t ≡ (not (user_id == u) && holds s u t)
unfolding revoke_all assign members contains
holds-revoke_all user_id s u t = elim (Bool-cases (user_id == u)) [
  | inl same ↦ rw same refl
  | inr other ↦ rw other refl
]

pub revoke_all-IsKept :
    (user_id : String) (s : MemoryStore) → IsKept s → IsKept (revoke_all user_id s)
unfolding revoke_all
revoke_all-IsKept user_id s k =
    let m = mark_user-IsKept user_id s k in
    record {
      live = λ t rec f l. elim (mark_user-cases user_id s t rec k f) [
        | inl c ↦ let (_, r, _, same) = c in cc (ap (λ (x : RefreshTokenRecord). x.revoked) same, l)
        | inr o ↦ ground (
          arith,
          k.live t rec o.1 l,
          o.0,
          holds-revoke_all user_id s rec.user_id t,
          eq_iff user_id rec.user_id,
          ap (λ u. holds s u t),
        )
      ];
      known = λ u t h. m.known u t (ground (arith, h, holds-revoke_all user_id s u t));
      named = m.named;
    }

-- the ways that Rotate ends
module _ (old_token new_token user_id : String) (e : ℕ) (s : MemoryStore) where
  pub rotate-absent :
      s.tokens old_token ≡ none
      → rotate old_token new_token user_id e s
        ≡ record { err = some "refresh token not found"; store = s }
  unfolding rotate_if
  rotate-absent absent = rw absent refl

  pub rotate-replayed :
      (rec : RefreshTokenRecord)
      → s.tokens old_token ≡ some rec
      → rec.revoked ≡ true
      → rotate old_token new_token user_id e s
        ≡ record { err = some "refresh token replay detected"; store = mark_user rec.user_id s }
  unfolding rotate_if rotate_found
  rotate-replayed rec found gone = rw found (simp gone refl)

  pub rotate-live :
      (rec : RefreshTokenRecord)
      → s.tokens old_token ≡ some rec
      → rec.revoked ≡ false
      → rotate old_token new_token user_id e s
        ≡ record { err = none; store = save new_token user_id e (retire old_token rec s) }
  unfolding rotate_if rotate_found
  rotate-live rec found live = rw found (simp live refl)

  rotate-IsKept : IsKept s → IsKept (rotate old_token new_token user_id e s).store
  rotate-IsKept k = elim (Option-cases (s.tokens old_token)) [
    | inl absent ↦ rw (rotate-absent absent) k
    | inr found ↦ elim (Bool-cases found.0.revoked) [
      | inl gone ↦ rw (rotate-replayed found.0 found.1 gone) (mark_user-IsKept found.0.user_id s k)
      | inr live ↦ rw (rotate-live found.0 found.1 live) (
          save-IsKept new_token user_id e (retire old_token found.0 s)
            (retire-IsKept old_token found.0 s found.1 k))
    ]
  ]

revoke-IsKept : (token : String) (s : MemoryStore) → IsKept s → IsKept (revoke token s)
unfolding revoke_if
revoke-IsKept token s k = elim (Option-cases (s.tokens token)) [
  | inl absent ↦ rw absent k
  | inr found ↦ rw found.1 (retire-IsKept token found.0 s found.1 k)
]

pub data Call : Type 0 where
  saving : (token user_id : String) → (expires_at : ℕ) → Call
  rotating : (old_token new_token user_id : String) → (expires_at : ℕ) → Call
  revoking : (token : String) → Call
  revoking_all : (user_id : String) → Call

abbrev pub perform : Call → MemoryStore → MemoryStore
perform (saving token user_id e) s = save token user_id e s
perform (rotating old_token new_token user_id e) s = (rotate old_token new_token user_id e s).store
perform (revoking token) s = revoke token s
perform (revoking_all user_id) s = revoke_all user_id s

-- the store after calls one after the other
abbrev pub run : List Call → MemoryStore → MemoryStore
run [] s = s
run (c ∷ calls) s = run calls (perform c s)

perform-IsKept : (c : Call) (s : MemoryStore) → IsKept s → IsKept (perform c s)
perform-IsKept (saving token user_id e) s k = save-IsKept token user_id e s k
perform-IsKept (rotating old_token new_token user_id e) s k =
    rotate-IsKept old_token new_token user_id e s k
perform-IsKept (revoking token) s k = revoke-IsKept token s k
perform-IsKept (revoking_all user_id) s k = revoke_all-IsKept user_id s k

-- IsKept holds behind any calls, if it holds before them.
pub run-IsKept : (calls : List Call) (s : MemoryStore) → IsKept s → IsKept (run calls s)
run-IsKept [] s k = k
run-IsKept (c ∷ calls) s k = run-IsKept calls (perform c s) (perform-IsKept c s k)

pub new_memory_store-IsKept : IsKept new_memory_store
unfolding members contains
new_memory_store-IsKept = record {
  live = λ t rec f l. cc f;
  known = λ u t h. cc h;
  named = λ t rec f. cc f;
}
