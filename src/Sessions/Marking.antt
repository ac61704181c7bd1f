-- ===== src/Sessions/Marking.antt =====
-- What the loop over a set of tokens leaves in the map.
use ang.Common.{
  String, Bool, true, false, not, ◌&&◌, Option, some, List, [], ◌∷◌, ◌==◌, ◌≡◌, refl, arith, eq_iff,
  ap, ◌∙◌, if◌then◌else◌, contains, Bool-cases, inl, inr,
}
use ang.Sessions.{RefreshTokenRecord, assign, mark, or_zero, revoke_each, without}

pub contains-without :
    (tok : String) (xs : List String) (t : String)
    → contains (without tok xs) t ≡ (not (tok == t) && contains xs t)
unfolding without contains
contains-without tok [] t = ground arith
contains-without tok (x ∷ xs) t =
    ground (arith, contains-without tok xs t, eq_iff x tok, eq_iff x t, eq_iff tok t)

if_same : (b : Bool) (o : Option RefreshTokenRecord) → (if b then o else o) ≡ o
if_same true o = refl
if_same false o = refl

-- A token of the set is marked, and any other keeps its record.
pub revoke_each-at :
    (toks : List String) (m : String → Option RefreshTokenRecord) (t : String)
    → revoke_each toks m t ≡ (if contains toks t then some (mark (or_zero (m t))) else m t)
unfolding revoke_each contains assign or_zero
revoke_each-at [] m t = refl
revoke_each-at (x ∷ toks) m t = elim (Bool-cases (x == t)) [
  | inl same ↦
      revoke_each-at toks (assign x (some (mark (or_zero (m x)))) m) t
      ∙ rw (same, ap m ((eq_iff x t).0 same))
          (if_same (contains toks t) (some (mark (or_zero (m t)))))
  | inr other ↦ revoke_each-at toks (assign x (some (mark (or_zero (m x)))) m) t ∙ rw other refl
]
