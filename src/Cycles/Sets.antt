-- ===== src/Cycles/Sets.antt =====
-- Facts on the lists that stand for sets and for the path of the search.
use ang.Common.{
  ℕ, suc, ◌≤◌, ◌<◌, String, true, false, not, ◌&&◌, ◌||◌, List, [], ◌∷◌, ◌++◌, ◌==◌, ◌≡◌, refl,
  arith, eq_iff, contains, length, if◌then◌else◌, ap, Bool-cases, inl, inr,
}
use ang.Cycles.{without, drop_last, from_first_or}

pub contains-append :
    (xs ys : List String) (z : String) → contains (xs ++ ys) z ≡ (contains xs z || contains ys z)
unfolding contains
contains-append [] ys z = refl
contains-append (x ∷ xs) ys z = ground (arith, contains-append xs ys z)

pub contains-without :
    (x : String) (xs : List String) (z : String)
    → contains (without x xs) z ≡ (not (x == z) && contains xs z)
unfolding contains without
contains-without x [] z = ground arith
contains-without x (y ∷ xs) z =
    ground (arith, contains-without x xs z, eq_iff y x, eq_iff y z, eq_iff x z)

pub drop_last-append : (xs : List String) (x : String) → drop_last (xs ++ x ∷ []) ≡ xs
unfolding drop_last
drop_last-append [] x = refl
drop_last-append (y ∷ []) x = refl
drop_last-append (y ∷ z ∷ xs) x = ap (λ l. y ∷ l) (drop_last-append (z ∷ xs) x)

-- A path that holds `name` ends in a part that begins with it.
pub from_first_or-split :
    (whole path : List String) (name : String)
    → contains path name ≡ true
    → (before after : List String) × (from_first_or whole name path ≡ name ∷ after)
      × (path ≡ before ++ name ∷ after)
unfolding from_first_or contains
from_first_or-split whole [] name h = cc
from_first_or-split whole (p ∷ path) name h = elim (Bool-cases (p == name)) [
  | inl same ↦
      let e : p ≡ name = (eq_iff p name).0 same in
      ([], path, rw same (ap (λ x. x ∷ path) e), ap (λ x. x ∷ path) e)
  | inr other ↦
      let later : contains path name ≡ true = ground arith in
      let (before, after, e, e') = from_first_or-split whole path name later in
      (p ∷ before, after, rw other e, ap (λ l. p ∷ l) e')
]

abbrev pub unvisited : List String → List String → ℕ
unvisited visited [] = 0
unvisited visited (n ∷ names) =
    let rest = unvisited visited names in if contains visited n then rest else suc rest

pub unvisited-le-length : (visited names : List String) → unvisited visited names ≤ length names
unvisited-le-length visited [] = omega arith
unvisited-le-length visited (n ∷ names) = ground (arith, unvisited-le-length visited names)

pub unvisited_mono :
    (v w names : List String)
    → ((x : String) → contains v x ≡ true → contains w x ≡ true)
    → unvisited w names ≤ unvisited v names
unvisited_mono v w [] h = omega arith
unvisited_mono v w (n ∷ names) h = ground (arith, h n, unvisited_mono v w names h)

pub unvisited-enter :
    (x : String) (v names : List String)
    → contains names x ≡ true
    → contains v x ≡ false
    → unvisited (x ∷ v) names < unvisited v names
unfolding contains
unvisited-enter x v [] known new = cc
unvisited-enter x v (n ∷ names) known new = elim (Bool-cases (n == x)) [
  | inl same ↦
      let e : n ≡ x = (eq_iff n x).0 same in
      ground (
        arith,
        unvisited_mono v (x ∷ v) names (λ y h. ground arith),
        eq_iff x n,
        e,
        ap (contains v) e,
      )
  | inr other ↦ ground (arith, unvisited-enter x v names, eq_iff x n, eq_iff n x)
]
