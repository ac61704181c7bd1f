-- ===== src/Projections/Keys.antt =====
-- The tokens that the loop over the columns of a select gathers.
use text.Mathlib.TextPositions.{eq_refl}
use ang.Common.{
  ◌≡◌, refl, sym, subst, ◌∙◌, String, Bool, false, not, ◌&&◌, ◌||◌, List, [], ◌∷◌, ◌++◌, inl, inr,
  Bool-cases, if◌then◌else◌, contains, eq_iff, ◌==◌, arith,
}
use ang.Projections.Tokens.{canonical_field_token}
use ang.Projections.Fields.{add_keys}
use ang.Projections.Counting.{AreDistinct}

-- A column of the select has this token.
abbrev pub is_selected : String → List String → Bool
is_selected k [] = false
is_selected k (col ∷ cols) = not (k == "") && canonical_field_token col == k || is_selected k cols

contains-added :
    (ks : List String) (k j : String) → contains (ks ++ k ∷ []) j ≡ (contains ks j || k == j)
unfolding contains
contains-added [] k j = ground arith
contains-added (i ∷ ks) k j = ground (arith, contains-added ks k j)

AreDistinct-added :
    (ks : List String) (k : String)
    → AreDistinct ks
    → contains ks k ≡ false
    → AreDistinct (ks ++ k ∷ [])
unfolding contains
AreDistinct-added [] k d n = (refl, tt)
AreDistinct-added (i ∷ ks) k d n =
    let rest : contains ks k ≡ false = ground arith in
    let apart : (k == i) ≡ false = ground (arith, eq_iff i k, eq_iff k i) in
    (contains-added ks k i ∙ rw (d.0, apart) refl, AreDistinct-added ks k d.1 rest)

-- the keys behind one column
abbrev add_key : List String → String → List String
add_key keys k = if k == "" then keys else if contains keys k then keys else keys ++ k ∷ []

add_key-AreDistinct :
    (keys : List String) (k : String) → AreDistinct keys → AreDistinct (add_key keys k)
add_key-AreDistinct keys k d = elim (Bool-cases (k == "")) [
  | inl e ↦ rw e d
  | inr n ↦ elim (Bool-cases (contains keys k)) [
    | inl old ↦ rw (n, old) d
    | inr new ↦ rw (n, new) (AreDistinct-added keys k d new)
  ]
]

contains-add_key_self :
    (keys : List String) (j : String)
    → contains (add_key keys j) j ≡ (contains keys j || not (j == "") && j == j)
contains-add_key_self keys j = ground (arith, eq_refl j, contains-added keys j j)

contains-add_key :
    (keys : List String) (k j : String)
    → contains (add_key keys k) j ≡ (contains keys j || not (j == "") && k == j)
contains-add_key keys k j = elim (Bool-cases (k == j)) [
  | inl e ↦
      subst (λ x. contains (add_key keys x) j ≡ (contains keys j || not (j == "") && x == j))
        (sym ((eq_iff k j).0 e)) (contains-add_key_self keys j)
  | inr n ↦ ground (arith, contains-added keys k j)
]

pub add_keys-AreDistinct :
    (keys cols : List String) → AreDistinct keys → AreDistinct (add_keys keys cols)
unfolding add_keys
add_keys-AreDistinct keys [] d = d
add_keys-AreDistinct keys (col ∷ cols) d =
    let k = canonical_field_token col in
    add_keys-AreDistinct (add_key keys k) cols (add_key-AreDistinct keys k d)

pub contains-add_keys :
    (keys cols : List String) (j : String)
    → contains (add_keys keys cols) j ≡ (contains keys j || is_selected j cols)
unfolding add_keys
contains-add_keys keys [] j = ground arith
contains-add_keys keys (col ∷ cols) j =
    let k = canonical_field_token col in
    let rest = contains-add_keys (add_key keys k) cols j in
    let here = contains-add_key keys k j in ground arith
