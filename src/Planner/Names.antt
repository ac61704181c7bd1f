-- ===== src/Planner/Names.antt =====
-- The loop that looks for a free name of a handler.
use Prim.Native.String.{String, ◌++◌}
use text.Mathlib.TextLemmas.{append-nil}
use ang.Common.{
  ℕ, zero, suc, ◌≤◌, ◌<◌, ◌≡◌, ◌≢◌, refl, sym, ap, ◌∙◌, inl, inr, true, false, some, List, [], ◌∷◌,
  ◌==◌, eq_iff, arith, Bool-cases, contains, length, if◌then◌else◌,
}
use ang.Text.{concat}
use ang.Text.Prefixes.{without_prefix, append_cancel}
use ang.Text.Numbers.{decimal, decimal-injective}
use ang.Planner.{free_name, GroupedEndpoint, first_name, handler_name}

-- how many of the used names are none of those that were tried
abbrev untried : List String → List String → ℕ
untried tried [] = 0
untried tried (n ∷ names) =
    let rest = untried tried names in if contains tried n then rest else suc rest

untried-length : (names : List String) → untried [] names ≤ length names
unfolding contains
untried-length [] = omega arith
untried-length (n ∷ names) = ground (arith, untried-length names)

untried_mono :
    (x : String) (tried names : List String) → untried (x ∷ tried) names ≤ untried tried names
unfolding contains
untried_mono x tried [] = omega arith
untried_mono x tried (n ∷ names) = ground (arith, untried_mono x tried names)

untried-try :
    (x : String) (tried names : List String)
    → contains names x ≡ true
    → contains tried x ≡ false
    → untried (x ∷ tried) names < untried tried names
unfolding contains
untried-try x tried [] used new = cc
untried-try x tried (n ∷ names) used new = elim (Bool-cases (n == x)) [
  | inl same ↦
      let e : n ≡ x = (eq_iff n x).0 same in
      ground (arith, untried_mono x tried names, eq_iff x n, e, ap (contains tried) e)
  | inr other ↦ ground (arith, untried-try x tried names, eq_iff x n, eq_iff n x)
]

module _ (base : String) where
  -- the name of a round of the loop
  abbrev candidate : ℕ → String
  candidate zero = base
  candidate (suc k) = concat (base ∷ "_" ∷ decimal (suc (suc k)) ∷ [])

  -- the names of the rounds before
  abbrev tried : ℕ → List String
  tried zero = []
  tried (suc k) = candidate k ∷ tried k

  -- what follows the base in the name of a later round
  numbered : (j : ℕ) → candidate (suc j) ≡ base ++ ("_" ++ decimal (suc (suc j)))
  unfolding concat
  numbered j = ap (λ s. base ++ ("_" ++ s)) (append-nil (decimal (suc (suc j))))

  underscore : (s : String) → "_" ++ s ≢ ""
  unfolding ang.Text.has_prefix
  underscore s e = cc (without_prefix "_" s "" refl, (eq_iff ("_" ++ s) "").1 e)

  candidates-differ : (k j : ℕ) → k < j → candidate k ≢ candidate j
  candidates-differ k zero h e = absurd (omega arith)
  candidates-differ zero (suc j) h e =
      underscore _ (append_cancel base _ "" (sym (numbered j) ∙ sym e ∙ sym (append-nil base)))
  candidates-differ (suc k) (suc j) h e =
      let written = append_cancel base _ _ (sym (numbered k) ∙ e ∙ numbered j) in
      let same = decimal-injective _ _ (append_cancel "_" _ _ written) in
      absurd (omega (arith, same))

  candidate-new : (k j : ℕ) → k < j → (candidate k == candidate j) ≡ false
  candidate-new k j h = elim (Bool-cases (candidate k == candidate j)) [
    | inr e ↦ e
    | inl e ↦ absurd (candidates-differ k j h ((eq_iff (candidate k) (candidate j)).0 e))
  ]

  tried-new : (k j : ℕ) → k ≤ j → contains (tried k) (candidate j) ≡ false
  unfolding contains
  tried-new zero j h = refl
  tried-new (suc k) j h = rw (candidate-new k j (omega arith)) (tried-new k j (omega arith))

  free_name-ends :
      (fuel k : ℕ) (used : List String)
      → untried (tried k) used < fuel
      → (name : String) × (free_name fuel used base (suc (suc k)) (candidate k) ≡ some name)
        × (contains used name ≡ false)
  unfolding free_name
  free_name-ends zero k used h = absurd (omega arith)
  free_name-ends (suc fuel) k used h = elim (Bool-cases (contains used (candidate k))) [
    | inr free ↦ (candidate k, rw free refl, free)
    | inl taken ↦
        let less = untried-try (candidate k) (tried k) used taken (tried-new k k (omega arith)) in
        let (name, found, free) = free_name-ends fuel (suc k) used (omega arith) in
        (name, rw taken found, free)
  ]

-- The loop that looks for a free name of a handler ends with one: a name that no other handler has.
pub handler_name-IsFree :
    (used : List String) (ep : GroupedEndpoint)
    → (name : String) × (handler_name used ep ≡ some name) × (contains used name ≡ false)
unfolding handler_name
handler_name-IsFree used ep =
    let bound = untried-length used in
    free_name-ends (first_name used ep) (suc (length used)) 0 used (omega arith)
