-- ===== src/Common/Lists.antt =====
-- Lists, and dictionaries as association lists: Go's maps, in the order in which one run of
-- `range` happens to visit them.
use Prim.Native.Nat.{ℕ, suc, ◌+◌}
use Prim.Native.String.{String}
use mathlib.Core.Path.{◌≡◌, refl, subst, sym}
use mathlib.Core.Bool.{Bool, true, false, ◌||◌}
use mathlib.Core.Option.{Option, none, some}
use mathlib.Core.List.{List, [], ◌∷◌, ◌++◌, map, Memᴰ}
use mathlib.Core.List.Memᴰ
use native.Mathlib.Omega.{arith}
use text.Mathlib.Text.{◌==◌}
use text.Mathlib.TextEquality.{eq_iff}
use mathlib.Core.Logic.{inl, inr}
use ang.Common.Tests.{Bool-cases, if◌then◌else◌}

module _ {ℓ} {A : Type ℓ} where
  abbrev pub length : List A → ℕ
  length [] = 0
  length (x ∷ xs) = suc (length xs)

  abbrev pub is_empty : List A → Bool
  is_empty [] = true
  is_empty (x ∷ xs) = false

  pub length-append : (xs ys : List A) → length (xs ++ ys) ≡ length xs + length ys
  length-append [] ys = omega arith
  length-append (x ∷ xs) ys = omega (arith, length-append xs ys)

-- `strings.Contains` of a slice, and a `case` with several texts.
unfoldable pub contains : List String → String → Bool
contains [] s = false
contains (x ∷ xs) s = x == s || contains xs s

module _ {ℓ} {V : Type ℓ} where
  -- `v, ok := m[k]`
  unfoldable pub lookup : String → List (String × V) → Option V
  lookup k [] = none
  lookup k ((j, v) ∷ m) = if j == k then some v else lookup k m

abbrev pub All {ℓ κ} : {A : Type ℓ} → (A → Type κ) → List A → Type κ
All P [] = Unit
All P (x ∷ xs) = P x × All P xs

pub All_trivial {ℓ} : {A : Type ℓ} (xs : List A) → All {ℓ, 0} (λ x. Unit) xs
All_trivial [] = tt
All_trivial (x ∷ xs) = (tt, All_trivial xs)

module _ {ℓ κ} {A : Type ℓ} (P : A → Type κ) where
  pub All-append : (xs ys : List A) → All P xs → All P ys → All P (xs ++ ys)
  All-append [] ys hx hy = hy
  All-append (x ∷ xs) ys hx hy = (hx.0, All-append xs ys hx.1 hy)

  pub All-weaken {μ} :
      (Q : A → Type μ) → ((x : A) → P x → Q x) → (xs : List A) → All P xs → All Q xs
  All-weaken Q h [] a = tt
  All-weaken Q h (x ∷ xs) a = (h x a.0, All-weaken Q h xs a.1)

  pub All-mem : {a : A} (xs : List A) → All P xs → Memᴰ a xs → P a
  All-mem [] h m = absurd (Memᴰ.not-nil m)
  All-mem (x ∷ xs) h (Memᴰ.head e) = subst P (sym e) h.0
  All-mem (x ∷ xs) h (Memᴰ.tail m) = All-mem xs h.1 m

module _ {ℓ κ} {A : Type ℓ} {B : Type κ} where
  pub All-map {μ} :
      (P : B → Type μ) (f : A → B) → ((x : A) → P (f x)) → (xs : List A) → All P (map f xs)
  All-map P f h [] = tt
  All-map P f h (x ∷ xs) = (h x, All-map P f h xs)

  pub All-map_of {μ ν} :
      (P : A → Type ν) (Q : B → Type μ) (f : A → B)
      → ((x : A) → P x → Q (f x))
      → (xs : List A) → All P xs
      → All Q (map f xs)
  All-map_of P Q f h [] a = tt
  All-map_of P Q f h (x ∷ xs) a = (h x a.0, All-map_of P Q f h xs a.1)

  -- A map after one that it does not see.
  pub map-absorb :
      (v : A → B) (f : A → A)
      → ((x : A) → v (f x) ≡ v x)
      → (xs : List A) → map v (map f xs) ≡ map v xs
  map-absorb v f h [] = refl
  map-absorb v f h (x ∷ xs) = rw (h x, map-absorb v f h xs)

-- A map that leaves each element of a list as it is.
pub map-fixed {ℓ κ} :
    {A : Type ℓ} {P : A → Type κ} (f : A → A)
    → ((x : A) → P x → f x ≡ x)
    → (xs : List A) → All P xs
    → map f xs ≡ xs
map-fixed f h [] a = refl
map-fixed f h (x ∷ xs) a = rw (h x a.0, map-fixed f h xs a.1)

pub length-map {ℓ κ} :
    {A : Type ℓ} {B : Type κ} (f : A → B) (xs : List A) → length (map f xs) ≡ length xs
length-map f [] = refl
length-map f (x ∷ xs) = omega (arith, length-map f xs)

-- An element of a list that a map leaves as it is, is left as it is.
pub fixed-map {ℓ} : {A : Type ℓ} (f : A → A) (xs : List A) → map f xs ≡ xs → All (λ x. f x ≡ x) xs
fixed-map f [] e = tt
fixed-map f (x ∷ xs) e = (cc, fixed-map f xs (cc))

abbrev pub AllEntries {ℓ κ} : {V : Type ℓ} → (String → V → Type κ) → List (String × V) → Type κ
AllEntries P [] = Unit
AllEntries P ((k, v) ∷ m) = P k v × AllEntries P m

pub lookup-AllEntries {ℓ κ} :
    {V : Type ℓ} (P : String → V → Type κ) (k : String) (m : List (String × V)) {v : V}
    → AllEntries P m
    → lookup k m ≡ some v
    → P k v
unfolding lookup
lookup-AllEntries P k [] h e = cc
lookup-AllEntries P k ((j, w) ∷ m) {v} h e = elim (Bool-cases (j == k)) [
  | inl same ↦
      let found : w ≡ v = ground arith in
      subst (λ y. P k y) found (subst (λ i. P i w) ((eq_iff j k).0 same) h.0)
  | inr other ↦ lookup-AllEntries P k m h.1 (rw (← e) (rw other))
]
