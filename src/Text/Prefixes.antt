-- ===== src/Text/Prefixes.antt =====
-- Prefixes that are put before a text and taken off again.
use Prim.Native.String.append
use Prim.Native.String.{String, ◌++◌}
use text.Mathlib.Text.{starts_with}
use text.Mathlib.TextPositions.{starts_with-append}
use text.Mathlib.TextEquality.{starts_with_iff}
use Prim.Native.Char.{Char, code}
use ang.Common.{
  ℕ, eqb, arith, ◌≡◌, ◌≢◌, refl, sym, ap, subst, ◌∙◌, true, false, ◌==◌, eq_iff, inl, inr,
  Bool-cases,
}
use ang.Text.{has_prefix, trim_prefix, drop_as_long}

drop_as_long-append : (p x : String) → drop_as_long p (p ++ x) ≡ x
unfolding drop_as_long
drop_as_long-append String.[] x = rw (append.nil x) refl
drop_as_long-append (String.◌∷◌ c p) x = rw (append.cons c p x) (drop_as_long-append p x)

drop_as_long_self : (p : String) → drop_as_long p p ≡ ""
unfolding drop_as_long
drop_as_long_self String.[] = refl
drop_as_long_self (String.◌∷◌ c p) = drop_as_long_self p

pub has_prefix-append : (p x : String) → has_prefix (p ++ x) p ≡ true
unfolding has_prefix
has_prefix-append p x = starts_with-append p x

pub trim_prefix-append : (p x : String) → trim_prefix (p ++ x) p ≡ x
unfolding trim_prefix
trim_prefix-append p x = rw (has_prefix-append p x) (drop_as_long-append p x)

-- A text with something behind the prefix is not the prefix.
pub longer_than_prefix : (p x : String) → x ≢ "" → (p ++ x == p) ≡ false
longer_than_prefix p x n = elim (Bool-cases (p ++ x == p)) [
  | inr e ↦ e
  | inl e ↦
      let same = (eq_iff (p ++ x) p).0 e in
      absurd (n (sym (drop_as_long-append p x) ∙ ap (drop_as_long p) same ∙ drop_as_long_self p))
]

-- A text that begins otherwise is another one.
pub without_prefix : (p x s : String) → has_prefix s p ≡ false → (p ++ x == s) ≡ false
without_prefix p x s h = elim (Bool-cases (p ++ x == s)) [
  | inr e ↦ e
  | inl e ↦
      let same = (eq_iff (p ++ x) s).0 e in
      let has = subst (λ t. has_prefix t p ≡ true) same (has_prefix-append p x) in cc
]

head_code : String → ℕ
head_code String.[] = 0
head_code (String.◌∷◌ c s) = code c

-- Texts that begin with different characters have different prefixes.
pub other_prefix :
    (c d : Char) (p q x : String)
    → eqb (code c) (code d) ≡ false
    → has_prefix (String.◌∷◌ c p ++ x) (String.◌∷◌ d q) ≡ false
unfolding has_prefix head_code
other_prefix c d p q x n = elim (Bool-cases (starts_with (String.◌∷◌ c p ++ x) (String.◌∷◌ d q))) [
  | inr e ↦ e
  | inl e ↦
      let pre = (starts_with_iff (String.◌∷◌ c p ++ x) (String.◌∷◌ d q)).0 e in
      let same = sym (append.cons d q pre.0) ∙ pre.1 ∙ append.cons c p x in
      let heads : code d ≡ code c = ap head_code same in ground arith
]

pub append_cancel : (p x y : String) → p ++ x ≡ p ++ y → x ≡ y
append_cancel p x y e =
    sym (drop_as_long-append p x) ∙ ap (drop_as_long p) e ∙ drop_as_long-append p y
