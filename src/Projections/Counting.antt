-- ===== src/Projections/Counting.antt =====
-- The loop over the fields in projectionFieldsForSelect: what is taken, and what is left of the tokens.
use mathlib.Core.List.Perm
use ang.Common.{
  ◌≡◌, refl, ap, subst, ◌∙◌, String, Bool, true, false, not, ◌&&◌, ◌||◌, List, [], ◌∷◌, ◌++◌, map,
  inl, inr, Bool-cases, contains, Perm, eq_iff, ◌==◌, arith,
}
use ang.Normalizer.{Field}
use ang.Projections.Fields.{delete, token_of, take_fields}

-- whether a field of the domain has the token
abbrev pub has_token : String → List Field → Bool
has_token k [] = false
has_token k (f ∷ fs) = not f.skip_domain && token_of f == k || has_token k fs

abbrev pub AreDistinct : List String → Type 0
AreDistinct [] = Unit
AreDistinct (k ∷ ks) = (contains ks k ≡ false) × AreDistinct ks

delete-Perm : (k : String) (ks : List String) → contains ks k ≡ true → Perm (k ∷ delete k ks) ks
unfolding contains delete
delete-Perm k [] h = cc
delete-Perm k (j ∷ ks) h = elim (Bool-cases (j == k)) [
  | inl e ↦ rw e (subst (λ x. Perm (x ∷ ks) (j ∷ ks)) ((eq_iff j k).0 e) (Perm.refl (j ∷ ks)))
  | inr n ↦
      rw n (Perm.trans (Perm.swap j k (delete k ks)) (Perm.cons j (delete-Perm k ks (rw n at h))))
]

contains-delete_ne :
    (k j : String) (ks : List String) → (k == j) ≡ false → contains (delete k ks) j ≡ contains ks j
unfolding contains delete
contains-delete_ne k j [] n = refl
contains-delete_ne k j (i ∷ ks) n =
    ground (arith, eq_iff i k, eq_iff i j, eq_iff k j, contains-delete_ne k j ks n)

contains-delete_self :
    (k : String) (ks : List String) → AreDistinct ks → contains (delete k ks) k ≡ false
unfolding contains delete
contains-delete_self k [] d = refl
contains-delete_self k (i ∷ ks) d = elim (Bool-cases (i == k)) [
  | inl e ↦ rw e (subst (λ x. contains ks x ≡ false) ((eq_iff i k).0 e) d.0)
  | inr n ↦ rw n (rw n (contains-delete_self k ks d.1))
]

other_sym : (s t : String) → (s == t) ≡ false → (t == s) ≡ false
other_sym s t n = ground (arith, eq_iff s t, eq_iff t s)

delete-AreDistinct : (k : String) (ks : List String) → AreDistinct ks → AreDistinct (delete k ks)
unfolding delete
delete-AreDistinct k [] d = tt
delete-AreDistinct k (i ∷ ks) d = elim (Bool-cases (i == k)) [
  | inl e ↦ rw e d.1
  | inr n ↦ rw n (contains-delete_ne k i ks (other_sym i k n) ∙ d.0, delete-AreDistinct k ks d.1)
]

-- The tokens of the fields that are taken and those that are left are the ones that were sought.
pub take_fields-Perm :
    (seen : List String) (fs : List Field)
    → Perm (map token_of (take_fields seen fs).0 ++ (take_fields seen fs).1) seen
unfolding take_fields
take_fields-Perm seen [] = Perm.refl seen
take_fields-Perm seen (f ∷ fs) =
    elim (Bool-cases (not f.skip_domain && contains seen (token_of f))) [
      | inl here ↦ rw here (
          Perm.trans (Perm.cons (token_of f) (take_fields-Perm (delete (token_of f) seen) fs))
            (delete-Perm (token_of f) seen (ground arith)))
      | inr other ↦ rw other (take_fields-Perm seen fs)
    ]

-- A token is left exactly if it was sought and no field of the domain has it.
pub left_iff :
    (seen : List String) (fs : List Field) (k : String)
    → AreDistinct seen
    → contains (take_fields seen fs).1 k ≡ (contains seen k && not (has_token k fs))
unfolding take_fields
left_iff seen [] k d = ground arith
left_iff seen (f ∷ fs) k d = elim (Bool-cases (not f.skip_domain && contains seen (token_of f))) [
  | inl here ↦
      let rest =
        left_iff (delete (token_of f) seen) fs k (delete-AreDistinct (token_of f) seen d) in
      rw here (elim (Bool-cases (token_of f == k)) [
        | inl e ↦
            let gone : contains (delete (token_of f) seen) k ≡ false =
              subst (λ x. contains (delete (token_of f) seen) x ≡ false)
                ((eq_iff (token_of f) k).0 e) (contains-delete_self (token_of f) seen d) in
            ground arith
        | inr n ↦ let kept = contains-delete_ne (token_of f) k seen n in ground arith
      ])
  | inr other ↦
      let rest = left_iff seen fs k d in
      rw other (elim (Bool-cases (token_of f == k)) [
        | inl e ↦
            let same : contains seen (token_of f) ≡ contains seen k =
              ap (contains seen) ((eq_iff (token_of f) k).0 e) in
            ground arith
        | inr n ↦ ground arith
      ])
]
