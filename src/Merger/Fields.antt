-- ===== src/Merger/Fields.antt =====
-- What a merge leaves under a label.
use ang.Common.{
  ◌≡◌, refl, sym, ap, ◌∙◌, subst, inl, inr, String, Bool, true, false, Option, none, some, ◌==◌,
  eq_iff, Bool-cases,
}
use ang.Merger.{Expr, Decl, Decls, append_decl, update_first, merge_field, merge_decls, find_field}

-- What the two values of a label make: the one there is, or the merged value of both.
abbrev pub combine : Option Expr → Option Expr → Bool → Option Expr
combine none patch force = patch
combine (some v) none force = some v
combine (some v) (some w) force = some (merge_field v w force)

-- No field has the label.
abbrev pub Lacks : String → Decls → Type 0
Lacks label Decls.nil = Unit
Lacks label (Decls.cons (Decl.field k v) ds) = ((k == label) ≡ false) × Lacks label ds
Lacks label (Decls.cons (Decl.package_clause name) ds) = Lacks label ds
Lacks label (Decls.cons (Decl.embedded text) ds) = Lacks label ds

-- No two fields have the same label.
abbrev pub AreDistinct : Decls → Type 0
AreDistinct Decls.nil = Unit
AreDistinct (Decls.cons (Decl.field k v) ds) = Lacks k ds × AreDistinct ds
AreDistinct (Decls.cons (Decl.package_clause name) ds) = AreDistinct ds
AreDistinct (Decls.cons (Decl.embedded text) ds) = AreDistinct ds

find_field-Lacks : (label : String) (ds : Decls) → Lacks label ds → find_field label ds ≡ none
unfolding find_field
find_field-Lacks label Decls.nil l = refl
find_field-Lacks label (Decls.cons (Decl.field k v) ds) l = rw l.0 (find_field-Lacks label ds l.1)
find_field-Lacks label (Decls.cons (Decl.package_clause name) ds) l = find_field-Lacks label ds l
find_field-Lacks label (Decls.cons (Decl.embedded text) ds) l = find_field-Lacks label ds l

pub find_field-append_package :
    (label name : String) (ds : Decls)
    → find_field label (append_decl ds (Decl.package_clause name)) ≡ find_field label ds
unfolding find_field append_decl
find_field-append_package label name Decls.nil = refl
find_field-append_package label name (Decls.cons (Decl.field k v) ds) =
    rw (find_field-append_package label name ds) refl
find_field-append_package label name (Decls.cons (Decl.package_clause n) ds) =
    find_field-append_package label name ds
find_field-append_package label name (Decls.cons (Decl.embedded t) ds) =
    find_field-append_package label name ds

pub find_field-append_embedded :
    (label text : String) (ds : Decls)
    → find_field label (append_decl ds (Decl.embedded text)) ≡ find_field label ds
unfolding find_field append_decl
find_field-append_embedded label text Decls.nil = refl
find_field-append_embedded label text (Decls.cons (Decl.field k v) ds) =
    rw (find_field-append_embedded label text ds) refl
find_field-append_embedded label text (Decls.cons (Decl.package_clause n) ds) =
    find_field-append_embedded label text ds
find_field-append_embedded label text (Decls.cons (Decl.embedded t) ds) =
    find_field-append_embedded label text ds

-- the value that an update leaves
abbrev pub changed : Option Expr → (Expr → Expr) → Expr → Option Expr
changed none change fresh = some fresh
changed (some v) change fresh = some (change v)

self : (s : String) → (s == s) ≡ true
self s = (eq_iff s s).1 refl

pub find_field-update_first :
    (label : String) (change : Expr → Expr) (fresh : Expr) (ds : Decls)
    → find_field label (update_first label change (Decl.field label fresh) ds)
      ≡ changed (find_field label ds) change fresh
unfolding find_field update_first
find_field-update_first label change fresh Decls.nil = rw (self label) refl
find_field-update_first label change fresh (Decls.cons (Decl.field k v) ds) =
    elim (Bool-cases (k == label)) [
      | inl e ↦ rw e (rw e refl)
      | inr e ↦ rw e (rw e (find_field-update_first label change fresh ds))
    ]
find_field-update_first label change fresh (Decls.cons (Decl.package_clause n) ds) =
    find_field-update_first label change fresh ds
find_field-update_first label change fresh (Decls.cons (Decl.embedded t) ds) =
    find_field-update_first label change fresh ds

-- another label keeps its value
find_field-update_other :
    (label other : String) (change : Expr → Expr) (fresh : Expr) (ds : Decls)
    → (other == label) ≡ false
    → find_field label (update_first other change (Decl.field other fresh) ds) ≡ find_field label ds
unfolding find_field update_first
find_field-update_other label other change fresh Decls.nil n = rw n refl
find_field-update_other label other change fresh (Decls.cons (Decl.field k v) ds) n =
    elim (Bool-cases (k == other)) [
      | inl e ↦
          let same = (eq_iff k other).0 e in
          let apart : (k == label) ≡ false = subst (λ s. (s == label) ≡ false) (sym same) n in
          rw e (rw apart refl)
      | inr e ↦ rw e (rw (find_field-update_other label other change fresh ds n) refl)
    ]
find_field-update_other label other change fresh (Decls.cons (Decl.package_clause m) ds) n =
    find_field-update_other label other change fresh ds n
find_field-update_other label other change fresh (Decls.cons (Decl.embedded t) ds) n =
    find_field-update_other label other change fresh ds n

changed-combine :
    (old : Option Expr) (v : Expr) (force : Bool)
    → changed old (λ w. merge_field w v force) v ≡ combine old (some v) force
changed-combine none v force = refl
changed-combine (some w) v force = refl

pub combine-none : (old : Option Expr) (force : Bool) → combine old none force ≡ old
combine-none none force = refl
combine-none (some v) force = refl

-- one field of the patch, and the fields behind it that have other labels
pub find_field-step :
    (label k : String) (v : Expr) (force : Bool) (orig rest : Decls)
    → Lacks k rest
    → combine
        (find_field label (update_first k (λ w. merge_field w v force) (Decl.field k v) orig))
        (find_field label rest)
        force
      ≡ combine (find_field label orig) (find_field label (Decls.cons (Decl.field k v) rest)) force
unfolding find_field
find_field-step label k v force orig rest l = elim (Bool-cases (k == label)) [
  | inl e ↦
      let same = (eq_iff k label).0 e in
      let absent : find_field label rest ≡ none =
        find_field-Lacks label rest (subst (λ s. Lacks s rest) same l) in
      let here : find_field label
            (update_first k (λ w. merge_field w v force) (Decl.field k v) orig)
          ≡ combine (find_field label orig) (some v) force =
        subst
          (λ s.
            find_field label (update_first s (λ w. merge_field w v force) (Decl.field s v) orig)
            ≡ combine (find_field label orig) (some v) force)
          (sym same)
          (find_field-update_first label (λ w. merge_field w v force) v orig
            ∙ changed-combine (find_field label orig) v force) in
      rw e (rw (absent, here) (combine-none _ force))
  | inr e ↦ rw e (rw (find_field-update_other label k (λ w. merge_field w v force) v orig e) refl)
]

-- what mergeDecls leaves under each label, in terms of mergeField
pub find_field-merge_decls :
    (label : String) (patch orig : Decls) (force : Bool)
    → AreDistinct patch
    → find_field label (merge_decls orig patch force)
      ≡ combine (find_field label orig) (find_field label patch) force
unfolding merge_decls find_field
find_field-merge_decls label Decls.nil orig force d = sym (combine-none _ force)
find_field-merge_decls label (Decls.cons (Decl.field k v) patch) orig force d =
    find_field-merge_decls label patch _ force d.1 ∙ find_field-step label k v force orig patch d.0
find_field-merge_decls label (Decls.cons (Decl.package_clause n) patch) orig force d =
    find_field-merge_decls label patch orig force d
find_field-merge_decls label (Decls.cons (Decl.embedded t) patch) orig force d =
    find_field-merge_decls label patch _ force d
    ∙ ap (λ f. combine f (find_field label patch) force) (find_field-append_embedded label t orig)
