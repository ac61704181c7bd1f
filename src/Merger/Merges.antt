-- ===== src/Merger/Merges.antt =====
-- What mergeDecls makes of two files, told by the labels of their fields.
use ang.Common.{
  ◌≡◌, refl, sym, ap, ◌∙◌, subst, inl, inr, String, Bool, true, false, Option, none, some, List, [],
  ◌∷◌, ◌++◌, ◌==◌, Bool-cases,
}
use mathlib.Core.List.{append_assoc, append-nil}
use mathlib.Core.Option.{some_inj}
use ang.Merger.{
  Expr, Decl, Decls, append_decl, update_first, merge_field, merge_struct, merge_decls, find_field,
}
use ang.Merger.Fields.{
  combine, Lacks, AreDistinct, find_field-append_package, find_field-append_embedded,
  find_field-step, combine-none, find_field-merge_decls,
}

-- the declarations that are neither a field nor a package clause, in their order
abbrev pub embeddings : Decls → List String
embeddings Decls.nil = []
embeddings (Decls.cons (Decl.field k v) ds) = embeddings ds
embeddings (Decls.cons (Decl.package_clause name) ds) = embeddings ds
embeddings (Decls.cons (Decl.embedded text) ds) = text ∷ embeddings ds

-- The value is no struct.
abbrev pub IsOther : Expr → Type 0
IsOther (Expr.struct ds) = ⊥
IsOther (Expr.other t) = Unit

-- What two values become: the second one if it is forced or one of them is no struct, and otherwise a
-- struct whose fields are merged in the same way and which embeds what the first and then the second
-- one embed.
mutual
  pub data IsMerge : Bool → Expr → Expr → Expr → Type 0 where
    forced : {v w : Expr} → IsMerge true v w w
    over_other : {force : Bool} {v w : Expr} → IsOther v → IsMerge force v w w
    by_other : {force : Bool} {v w : Expr} → IsOther w → IsMerge force v w w
    structs :
        {o p m : Decls}
        → ((label : String)
            → IsFieldMerge false (find_field label o) (find_field label p) (find_field label m))
        → embeddings m ≡ embeddings o ++ embeddings p
        → IsMerge false (Expr.struct o) (Expr.struct p) (Expr.struct m)

  pub data IsFieldMerge : Bool → Option Expr → Option Expr → Option Expr → Type 0 where
    kept : {force : Bool} {v : Option Expr} → IsFieldMerge force v none v
    added : {force : Bool} {w : Expr} → IsFieldMerge force none (some w) (some w)
    both :
        {force : Bool} {v w x : Expr}
        → IsMerge force v w x
        → IsFieldMerge force (some v) (some w) (some x)

-- No two fields have the same label, in the structs within either.
mutual
  pub data IsPlain : Decls → Type 0 where
    nil : IsPlain Decls.nil
    field :
        {k : String} {v : Expr} {ds : Decls}
        → Lacks k ds
        → IsPlainExpr v
        → IsPlain ds
        → IsPlain (Decls.cons (Decl.field k v) ds)
    package_clause :
        {name : String} {ds : Decls}
        → IsPlain ds
        → IsPlain (Decls.cons (Decl.package_clause name) ds)
    embedded :
        {text : String} {ds : Decls} → IsPlain ds → IsPlain (Decls.cons (Decl.embedded text) ds)

  pub data IsPlainExpr : Expr → Type 0 where
    struct : {ds : Decls} → IsPlain ds → IsPlainExpr (Expr.struct ds)
    other : {t : String} → IsPlainExpr (Expr.other t)

embeddings-update_first :
    (label : String) (change : Expr → Expr) (v : Expr) (ds : Decls)
    → embeddings (update_first label change (Decl.field label v) ds) ≡ embeddings ds
unfolding update_first
embeddings-update_first label change v Decls.nil = refl
embeddings-update_first label change v (Decls.cons (Decl.field k w) ds) =
    elim (Bool-cases (k == label)) [
      | inl e ↦ rw e refl
      | inr e ↦ rw e (embeddings-update_first label change v ds)
    ]
embeddings-update_first label change v (Decls.cons (Decl.package_clause n) ds) =
    embeddings-update_first label change v ds
embeddings-update_first label change v (Decls.cons (Decl.embedded t) ds) =
    ap (λ l. t ∷ l) (embeddings-update_first label change v ds)

embeddings-append_package :
    (name : String) (ds : Decls)
    → embeddings (append_decl ds (Decl.package_clause name)) ≡ embeddings ds
unfolding append_decl
embeddings-append_package name Decls.nil = refl
embeddings-append_package name (Decls.cons (Decl.field k v) ds) = embeddings-append_package name ds
embeddings-append_package name (Decls.cons (Decl.package_clause n) ds) =
    embeddings-append_package name ds
embeddings-append_package name (Decls.cons (Decl.embedded t) ds) =
    ap (λ l. t ∷ l) (embeddings-append_package name ds)

embeddings-append_embedded :
    (text : String) (ds : Decls)
    → embeddings (append_decl ds (Decl.embedded text)) ≡ embeddings ds ++ text ∷ []
unfolding append_decl
embeddings-append_embedded text Decls.nil = refl
embeddings-append_embedded text (Decls.cons (Decl.field k v) ds) =
    embeddings-append_embedded text ds
embeddings-append_embedded text (Decls.cons (Decl.package_clause n) ds) =
    embeddings-append_embedded text ds
embeddings-append_embedded text (Decls.cons (Decl.embedded t) ds) =
    ap (λ l. t ∷ l) (embeddings-append_embedded text ds)

embeddings-merge_struct :
    (p o : Decls) (force : Bool)
    → embeddings (merge_struct o p force) ≡ embeddings o ++ embeddings p
unfolding merge_struct
embeddings-merge_struct Decls.nil o force = sym (append-nil (embeddings o))
embeddings-merge_struct (Decls.cons (Decl.field k v) p) o force =
    embeddings-merge_struct p _ force
    ∙ ap (λ l. l ++ embeddings p) (embeddings-update_first k (λ w. merge_field w v force) v o)
embeddings-merge_struct (Decls.cons (Decl.package_clause n) p) o force =
    embeddings-merge_struct p _ force ∙ ap (λ l. l ++ embeddings p) (embeddings-append_package n o)
embeddings-merge_struct (Decls.cons (Decl.embedded t) p) o force =
    embeddings-merge_struct p _ force
    ∙ ap (λ l. l ++ embeddings p) (embeddings-append_embedded t o)
    ∙ append_assoc (embeddings o) (t ∷ []) (embeddings p)

embeddings-merge_decls :
    (p o : Decls) (force : Bool) → embeddings (merge_decls o p force) ≡ embeddings o ++ embeddings p
unfolding merge_decls
embeddings-merge_decls Decls.nil o force = sym (append-nil (embeddings o))
embeddings-merge_decls (Decls.cons (Decl.field k v) p) o force =
    embeddings-merge_decls p _ force
    ∙ ap (λ l. l ++ embeddings p) (embeddings-update_first k (λ w. merge_field w v force) v o)
embeddings-merge_decls (Decls.cons (Decl.package_clause n) p) o force =
    embeddings-merge_decls p o force
embeddings-merge_decls (Decls.cons (Decl.embedded t) p) o force =
    embeddings-merge_decls p _ force
    ∙ ap (λ l. l ++ embeddings p) (embeddings-append_embedded t o)
    ∙ append_assoc (embeddings o) (t ∷ []) (embeddings p)

-- the labels behind a merge of structs, if no two fields of the patch have the same label
find_field-merge_struct :
    (label : String) (p o : Decls) (force : Bool)
    → IsPlain p
    → find_field label (merge_struct o p force)
      ≡ combine (find_field label o) (find_field label p) force
unfolding merge_struct find_field
find_field-merge_struct label Decls.nil o force d = sym (combine-none _ force)
find_field-merge_struct label (Decls.cons (Decl.field k v) p) o force (IsPlain.field l e d) =
    find_field-merge_struct label p _ force d ∙ find_field-step label k v force o p l
find_field-merge_struct label (Decls.cons (Decl.package_clause n) p) o force
      (IsPlain.package_clause d) =
    find_field-merge_struct label p _ force d
    ∙ ap (λ f. combine f (find_field label p) force) (find_field-append_package label n o)
find_field-merge_struct label (Decls.cons (Decl.embedded t) p) o force (IsPlain.embedded d) =
    find_field-merge_struct label p _ force d
    ∙ ap (λ f. combine f (find_field label p) force) (find_field-append_embedded label t o)

IsPlain-AreDistinct : (ds : Decls) → IsPlain ds → AreDistinct ds
IsPlain-AreDistinct Decls.nil d = tt
IsPlain-AreDistinct (Decls.cons (Decl.field k v) ds) (IsPlain.field l e d) =
    (l, IsPlain-AreDistinct ds d)
IsPlain-AreDistinct (Decls.cons (Decl.package_clause n) ds) (IsPlain.package_clause d) =
    IsPlain-AreDistinct ds d
IsPlain-AreDistinct (Decls.cons (Decl.embedded t) ds) (IsPlain.embedded d) =
    IsPlain-AreDistinct ds d

-- what two values make, if the values under both labels merge
IsFieldMerge-combine :
    (force : Bool) (old new : Option Expr)
    → ((v w : Expr) → new ≡ some w → IsMerge force v w (merge_field v w force))
    → IsFieldMerge force old new (combine old new force)
IsFieldMerge-combine force none none h = IsFieldMerge.kept
IsFieldMerge-combine force (some v) none h = IsFieldMerge.kept
IsFieldMerge-combine force none (some w) h = IsFieldMerge.added
IsFieldMerge-combine force (some v) (some w) h = IsFieldMerge.both (h v w refl)

mutual
  unfolding merge_field find_field

  merge_field-IsMerge :
      (force : Bool) (v w : Expr) → IsPlainExpr w → IsMerge force v w (merge_field v w force)
  merge_field-IsMerge force (Expr.other t) w d = IsMerge.over_other tt
  merge_field-IsMerge force (Expr.struct o) (Expr.other t) d = IsMerge.by_other tt
  merge_field-IsMerge true (Expr.struct o) (Expr.struct p) d = IsMerge.forced
  merge_field-IsMerge false (Expr.struct o) (Expr.struct p) (IsPlainExpr.struct d) =
      IsMerge.structs
        (λ label.
          subst (IsFieldMerge false (find_field label o) (find_field label p))
            (sym (find_field-merge_struct label p o false d))
            (IsFieldMerge-combine false (find_field label o) (find_field label p)
              (λ v w e. values-IsMerge false label p d v w e)))
        (embeddings-merge_struct p o false)

  values-IsMerge :
      (force : Bool) (label : String) (p : Decls)
      → IsPlain p
      → (v w : Expr) → find_field label p ≡ some w
      → IsMerge force v w (merge_field v w force)
  values-IsMerge force label Decls.nil d v w e = cc e
  values-IsMerge force label (Decls.cons (Decl.field k x) p) (IsPlain.field l g d) v w e =
      elim (Bool-cases (k == label)) [
        | inl same ↦
            subst (λ y. IsMerge force v y (merge_field v y force)) (some_inj.0 (rw same at e))
              (merge_field-IsMerge force v x g)
        | inr apart ↦ values-IsMerge force label p d v w (rw apart at e)
      ]
  values-IsMerge force label (Decls.cons (Decl.package_clause n) p) (IsPlain.package_clause d) v w
        e =
      values-IsMerge force label p d v w e
  values-IsMerge force label (Decls.cons (Decl.embedded t) p) (IsPlain.embedded d) v w e =
      values-IsMerge force label p d v w e

-- If no two fields of a struct of the patch have the same label, mergeDecls leaves under each label the
-- value of the one file that has it. If both files have it, it leaves the patch's value if the merge
-- is forced or one of the two is no struct, and otherwise a struct that is merged in the same way. And
-- it embeds what the file and then the patch embed.
pub merge_decls-merges :
    (patch orig : Decls) (force : Bool)
    → IsPlain patch
    → ((label : String)
        → IsFieldMerge force
            (find_field label orig)
            (find_field label patch)
            (find_field label (merge_decls orig patch force)))
      × (embeddings (merge_decls orig patch force) ≡ embeddings orig ++ embeddings patch)
merge_decls-merges patch orig force d = (
  λ label.
      subst (IsFieldMerge force (find_field label orig) (find_field label patch))
        (sym (find_field-merge_decls label patch orig force (IsPlain-AreDistinct patch d)))
        (IsFieldMerge-combine force (find_field label orig) (find_field label patch)
          (λ v w e. values-IsMerge force label patch d v w e)),
  embeddings-merge_decls patch orig force,
)
