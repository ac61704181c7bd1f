-- ===== src/Merger.antt =====
-- internal/mcp/merger.go: the merge of a patch into a CUE file, on the syntax trees that the parser
-- gives. Its proofs are in the modules below.
mod Fields
mod Merges
mod Selectors
mod Examples
use ang.Common.{
  String, Bool, true, false, not, ◌&&◌, Option, none, some, List, [], ◌∷◌, ◌==◌, if◌then◌else◌,
}
use ang.Text.{split}

-- Syntax trees. The label of a field is the text that `fmt.Sprint` gives for it; a value that is no
-- struct, and a declaration that is neither a field nor a package, are known by their source text.
mutual
  pub data Expr : Type 0 where
    struct : Decls → Expr
    other : String → Expr

  pub data Decl : Type 0 where
    field : (label : String) → Expr → Decl
    package_clause : String → Decl
    embedded : String → Decl

  pub data Decls : Type 0 where
    nil : Decls
    cons : Decl → Decls → Decls

-- `append(ds, d)`
unfoldable pub append_decl : Decls → Decl → Decls
append_decl Decls.nil d = Decls.cons d Decls.nil
append_decl (Decls.cons e ds) d = Decls.cons e (append_decl ds d)

-- the loop that looks for a field of that label: it changes the value of the first one, or adds the
-- declaration `fresh` at the end
unfoldable pub update_first : String → (Expr → Expr) → Decl → Decls → Decls
update_first label change fresh Decls.nil = Decls.cons fresh Decls.nil
update_first label change fresh (Decls.cons (Decl.field k v) ds) =
    let rest = update_first label change fresh ds in
    if k == label then Decls.cons (Decl.field k (change v)) ds else Decls.cons (Decl.field k v) rest
update_first label change fresh (Decls.cons (Decl.package_clause name) ds) =
    Decls.cons (Decl.package_clause name) (update_first label change fresh ds)
update_first label change fresh (Decls.cons (Decl.embedded text) ds) =
    Decls.cons (Decl.embedded text) (update_first label change fresh ds)

unfoldable mutual
  -- `mergeStruct`
  pub merge_struct : Decls → Decls → Bool → Decls
  merge_struct orig Decls.nil force = orig
  merge_struct orig (Decls.cons (Decl.field label v) patch) force =
      merge_struct (update_first label (λ w. merge_field w v force) (Decl.field label v) orig) patch
        force
  merge_struct orig (Decls.cons (Decl.package_clause name) patch) force =
      merge_struct (append_decl orig (Decl.package_clause name)) patch force
  merge_struct orig (Decls.cons (Decl.embedded text) patch) force =
      merge_struct (append_decl orig (Decl.embedded text)) patch force

  -- `mergeField`: the value that the field of the original has afterwards
  pub merge_field : Expr → Expr → Bool → Expr
  merge_field (Expr.struct o) (Expr.struct p) force =
      let merged = merge_struct o p force in if not force then Expr.struct merged else Expr.struct p
  merge_field (Expr.other t) patch force = patch
  merge_field (Expr.struct o) (Expr.other t) force = Expr.other t

-- `mergeDecls`
unfoldable pub merge_decls : Decls → Decls → Bool → Decls
merge_decls orig Decls.nil force = orig
merge_decls orig (Decls.cons (Decl.field label v) patch) force =
    merge_decls (update_first label (λ w. merge_field w v force) (Decl.field label v) orig) patch
      force
merge_decls orig (Decls.cons (Decl.package_clause name) patch) force = merge_decls orig patch force
merge_decls orig (Decls.cons (Decl.embedded text) patch) force =
    merge_decls (append_decl orig (Decl.embedded text)) patch force

-- `declsToValue`, whose branches give the same struct
abbrev pub decls_to_value : Decls → Expr
decls_to_value decls = Expr.struct decls

-- the declarations that the search goes on in: those of a struct, or those of a new struct that takes
-- the place of another value
unfoldable pub decls_of : Expr → Decls
decls_of (Expr.struct ds) = ds
decls_of (Expr.other t) = Decls.nil

abbrev pub overwrite : Decls → Bool → Expr → Expr
overwrite patch force v =
    if force then decls_to_value patch else merge_field v (decls_to_value patch) false

-- the loop of `mergeAtSelector` over the parts of the selector
unfoldable pub merge_at_parts : Decls → List String → Decls → Bool → Decls
merge_at_parts orig [] patch force = orig
merge_at_parts orig (part ∷ []) patch force =
    update_first part (overwrite patch force) (Decl.field part (decls_to_value patch)) orig
merge_at_parts orig (part ∷ next ∷ parts) patch force =
    update_first part (λ v. Expr.struct (merge_at_parts (decls_of v) (next ∷ parts) patch force))
      (Decl.field part (Expr.struct (merge_at_parts Decls.nil (next ∷ parts) patch force))) orig

-- `mergeAtSelector`
unfoldable pub merge_at_selector : Decls → (selector : String) → Decls → Bool → Decls
unfolding merge_at_parts
merge_at_selector orig selector patch force = merge_at_parts orig (split selector b'.') patch force

-- the value of the first field of that label
unfoldable pub find_field : String → Decls → Option Expr
find_field label Decls.nil = none
find_field label (Decls.cons (Decl.field k v) ds) =
    if k == label then some v else find_field label ds
find_field label (Decls.cons (Decl.package_clause name) ds) = find_field label ds
find_field label (Decls.cons (Decl.embedded text) ds) = find_field label ds

-- the declarations of the first field of that label whose value is a struct
unfoldable pub find_struct : String → Decls → Option Decls
find_struct label Decls.nil = none
find_struct label (Decls.cons (Decl.field k (Expr.struct s)) ds) =
    if k == label then some s else find_struct label ds
find_struct label (Decls.cons (Decl.field k (Expr.other t)) ds) = find_struct label ds
find_struct label (Decls.cons (Decl.package_clause name) ds) = find_struct label ds
find_struct label (Decls.cons (Decl.embedded text) ds) = find_struct label ds

-- the loop of `findNodeBySelector` over the parts of the selector
unfoldable pub find_parts : Decls → List String → Option Expr
find_parts ds [] = none
find_parts ds (part ∷ []) = find_field part ds
find_parts ds (part ∷ next ∷ parts) = elim (find_struct part ds) [
  | none ↦ none
  | some s ↦ find_parts s (next ∷ parts)
]

-- `findNodeBySelector`
unfoldable pub find_node_by_selector : Decls → (selector : String) → Option Expr
unfolding find_parts
find_node_by_selector ds selector =
    if selector == "" then none else find_parts ds (split selector b'.')
