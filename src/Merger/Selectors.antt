-- ===== src/Merger/Selectors.antt =====
-- What a merge at a selector leaves there.
use ang.Common.{String, Option, none, some, List}
use ang.Merger.{Expr, Decl, Decls, update_first, find_parts}

-- the declarations that an update leaves in the first field of that label
abbrev struct_after : Option Expr → (Expr → Decls) → Decls → Decls
struct_after none change fresh = fresh
struct_after (some v) change fresh = change v

module _ (label : String) (change : Expr → Decls) (fresh : Decls) where
  abbrev updated : Decls → Decls
  updated = update_first label (λ v. Expr.struct (change v)) (Decl.field label (Expr.struct fresh))

-- the search for the rest of a selector
abbrev search_in : List String → Option Decls → Option Expr
search_in parts o = elim o [ none ↦ none | some s ↦ find_parts s parts ]
