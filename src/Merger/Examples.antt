-- ===== src/Merger/Examples.antt =====
-- Merges of small files.
use ang.Common.{◌++◌, ◌≡◌, refl, String, false}
use ang.Merger.{Expr, Decl, Decls, merge_decls, merge_struct, find_field, update_first, append_decl}
use ang.Merger.Merges.{IsPlain, IsPlainExpr, IsFieldMerge, embeddings, merge_decls-merges}

abbrev port : String → Decls
port value = Decls.cons (Decl.field "port" (Expr.other value)) Decls.nil

abbrev original : Decls
original = Decls.cons (Decl.package_clause "cue") (
    Decls.cons (Decl.field "server" (Expr.struct (port "80")))
      (Decls.cons (Decl.field "name" (Expr.other "\"blog\"")) Decls.nil))

abbrev patch : Decls
patch = Decls.cons (Decl.package_clause "cue") (
    Decls.cons (Decl.field "server" (Expr.struct (port "81")))
      (Decls.cons (Decl.field "debug" (Expr.other "true")) Decls.nil))

merged :
    merge_decls original patch false
    ≡ Decls.cons (Decl.package_clause "cue") (
        Decls.cons (Decl.field "server" (Expr.struct (port "81"))) (
          Decls.cons
            (Decl.field "name" (Expr.other "\"blog\""))
            (Decls.cons (Decl.field "debug" (Expr.other "true")) Decls.nil)))
unfolding merge_decls merge_struct update_first append_decl
merged = refl

patch-IsPlain : IsPlain patch
patch-IsPlain = IsPlain.package_clause (
    IsPlain.field (refl, tt) (IsPlainExpr.struct (IsPlain.field tt IsPlainExpr.other IsPlain.nil))
      (IsPlain.field tt IsPlainExpr.other IsPlain.nil))

merge_decls-merges_example :
    ((label : String)
      → IsFieldMerge false
          (find_field label original)
          (find_field label patch)
          (find_field label (merge_decls original patch false)))
    × (embeddings (merge_decls original patch false) ≡ embeddings original ++ embeddings patch)
merge_decls-merges_example = merge_decls-merges patch original false patch-IsPlain
