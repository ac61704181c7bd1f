-- ===== src/Templates/Panics.antt =====
-- When the check of the template catalog ends in a panic.
use ang.Common.{
  ℕ, suc, ◌≡◌, ◌↔◌, ◌⊎◌, inl, inr, refl, String, Bool, true, false, Option, none, some, List, [],
  ◌∷◌, ◌==◌, Bool-cases,
}
use ang.Text.{trim_space, equal_fold, concat}
use ang.Text.Numbers.{decimal}
use ang.Ir.{Template}
use ang.Templates.{
  Node, Nodes, ListPointer, Parsed, Collected, both, node_paths, nodes_paths, list_paths, add_paths,
  add_content, engine_of, use_errors, collect_template_var_paths, contents_of, template_errors,
  templates_errors, validate_template_catalog,
}

-- A branch somewhere in the tree lacks its list or its else list.
abbrev mutual
  pub HasBareBranch : Node → Type 0
  HasBareBranch (Node.list_node nodes) = SomeBareBranch nodes
  HasBareBranch (Node.action_node p) = ⊥
  HasBareBranch (Node.range_node p l e) = IsBare l ⊎ IsBare e
  HasBareBranch (Node.if_node p l e) = IsBare l ⊎ IsBare e
  HasBareBranch (Node.with_node p l e) = IsBare l ⊎ IsBare e
  HasBareBranch (Node.template_node p) = ⊥
  HasBareBranch Node.other_node = ⊥

  pub SomeBareBranch : Nodes → Type 0
  SomeBareBranch Nodes.end = ⊥
  SomeBareBranch (Nodes.node n ns) = HasBareBranch n ⊎ SomeBareBranch ns

  pub IsBare : ListPointer → Type 0
  IsBare ListPointer.nil = Unit
  IsBare (ListPointer.to nodes) = SomeBareBranch nodes

both_iff :
    {A B : Type 0} (a b : Option (List String))
    → ((a ≡ none) ↔ A)
    → ((b ≡ none) ↔ B)
    → (both a b ≡ none) ↔ (A ⊎ B)
unfolding both
both_iff none b f g = (λ e. inl (f.0 refl), λ h. refl)
both_iff (some ps) none f g = (λ e. inr (g.0 refl), λ h. refl)
both_iff (some ps) (some qs) f g =
    (λ e. cc e, λ h. elim h [ inl a ↦ absurd (cc (f.1 a)) | inr b ↦ absurd (cc (g.1 b)) ])

returns_iff : (ps : List String) → (some ps ≡ none) ↔ ⊥
returns_iff ps = (λ e. cc e, λ h. absurd h)

branch_iff :
    {A B : Type 0} (ps : List String) (l e : Option (List String))
    → ((l ≡ none) ↔ A)
    → ((e ≡ none) ↔ B)
    → (both (some ps) (both l e) ≡ none) ↔ (A ⊎ B)
branch_iff ps l e f g =
    let outer = both_iff (some ps) (both l e) (returns_iff ps) (both_iff l e f g) in
    (λ h. elim (outer.0 h) [ inl q ↦ absurd q | inr s ↦ s ], λ s. outer.1 (inr s))

mutual
  unfolding node_paths nodes_paths list_paths

  node_iff : (n : Node) → (node_paths n ≡ none) ↔ HasBareBranch n
  node_iff (Node.list_node nodes) = nodes_iff nodes
  node_iff (Node.action_node p) = returns_iff _
  node_iff (Node.range_node p l e) = branch_iff _ _ _ (list_iff l) (list_iff e)
  node_iff (Node.if_node p l e) = branch_iff _ _ _ (list_iff l) (list_iff e)
  node_iff (Node.with_node p l e) = branch_iff _ _ _ (list_iff l) (list_iff e)
  node_iff (Node.template_node p) = returns_iff _
  node_iff Node.other_node = returns_iff _

  nodes_iff : (ns : Nodes) → (nodes_paths ns ≡ none) ↔ SomeBareBranch ns
  nodes_iff Nodes.end = returns_iff _
  nodes_iff (Nodes.node n ns) = both_iff _ _ (node_iff n) (nodes_iff ns)

  list_iff : (l : ListPointer) → (list_paths l ≡ none) ↔ IsBare l
  list_iff ListPointer.nil = (λ e. tt, λ t. refl)
  list_iff (ListPointer.to nodes) = nodes_iff nodes

-- The content, if it is not blank, is parsed and has a bare branch, or the contents behind it have.
abbrev BareIn : (is_blank : Bool) → Parsed → Type 0 → Type 0
BareIn true p rest = rest
BareIn false (Parsed.failed err) rest = ⊥
BareIn false (Parsed.roots trees) rest = SomeBareBranch trees ⊎ rest

add_paths_iff :
    {A R : Type 0} (o : Option (List String)) (rest : Collected)
    → ((o ≡ none) ↔ A)
    → ((rest ≡ Collected.panicked) ↔ R)
    → (add_paths o rest ≡ Collected.panicked) ↔ (A ⊎ R)
unfolding add_paths
add_paths_iff none rest f g = (λ e. inl (f.0 refl), λ h. refl)
add_paths_iff (some ps) Collected.panicked f g = (λ e. inr (g.0 refl), λ h. refl)
add_paths_iff (some ps) (Collected.unparsed err) f g =
    (λ e. cc e, λ h. elim h [ inl a ↦ absurd (cc (f.1 a)) | inr r ↦ absurd (cc (g.1 r)) ])
add_paths_iff (some ps) (Collected.collected qs) f g =
    (λ e. cc e, λ h. elim h [ inl a ↦ absurd (cc (f.1 a)) | inr r ↦ absurd (cc (g.1 r)) ])

add_content_iff :
    {R : Type 0} (p : Parsed) (rest : Collected)
    → ((rest ≡ Collected.panicked) ↔ R)
    → (add_content p rest ≡ Collected.panicked) ↔ BareIn false p R
unfolding add_content
add_content_iff (Parsed.failed err) rest g = (λ e. cc e, λ h. absurd h)
add_content_iff (Parsed.roots trees) rest g =
    add_paths_iff (nodes_paths trees) rest (nodes_iff trees) g

use_errors_iff :
    (id : String) (required before : List String) (c : Collected)
    → (use_errors id required before c ≡ none) ↔ (c ≡ Collected.panicked)
unfolding use_errors
use_errors_iff id required before Collected.panicked = (λ e. refl, λ e. refl)
use_errors_iff id required before (Collected.unparsed err) = (λ e. cc e, λ e. cc e)
use_errors_iff id required before (Collected.collected paths) = (λ e. cc e, λ e. cc e)

module _ (parse : String → String → Parsed) (is_path : String → Bool) where
  -- Up to the first content that does not parse, some content has a bare branch.
  abbrev pub BareContents : ℕ → List String → Type 0
  BareContents i [] = ⊥
  BareContents i (c ∷ contents) =
      BareIn (trim_space c == "") (parse (concat ("template_" ∷ decimal i ∷ [])) (trim_space c))
        (BareContents (suc i) contents)

  contents_iff :
      (i : ℕ) (contents : List String)
      → (collect_template_var_paths parse is_path i contents ≡ Collected.panicked)
        ↔ BareContents i contents
  unfolding collect_template_var_paths
  contents_iff i [] = (λ e. cc e, λ h. absurd h)
  contents_iff i (c ∷ contents) = elim (Bool-cases (trim_space c == "")) [
    | inl e ↦ rw e (contents_iff (suc i) contents)
    | inr e ↦ rw e (add_content_iff _ _ (contents_iff (suc i) contents))
  ]

  -- The template has an id, and it is a Go template with a bare branch.
  abbrev pub Panics : Template → Type 0
  Panics t =
      ((trim_space t.id == "") ≡ false)
      × ((equal_fold (engine_of t) "go_template" ≡ true) × BareContents 0 (contents_of t))

  abbrev pub SomePanics : List Template → Type 0
  SomePanics [] = ⊥
  SomePanics (t ∷ templates) = Panics t ⊎ SomePanics templates

  template_iff :
      (seen : List String) (t : Template)
      → (template_errors parse is_path seen (trim_space t.id) t ≡ none)
        ↔ ((equal_fold (engine_of t) "go_template" ≡ true) × BareContents 0 (contents_of t))
  unfolding template_errors
  template_iff seen t = elim (Bool-cases (equal_fold (engine_of t) "go_template")) [
    | inl e ↦
        let u =
          use_errors_iff (trim_space t.id) _ _
            (collect_template_var_paths parse is_path 0 (contents_of t)) in
        let c = contents_iff 0 (contents_of t) in
        rw e (λ q. (refl, c.0 (u.0 q)), λ h. u.1 (c.1 h.1))
    | inr e ↦ rw e (λ q. cc q, λ h. cc h.0)
  ]

  catalog_iff :
      (i : ℕ) (seen : List String) (templates : List Template)
      → (templates_errors parse is_path i seen templates ≡ none) ↔ SomePanics templates
  unfolding templates_errors
  catalog_iff i seen [] = returns_iff []
  catalog_iff i seen (t ∷ templates) = elim (Bool-cases (trim_space t.id == "")) [
    | inl e ↦
        let rest = catalog_iff (suc i) seen templates in
        let outer = both_iff (some _) _ (returns_iff _) rest in
        rw e (
          λ q. elim (outer.0 q) [ inl n ↦ absurd n | inr s ↦ inr s ],
          λ h. elim h [ inl p ↦ absurd (cc p.0) | inr s ↦ outer.1 (inr s) ],
        )
    | inr e ↦
        let rest = catalog_iff (suc i) (trim_space t.id ∷ seen) templates in
        let outer = both_iff _ _ (template_iff seen t) rest in
        rw e (
          λ q. elim (outer.0 q) [ inl p ↦ inl (refl, p) | inr s ↦ inr s ],
          λ h. elim h [ inl p ↦ outer.1 (inl p.1) | inr s ↦ outer.1 (inr s) ],
        )
  ]

  -- The check of the template catalog panics exactly if some Go template with an id has, up to the first
  -- of its contents that does not parse, a content with a branch that lacks a list, such as an if
  -- without an else. It returns on every other catalog.
  pub validate_template_catalog-Panics :
      (templates : List Template)
      → (validate_template_catalog parse is_path templates ≡ none) ↔ SomePanics templates
  unfolding validate_template_catalog
  validate_template_catalog-Panics templates = catalog_iff 0 [] templates
