-- ===== src/Templates.antt =====
-- compiler/ir_semantic_validate.go: the catalog of templates (validateTemplateCatalog), with the walk
-- of collectTemplateVarsNode over the trees of text/template. The parser of text/template and the
-- regular expression for the path of a variable are parameters. Its proofs are in the modules below.
pub mod Panics
pub mod Accepted
mod Examples
use ang.Common.{
  ℕ, zero, suc, String, Bool, true, false, not, ◌&&◌, ◌||◌, Option, none, some, List, [], ◌∷◌, ◌++◌,
  ◌==◌, contains, if◌then◌else◌,
}
use ang.Text.{trim_space, to_lower, equal_fold, has_prefix, concat, quote, join}
use ang.Text.Numbers.{decimal}
use ang.Ir.{Template}
use ang.Semantics.{report}
use ang.TemplateVars.{normalize_template_vars, validate_template_var_lists}

-- an argument of a command: a chain of fields, or another node
pub data Arg : Type 0 where
  field : (ident : List String) → Arg
  other : Arg

-- a pipe with the arguments of its commands; none is a nil pointer
abbrev pub Pipe : Type 0
Pipe = Option (List Arg)

-- Nodes of a parsed template. A branch has a list and an else list, and each pointer to a list may be
-- nil. The parser gives a branch without an else a nil pointer there.
mutual
  pub data Node : Type 0 where
    list_node : Nodes → Node
    action_node : Pipe → Node
    range_node : Pipe → (list else_list : ListPointer) → Node
    if_node : Pipe → (list else_list : ListPointer) → Node
    with_node : Pipe → (list else_list : ListPointer) → Node
    template_node : Pipe → Node
    other_node : Node

  pub data Nodes : Type 0 where
    end : Nodes
    node : Node → Nodes → Nodes

  pub data ListPointer : Type 0 where
    nil : ListPointer
    to : Nodes → ListPointer

-- `used[strings.Join(field.Ident, ".")] = true` for each field with names
unfoldable pub args_paths : List Arg → List String
args_paths [] = []
args_paths (Arg.field [] ∷ args) = args_paths args
args_paths (Arg.field (name ∷ names) ∷ args) = join (name ∷ names) "." ∷ args_paths args
args_paths (Arg.other ∷ args) = args_paths args

-- `collectTemplateVarsPipe`: the paths that it adds
unfoldable pub pipe_paths : Pipe → List String
pipe_paths none = []
pipe_paths (some args) = args_paths args

-- the paths of two calls one after the other, where none is a panic
unfoldable pub both : Option (List String) → Option (List String) → Option (List String)
both none second = none
both (some ps) none = none
both (some ps) (some qs) = some (ps ++ qs)

-- `collectTemplateVarsNode`. A nil pointer to a list becomes an interface value that is not nil, so it
-- passes the test for nil, and its field Nodes is read.
unfoldable mutual
  pub node_paths : Node → Option (List String)
  node_paths (Node.list_node nodes) = nodes_paths nodes
  node_paths (Node.action_node p) = some (pipe_paths p)
  node_paths (Node.range_node p l e) =
      both (some (pipe_paths p)) (both (list_paths l) (list_paths e))
  node_paths (Node.if_node p l e) = both (some (pipe_paths p)) (both (list_paths l) (list_paths e))
  node_paths (Node.with_node p l e) =
      both (some (pipe_paths p)) (both (list_paths l) (list_paths e))
  node_paths (Node.template_node p) = some (pipe_paths p)
  node_paths Node.other_node = some []

  pub nodes_paths : Nodes → Option (List String)
  nodes_paths Nodes.end = some []
  nodes_paths (Nodes.node n ns) = both (node_paths n) (nodes_paths ns)

  pub list_paths : ListPointer → Option (List String)
  list_paths ListPointer.nil = none
  list_paths (ListPointer.to nodes) = nodes_paths nodes

-- what a parse gives: an error, or the roots of the trees of t.Templates()
pub data Parsed : Type 0 where
  failed : (err : String) → Parsed
  roots : Nodes → Parsed

pub data Collected : Type 0 where
  panicked : Collected
  unparsed : (err : String) → Collected
  collected : List String → Collected

-- the paths of one content, and what the loop makes of the contents behind it
unfoldable pub add_paths : Option (List String) → Collected → Collected
add_paths none rest = Collected.panicked
add_paths (some ps) (Collected.collected qs) = Collected.collected (ps ++ qs)
add_paths (some ps) Collected.panicked = Collected.panicked
add_paths (some ps) (Collected.unparsed err) = Collected.unparsed err

unfoldable pub add_content : Parsed → Collected → Collected
add_content (Parsed.failed err) rest = Collected.unparsed err
add_content (Parsed.roots trees) rest = add_paths (nodes_paths trees) rest

-- `isSupportedTemplateEngine`
unfoldable pub is_supported_template_engine : String → Bool
is_supported_template_engine engine =
    contains ("go_template" ∷ "plain" ∷ "json" ∷ []) (trim_space (to_lower engine))

-- `templateEngineCompatibleWithChannel`
unfoldable pub template_engine_compatible_with_channel : (engine channel : String) → Bool
template_engine_compatible_with_channel engine channel =
    let e = trim_space (to_lower engine) in
    let c = trim_space (to_lower channel) in
    if e == "" || c == ""
    then true
    else if c == "email" || c == "in_app"
    then e == "go_template" || e == "plain"
    else if c == "nats" || c == "kafka" || c == "webhook"
    then e == "go_template" || e == "plain" || e == "json"
    else true

unfoldable pub some_has_prefix : String → List String → Bool
some_has_prefix prefix [] = false
some_has_prefix prefix (k ∷ keys) = has_prefix k prefix || some_has_prefix prefix keys

-- `isTemplateVarUsed`
unfoldable pub is_template_var_used : String → List String → Bool
is_template_var_used required used =
    contains used required || some_has_prefix (concat (required ∷ "." ∷ [])) used

-- the engine of a template, with its default
unfoldable pub engine_of : Template → String
engine_of t =
    let engine = trim_space (to_lower t.engine) in if engine == "" then "go_template" else engine

abbrev pub channel_of : Template → String
channel_of t = trim_space (to_lower t.channel)

abbrev pub has_content : Template → Bool
has_content t = not (trim_space t.text == "" && trim_space t.html == "" && trim_space t.body == "")

unfoldable pub content_errors : String → Template → List String
content_errors id t =
    if equal_fold (channel_of t) "email" || equal_fold (trim_space t.kind) "email"
    then report (trim_space t.subject == "")
        ("email template " ∷ quote id ∷ " requires non-empty subject" ∷ [])
      ++ report (not (has_content t))
          ("email template " ∷ quote id ∷ " requires text/html/body content" ∷ [])
    else report (not (has_content t))
        ("template " ∷ quote id ∷ " requires at least one content field: text/html/body" ∷ [])

unfoldable pub engine_errors : String → Template → List String
engine_errors id t =
    report (not (is_supported_template_engine (engine_of t)))
      ("template " ∷ quote id ∷ " uses unsupported engine " ∷ quote t.engine ∷ [])
    ++ report (not (template_engine_compatible_with_channel (engine_of t) (channel_of t))) (
        "template "
        ∷ quote id
        ∷ " uses engine "
        ∷ quote (engine_of t)
        ∷ " incompatible with channel "
        ∷ quote (channel_of t)
        ∷ [])

unfoldable pub unused_errors : String → List String → List String → List String
unused_errors id used [] = []
unused_errors id used (v ∷ required) =
    report (not (is_template_var_used v used)) (
      "template "
      ∷ quote id
      ∷ " requiredVars contains "
      ∷ quote v
      ∷ " but template content does not reference it"
      ∷ [])
    ++ unused_errors id used required

-- the errors of a Go template, after `before`; none is a panic
unfoldable pub use_errors :
    String → List String → (before : List String) → Collected → Option (List String)
use_errors id required before Collected.panicked = none
use_errors id required before (Collected.unparsed err) =
    some (before ++ (concat ("template " ∷ quote id ∷ " parse error: " ∷ err ∷ []) ∷ []))
use_errors id required before (Collected.collected paths) =
    some (before ++ unused_errors id paths required)

abbrev pub contents_of : Template → List String
contents_of t =
    trim_space t.subject ∷ trim_space t.text ∷ trim_space t.html ∷ trim_space t.body ∷ []

-- `parse name text` is the parse of a template of that name with the option missingkey=zero.
module _ (parse : String → String → Parsed) (is_path : String → Bool) where
  -- `collectTemplateVarPaths`, from an index on
  unfoldable pub collect_template_var_paths : ℕ → List String → Collected
  collect_template_var_paths i [] = Collected.collected []
  collect_template_var_paths i (c ∷ contents) =
      let s = trim_space c in
      let rest = collect_template_var_paths (suc i) contents in
      if s == "" then rest else add_content (parse (concat ("template_" ∷ decimal i ∷ [])) s) rest

  -- the errors that do not depend on the contents' trees
  abbrev pub declared_errors : List String → String → Template → List String
  declared_errors seen id t =
      report (contains seen id) ("template " ∷ quote id ∷ " is duplicated" ∷ [])
      ++ engine_errors id t
      ++ content_errors id t
      ++ validate_template_var_lists is_path id (normalize_template_vars t.required_vars)
          (normalize_template_vars t.optional_vars)

  -- one round of the loop over the templates, for a template with an id
  unfoldable pub template_errors : List String → String → Template → Option (List String)
  template_errors seen id t =
      if equal_fold (engine_of t) "go_template"
      then use_errors id (normalize_template_vars t.required_vars) (declared_errors seen id t)
          (collect_template_var_paths 0 (contents_of t))
      else some (declared_errors seen id t)

  -- the loop over the templates
  unfoldable pub templates_errors : ℕ → List String → List Template → Option (List String)
  templates_errors i seen [] = some []
  templates_errors i seen (t ∷ templates) =
      let id = trim_space t.id in
      let unnamed = templates_errors (suc i) seen templates in
      let named = templates_errors (suc i) (id ∷ seen) templates in
      if id == ""
      then both (some (concat ("template[" ∷ decimal i ∷ "] has empty id" ∷ []) ∷ [])) unnamed
      else both (template_errors seen id t) named

  -- `validateTemplateCatalog`: the errors that it appends, or none if it panics
  unfoldable pub validate_template_catalog : List Template → Option (List String)
  validate_template_catalog templates = templates_errors 0 [] templates
