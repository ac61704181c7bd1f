-- ===== src/Capability.antt =====
-- compiler/capabilities.go: what a generation target can do.
pub mod Matrix
mod Examples
use ang.Common.{
  String, Bool, true, false, not, ◌&&◌, ◌||◌, Option, none, some, List, [], ◌∷◌, ◌==◌,
  if◌then◌else◌, lookup, contains,
}
use ang.Text.{trim_space, to_lower, concat}

abbrev pub Capability : Type 0
Capability = String

abbrev pub http : Capability
http = "http"

abbrev pub sql_repo : Capability
sql_repo = "sql_repo"

abbrev pub ws : Capability
ws = "ws"

abbrev pub events : Capability
events = "events"

abbrev pub auth : Capability
auth = "auth"

abbrev pub profile_go_legacy : Capability
profile_go_legacy = "profile_go_legacy"

abbrev pub profile_python_fastapi : Capability
profile_python_fastapi = "profile_python_fastapi"

-- `map[Capability]bool`
abbrev pub CapabilitySet : Type 0
CapabilitySet = List (Capability × Bool)

is_on : Option Bool → Bool
is_on none = false
is_on (some b) = b

unfoldable pub has : CapabilitySet → Capability → Bool
unfolding is_on
has s cap = is_on (lookup cap s)

unfoldable pub has_all : CapabilitySet → List Capability → Bool
has_all s [] = true
has_all s (cap ∷ caps) = if not (has s cap) then false else has_all s caps

unfoldable pub missing : CapabilitySet → List Capability → List Capability
missing s [] = []
missing s (cap ∷ caps) = let out = missing s caps in if not (has s cap) then cap ∷ out else out

-- `caps[cap] = true` under a condition
abbrev pub set_if : Bool → Capability → CapabilitySet → CapabilitySet
set_if test cap caps = if test then (cap, true) ∷ caps else caps

-- normalizer.TargetDef, as far as the capabilities depend on it
pub record TargetDef : Type 0 where
  pub name : String
  pub lang : String
  pub framework : String
  pub db : String
  pub queue : String

pub data Resolved : Type 0 where
  caps : CapabilitySet → Resolved
  unsupported : String → Resolved

pub canonical : String → String
canonical s = to_lower (trim_space s)

pub frameworks : List String
frameworks =
    "chi" ∷ "echo" ∷ "fiber" ∷ "gin" ∷ "fastapi" ∷ "axum" ∷ "actix" ∷ "express" ∷ "fastify" ∷ []

-- the capabilities that do not depend on the profile
basic_capabilities : String → String → String → String → CapabilitySet
unfolding frameworks
basic_capabilities lang framework db queue =
    set_if (lang == "go" || lang == "python" && framework == "fastapi") auth (
      set_if (not (queue == "") && not (queue == "none")) events (
        set_if (lang == "go") ws (
          set_if (contains ("postgres" ∷ "mysql" ∷ "sqlite" ∷ []) db) sql_repo
            (set_if (contains frameworks framework) http []))))

with_profile : TargetDef → String → String → String → CapabilitySet → Resolved
with_profile td lang framework db set =
    if lang == "go"
    then caps ((profile_go_legacy, true) ∷ set)
    else if lang == "python" && framework == "fastapi" && db == "postgres"
    then caps ((profile_python_fastapi, true) ∷ set)
    else unsupported
        (concat ("unsupported target profile: " ∷ td.lang ∷ "/" ∷ td.framework ∷ "/" ∷ td.db ∷ []))

-- `ResolveTargetCapabilities`
unfoldable pub resolve_target_capabilities : TargetDef → Resolved
unfolding canonical basic_capabilities with_profile
resolve_target_capabilities td =
    let lang = canonical td.lang in
    let framework = canonical td.framework in
    let db = canonical td.db in
    let queue = canonical td.queue in
    with_profile td lang framework db (basic_capabilities lang framework db queue)
