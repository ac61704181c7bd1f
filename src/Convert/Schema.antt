-- ===== src/Convert/Schema.antt =====
-- The conversion of a whole application, `ConvertFromNormalizer`, and its graph.
use ang.Common.{String, Option, none, some, List, [], ◌∷◌, ◌++◌, map}
use mathlib.Core.Option
use mathlib.Core.List.{flat_map}
use ang.Text.{concat}
use ang.Normalizer
use ang.Ir
use ang.Ir.{Schema, zero_schema, Node, Edge, DependencyGraph, zero_target}
use ang.Convert.Fields.{convert_fields}
use ang.Convert.Entities.{convert_entity, convert_event, convert_error}
use ang.Convert.Methods.{convert_service}
use ang.Convert.Endpoints.{convert_endpoint}
use ang.Convert.Repositories.{convert_repository}
use ang.Convert.Settings.{convert_auth_def, convert_rbac, convert_schedule, convert_view}

abbrev pub entity_id : String → String
entity_id name = concat ("cue://#" ∷ name ∷ [])

abbrev pub service_id : String → String
service_id name = concat ("svc://" ∷ name ∷ [])

abbrev pub method_id : String → String → String
method_id service method = concat ("method://" ∷ service ∷ "." ∷ method ∷ [])

abbrev pub entity_node : Ir.Entity → Node
entity_node e = record { id = entity_id e.name; kind = "entity"; name = e.name }

abbrev pub method_node : String → Ir.Method → Node
method_node service m = record { id = method_id service m.name; kind = "method"; name = m.name }

abbrev pub service_nodes : Ir.Service → List Node
service_nodes s =
    record { id = service_id s.name; kind = "service"; name = s.name }
    ∷ map (method_node s.name) s.methods

-- the edge to an entity, if there is one
unfoldable pub link_edge : String → String → Option Ir.Entity → List Edge
link_edge from type none = []
link_edge from type (some e) = record { from = from; to = entity_id e.name; type = type } ∷ []

abbrev pub method_edges : String → Ir.Method → List Edge
method_edges service m =
    let id = method_id service m.name in
    record { from = service_id service; to = id; type = "has" }
    ∷ (link_edge id "reads" m.input ++ link_edge id "writes" m.output)

abbrev pub service_edges : Ir.Service → List Edge
service_edges s = flat_map (method_edges s.name) s.methods

-- `BuildDependencyGraph`
unfoldable pub build_dependency_graph : Schema → DependencyGraph
build_dependency_graph s = record {
  nodes = map entity_node s.entities ++ flat_map service_nodes s.services;
  edges = flat_map service_edges s.services;
}

-- the arguments of `ConvertFromNormalizer`
pub record Application : Type 0 where
  pub entities : List Normalizer.Entity
  pub services : List Normalizer.Service
  pub events : List Normalizer.EventDef
  pub errors : List Normalizer.ErrorDef
  pub endpoints : List Normalizer.Endpoint
  pub repos : List Normalizer.Repository
  pub config : Normalizer.ConfigDef
  pub auth : Option Normalizer.AuthDef
  pub rbac : Option Normalizer.RbacDef
  pub schedules : List Normalizer.ScheduleDef
  pub views : List Normalizer.ViewDef
  pub project : Normalizer.ProjectDef

-- all but the graph
abbrev pub convert_application : Application → Schema
convert_application a = record zero_schema {
  ir_version = "2";
  project = record {
    name = a.project.name;
    version = a.project.version;
    target = record zero_target { lang = "go"; framework = "chi"; db = "postgres" };
  };
  metadata = some [];
  entities = map convert_entity a.entities;
  services = map convert_service a.services;
  events = map convert_event a.events;
  errors = map convert_error a.errors;
  endpoints = map convert_endpoint a.endpoints;
  repos = map convert_repository a.repos;
  config = record { fields = convert_fields a.config.fields };
  auth = Option.map convert_auth_def a.auth;
  rbac = Option.map convert_rbac a.rbac;
  schedules = map convert_schedule a.schedules;
  views = map convert_view a.views;
}

-- `ConvertFromNormalizer`
unfoldable pub convert_from_normalizer : Application → Schema
convert_from_normalizer a =
    let s = convert_application a in record s { graph = some (build_dependency_graph s) }
