-- ===== src/Normalizer/Methods.antt =====
-- Services, their methods and the steps of a flow.
use ang.Common.{String, Bool, false, Option, none, List, []}
use ang.Common.Int.{ℤ, pos}
use ang.Values.{Json, Metadata}
use ang.Normalizer.Entities.{Entity, zero_entity}

pub record Attribute : Type 0 where
  pub name : String
  pub args : List (String × Json)

abbrev pub zero_attribute : Attribute
zero_attribute = record { name = ""; args = [] }

-- A step, with Args a `map[string]any` that holds the nested steps too.
mutual
  pub data FlowStep : Type 0 where
    flow_step :
        (action : String)
        → (params : List String) → (args : FlowArgs) → (metadata : Metadata)
        → (attributes : List Attribute) → (file : String) → (line column : ℤ) → (cue_path : String)
        → FlowStep

  pub data FlowSteps : Type 0 where
    nil : FlowSteps
    cons : FlowStep → FlowSteps → FlowSteps

  pub data FlowArgs : Type 0 where
    end : FlowArgs
    arg : (key : String) → FlowValue → FlowArgs → FlowArgs

  pub data FlowValue : Type 0 where
    plain : Json → FlowValue
    steps : FlowSteps → FlowValue
    cases : FlowCases → FlowValue

  pub data FlowCases : Type 0 where
    done : FlowCases
    branch : (label : String) → FlowSteps → FlowCases → FlowCases

pub record MethodImpl : Type 0 where
  pub lang : String
  pub code : String
  pub imports : List String
  pub requires_tx : Bool

abbrev pub zero_method_impl : MethodImpl
zero_method_impl = record { lang = ""; code = ""; imports = []; requires_tx = false }

pub record Source : Type 0 where
  pub name : String
  pub kind : String
  pub entity : String
  pub collection : String
  pub by : List (String × String)
  pub filter : List (String × String)
  pub metadata : Metadata

abbrev pub zero_source : Source
zero_source = record {
  name = "";
  kind = "";
  entity = "";
  collection = "";
  by = [];
  filter = [];
  metadata = none;
}

pub record PaginationDef : Type 0 where
  pub type : String
  pub default_limit : ℤ
  pub max_limit : ℤ

abbrev pub zero_pagination_def : PaginationDef
zero_pagination_def = record { type = ""; default_limit = pos 0; max_limit = pos 0 }

pub record Method : Type 0 where
  pub name : String
  pub description : String
  pub input : Entity
  pub output : Entity
  pub sources : List Source
  pub cache_ttl : String
  pub cache_tags : List String
  pub throws : List String
  pub publishes : List String
  pub broadcasts : List String
  pub pagination : Option PaginationDef
  pub idempotency : Bool
  pub dedupe_key : String
  pub outbox : Bool
  pub impl : Option MethodImpl
  pub flow : FlowSteps
  pub attributes : List Attribute
  pub metadata : Metadata
  pub source : String

abbrev pub zero_method : Method
zero_method = record {
  name = "";
  description = "";
  input = zero_entity;
  output = zero_entity;
  sources = [];
  cache_ttl = "";
  cache_tags = [];
  throws = [];
  publishes = [];
  broadcasts = [];
  pagination = none;
  idempotency = false;
  dedupe_key = "";
  outbox = false;
  impl = none;
  flow = nil;
  attributes = [];
  metadata = none;
  source = "";
}

pub record Service : Type 0 where
  pub name : String
  pub description : String
  pub methods : List Method
  pub publishes : List String
  pub subscribes : List (String × String)
  pub uses : List String
  pub metadata : Metadata
  pub source : String
  pub requires_sql : Bool
  pub requires_mongo : Bool
  pub requires_redis : Bool
  pub requires_nats : Bool
  pub requires_s3 : Bool

abbrev pub zero_service : Service
zero_service = record {
  name = "";
  description = "";
  methods = [];
  publishes = [];
  subscribes = [];
  uses = [];
  metadata = none;
  source = "";
  requires_sql = false;
  requires_mongo = false;
  requires_redis = false;
  requires_nats = false;
  requires_s3 = false;
}
