-- ===== src/Ir/Methods.antt =====
-- Services, their methods and the steps of a flow.
use ang.Common.{String, Bool, false, Option, none, List, []}
use ang.Common.Int.{ℤ, pos}
use ang.Values.{Metadata}
use ang.Normalizer.{FlowArgs}
use ang.Ir.Entities.{Entity}
use ang.Ir.Fields.{Attribute}

pub record Source : Type 0 where
  pub name : String
  pub kind : String
  pub entity : String
  pub collection : String
  pub query : List (String × String)
  pub metadata : Metadata

pub record Pagination : Type 0 where
  pub type : String
  pub default_limit : ℤ
  pub max_limit : ℤ

abbrev pub zero_pagination : Pagination
zero_pagination = record { type = ""; default_limit = pos 0; max_limit = pos 0 }

pub record Impl : Type 0 where
  pub lang : String
  pub code : String
  pub imports : List String
  pub requires_tx : Bool

abbrev pub zero_impl : Impl
zero_impl = record { lang = ""; code = ""; imports = []; requires_tx = false }

-- A step. Its Args hold values of type `any`, as those of the normalizer do.
mutual
  pub data FlowStep : Type 0 where
    flow_step :
        (action condition throw input output value : String)
        → (params : List String) → (args : FlowArgs)
        → (steps if_new if_exists then_steps else_steps : FlowSteps) → (cases : FlowCases)
        → (default_steps : FlowSteps) → (attributes : List Attribute) → FlowStep

  pub data FlowSteps : Type 0 where
    nil : FlowSteps
    cons : FlowStep → FlowSteps → FlowSteps

  pub data FlowCases : Type 0 where
    done : FlowCases
    branch : (label : String) → FlowSteps → FlowCases → FlowCases

pub record Method : Type 0 where
  pub name : String
  pub description : String
  pub input : Option Entity
  pub output : Option Entity
  pub sources : List Source
  pub cache_ttl : String
  pub cache_tags : List String
  pub throws : List String
  pub publishes : List String
  pub broadcasts : List String
  pub pagination : Option Pagination
  pub idempotent : Bool
  pub dedupe_key : String
  pub outbox : Bool
  pub impl : Option Impl
  pub flow : FlowSteps
  pub attributes : List Attribute
  pub metadata : Metadata
  pub source : String

abbrev pub zero_method : Method
zero_method = record {
  name = "";
  description = "";
  input = none;
  output = none;
  sources = [];
  cache_ttl = "";
  cache_tags = [];
  throws = [];
  publishes = [];
  broadcasts = [];
  pagination = none;
  idempotent = false;
  dedupe_key = "";
  outbox = false;
  impl = none;
  flow = FlowSteps.nil;
  attributes = [];
  metadata = none;
  source = "";
}

pub record Service : Type 0 where
  pub name : String
  pub description : String
  pub methods : List Method
  pub publishes : List String
  pub subscribes : List (String × String)
  pub uses : List String
  pub metadata : Metadata
  pub source : String
  pub requires_sql : Bool
  pub requires_mongo : Bool
  pub requires_redis : Bool
  pub requires_nats : Bool
  pub requires_s3 : Bool

abbrev pub zero_service : Service
zero_service = record {
  name = "";
  description = "";
  methods = [];
  publishes = [];
  subscribes = [];
  uses = [];
  metadata = none;
  source = "";
  requires_sql = false;
  requires_mongo = false;
  requires_redis = false;
  requires_nats = false;
  requires_s3 = false;
}
