-- ===== src/Ir/Settings.antt =====
-- The project and its settings, and the graph of dependencies.
use ang.Common.{String, Bool, List, []}
use ang.Ir.Fields.{Field}

pub record Target : Type 0 where
  pub lang : String
  pub framework : String
  pub db : String
  pub cache : String
  pub queue : String
  pub storage : String

abbrev pub zero_target : Target
zero_target = record { lang = ""; framework = ""; db = ""; cache = ""; queue = ""; storage = "" }

pub record Project : Type 0 where
  pub name : String
  pub version : String
  pub target : Target

abbrev pub zero_project : Project
zero_project = record { name = ""; version = ""; target = zero_target }

pub record Config : Type 0 where
  pub fields : List Field

abbrev pub zero_config : Config
zero_config = record { fields = [] }

pub record AuthClaims : Type 0 where
  pub user_id : String
  pub company_id : String
  pub roles : String
  pub permissions : String

pub record AuthOps : Type 0 where
  pub service : String
  pub login_op : String
  pub login_access_field : String
  pub login_refresh_field : String
  pub refresh_op : String
  pub refresh_token_field : String
  pub refresh_access_field : String
  pub refresh_refresh_field : String
  pub logout_op : String
  pub logout_token_field : String

pub record Auth : Type 0 where
  pub algorithm : String
  pub issuer : String
  pub audience : String
  pub access_ttl : String
  pub refresh_ttl : String
  pub rotation : Bool
  pub refresh_store : String
  pub claims : AuthClaims
  pub operations : AuthOps

pub record Rbac : Type 0 where
  pub roles : List (String × List String)
  pub permissions : List (String × String)

pub record Schedule : Type 0 where
  pub name : String
  pub service : String
  pub action : String
  pub at : String
  pub every : String
  pub publish : String
  pub payload : List Field

pub record View : Type 0 where
  pub name : String
  pub roles : List (String × List String)

pub record Node : Type 0 where
  pub id : String
  pub kind : String
  pub name : String

pub record Edge : Type 0 where
  pub from : String
  pub to : String
  pub type : String

pub record DependencyGraph : Type 0 where
  pub nodes : List Node
  pub edges : List Edge
