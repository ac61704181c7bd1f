-- ===== src/Normalizer/Settings.antt =====
-- The settings of a project: its configuration, authentication, roles, schedules and views.
use ang.Common.{String, Bool, List}
use ang.Normalizer.Fields.{Field}

pub record ConfigDef : Type 0 where
  pub fields : List Field

pub record AuthDef : Type 0 where
  pub alg : String
  pub issuer : String
  pub audience : String
  pub user_id_claim : String
  pub company_id_claim : String
  pub roles_claim : String
  pub permissions_claim : String
  pub access_ttl : String
  pub refresh_ttl : String
  pub rotation : Bool
  pub refresh_store : String
  pub service : String
  pub login_op : String
  pub login_access_field : String
  pub login_refresh_field : String
  pub refresh_op : String
  pub refresh_token_field : String
  pub refresh_access_field : String
  pub refresh_refresh_field : String
  pub logout_op : String
  pub logout_token_field : String

pub record RbacDef : Type 0 where
  pub roles : List (String × List String)
  pub permissions : List (String × String)

pub record SchedulePayloadField : Type 0 where
  pub name : String
  pub type : String
  pub value : String

pub record ScheduleDef : Type 0 where
  pub name : String
  pub service : String
  pub action : String
  pub at : String
  pub publish : String
  pub every : String
  pub payload : List SchedulePayloadField

pub record ViewDef : Type 0 where
  pub name : String
  pub roles : List (String × List String)

pub record ProjectDef : Type 0 where
  pub name : String
  pub version : String
