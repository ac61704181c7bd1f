-- ===== src/Ir/Entities.antt =====
-- Entities, events and errors.
use ang.Common.{String, Bool, false, Option, none, List, []}
use ang.Common.Int.{ℤ, pos}
use ang.Values.{Metadata}
use ang.Ir.Fields.{Field}

pub record CrudConfig : Type 0 where
  pub enabled : Bool
  pub custom : Bool
  pub views : List (String × Bool)
  pub perms : List (String × String)

abbrev pub zero_crud_config : CrudConfig
zero_crud_config = record { enabled = false; custom = false; views = []; perms = [] }

pub record EntityUi : Type 0 where
  pub crud : Option CrudConfig

abbrev pub zero_entity_ui : EntityUi
zero_entity_ui = record { crud = none }

pub record Fsm : Type 0 where
  pub field : String
  pub states : List String
  pub transitions : List (String × List String)

abbrev pub zero_fsm : Fsm
zero_fsm = record { field = ""; states = []; transitions = [] }

pub record Index : Type 0 where
  pub fields : List String
  pub unique : Bool
  pub name : String

abbrev pub zero_index : Index
zero_index = record { fields = []; unique = false; name = "" }

pub record Entity : Type 0 where
  pub name : String
  pub description : String
  pub owner : String
  pub fields : List Field
  pub fsm : Option Fsm
  pub indexes : List Index
  pub ui : EntityUi
  pub metadata : Metadata
  pub source : String

abbrev pub zero_entity : Entity
zero_entity = record {
  name = "";
  description = "";
  owner = "";
  fields = [];
  fsm = none;
  indexes = [];
  ui = zero_entity_ui;
  metadata = none;
  source = "";
}

pub record Event : Type 0 where
  pub name : String
  pub fields : List Field
  pub metadata : Metadata
  pub source : String

abbrev pub zero_event : Event
zero_event = record { name = ""; fields = []; metadata = none; source = "" }

pub record Error : Type 0 where
  pub name : String
  pub code : ℤ
  pub http_status : ℤ
  pub message : String
  pub source : String

abbrev pub zero_error : Error
zero_error = record { name = ""; code = pos 0; http_status = pos 0; message = ""; source = "" }
