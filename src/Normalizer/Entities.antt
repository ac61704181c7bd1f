-- ===== src/Normalizer/Entities.antt =====
-- Entities, events and errors.
use ang.Common.{String, Bool, false, Option, none, List, []}
use ang.Common.Int.{ℤ, pos}
use ang.Values.{Metadata}
use ang.Normalizer.Fields.{Field}

pub record CrudDef : Type 0 where
  pub enabled : Bool
  pub custom : Bool
  pub views : List (String × Bool)
  pub perms : List (String × String)

abbrev pub zero_crud_def : CrudDef
zero_crud_def = record { enabled = false; custom = false; views = []; perms = [] }

pub record EntityUiDef : Type 0 where
  pub crud : Option CrudDef

abbrev pub zero_entity_ui_def : EntityUiDef
zero_entity_ui_def = record { crud = none }

pub record Fsm : Type 0 where
  pub field : String
  pub states : List String
  pub transitions : List (String × List String)

abbrev pub zero_fsm : Fsm
zero_fsm = record { field = ""; states = []; transitions = [] }

pub record IndexDef : Type 0 where
  pub fields : List String
  pub unique : Bool

abbrev pub zero_index_def : IndexDef
zero_index_def = record { fields = []; unique = false }

pub record Entity : Type 0 where
  pub name : String
  pub description : String
  pub owner : String
  pub fields : List Field
  pub fsm : Option Fsm
  pub indexes : List IndexDef
  pub ui : Option EntityUiDef
  pub metadata : Metadata
  pub source : String

abbrev pub zero_entity : Entity
zero_entity = record {
  name = "";
  description = "";
  owner = "";
  fields = [];
  fsm = none;
  indexes = [];
  ui = none;
  metadata = none;
  source = "";
}

pub record EventDef : Type 0 where
  pub name : String
  pub fields : List Field
  pub metadata : Metadata
  pub source : String

abbrev pub zero_event_def : EventDef
zero_event_def = record { name = ""; fields = []; metadata = none; source = "" }

pub record ErrorDef : Type 0 where
  pub name : String
  pub code : ℤ
  pub http_status : ℤ
  pub message : String
  pub source : String

abbrev pub zero_error_def : ErrorDef
zero_error_def = record { name = ""; code = pos 0; http_status = pos 0; message = ""; source = "" }
