-- ===== src/Ir/Fields.antt =====
-- Types and fields.
use ang.Common.{String, Bool, false, Option, none, List, []}
use ang.Common.Int.{ℤ, pos}
use ang.Values.{Float64, Json, Metadata}

-- TypeRef with its kind, name, item type and key type; the pointers to types may be nil
mutual
  pub data TypeRef : Type 0 where
    type_ref : (kind : String) → (name : String) → (item_type key_type : TypePointer) → TypeRef

  pub data TypePointer : Type 0 where
    nil : TypePointer
    to : TypeRef → TypePointer

abbrev pub zero_type : TypeRef
zero_type = type_ref "" "" TypePointer.nil TypePointer.nil

pub record Attribute : Type 0 where
  pub name : String
  pub args : List (String × Json)

pub record Constraints : Type 0 where
  pub min : Option Float64
  pub max : Option Float64
  pub min_len : Option ℤ
  pub max_len : Option ℤ
  pub regex : String
  pub enum : List String

pub record FieldUi : Type 0 where
  pub type : String
  pub importance : String
  pub input_kind : String
  pub intent : String
  pub density : String
  pub label_mode : String
  pub surface : String
  pub component : String
  pub section : String
  pub columns : ℤ
  pub label : String
  pub placeholder : String
  pub helper_text : String
  pub order : ℤ
  pub hidden : Bool
  pub disabled : Bool
  pub full_width : Bool
  pub rows : ℤ
  pub min : Option Float64
  pub max : Option Float64
  pub step : Option Float64
  pub currency : String
  pub source : String
  pub options : List String
  pub multiple : Bool
  pub accept : String
  pub max_size : ℤ

abbrev pub zero_field_ui : FieldUi
zero_field_ui = record {
  type = "";
  importance = "";
  input_kind = "";
  intent = "";
  density = "";
  label_mode = "";
  surface = "";
  component = "";
  section = "";
  columns = pos 0;
  label = "";
  placeholder = "";
  helper_text = "";
  order = pos 0;
  hidden = false;
  disabled = false;
  full_width = false;
  rows = pos 0;
  min = none;
  max = none;
  step = none;
  currency = "";
  source = "";
  options = [];
  multiple = false;
  accept = "";
  max_size = pos 0;
}

pub record Field : Type 0 where
  pub name : String
  pub type : TypeRef
  pub optional : Bool
  pub default : Json
  pub is_secret : Bool
  pub is_pii : Bool
  pub skip_domain : Bool
  pub validate_tag : String
  pub constraints : Option Constraints
  pub env_var : String
  pub attributes : List Attribute
  pub ui : FieldUi
  pub metadata : Metadata
  pub source : String

abbrev pub zero_field : Field
zero_field = record {
  name = "";
  type = zero_type;
  optional = false;
  default = Json.null;
  is_secret = false;
  is_pii = false;
  skip_domain = false;
  validate_tag = "";
  constraints = none;
  env_var = "";
  attributes = [];
  ui = zero_field_ui;
  metadata = none;
  source = "";
}
