-- ===== src/Normalizer/Fields.antt =====
-- Fields and what is attached to them.
use ang.Common.{String, Bool, false, Option, none, List, []}
use ang.Common.Int.{ℤ, pos}
use ang.Values.{Float64, Metadata}

pub record FileMeta : Type 0 where
  pub kind : String
  pub thumbnail : Bool

abbrev pub zero_file_meta : FileMeta
zero_file_meta = record { kind = ""; thumbnail = false }

pub record DbMeta : Type 0 where
  pub type : String
  pub primary_key : Bool
  pub unique : Bool
  pub index : Bool

abbrev pub zero_db_meta : DbMeta
zero_db_meta = record { type = ""; primary_key = false; unique = false; index = false }

pub record Constraints : Type 0 where
  pub min : Option Float64
  pub max : Option Float64
  pub min_len : Option ℤ
  pub max_len : Option ℤ
  pub regex : String
  pub enum : List String

pub record UiHints : Type 0 where
  pub type : String
  pub importance : String
  pub input_kind : String
  pub intent : String
  pub density : String
  pub label_mode : String
  pub surface : String
  pub component : String
  pub section : String
  pub columns : ℤ
  pub label : String
  pub placeholder : String
  pub helper_text : String
  pub order : ℤ
  pub hidden : Bool
  pub disabled : Bool
  pub full_width : Bool
  pub rows : ℤ
  pub min : Option Float64
  pub max : Option Float64
  pub step : Option Float64
  pub currency : String
  pub source : String
  pub options : List String
  pub multiple : Bool
  pub accept : String
  pub max_size : ℤ

abbrev pub zero_ui_hints : UiHints
zero_ui_hints = record {
  type = "";
  importance = "";
  input_kind = "";
  intent = "";
  density = "";
  label_mode = "";
  surface = "";
  component = "";
  section = "";
  columns = pos 0;
  label = "";
  placeholder = "";
  helper_text = "";
  order = pos 0;
  hidden = false;
  disabled = false;
  full_width = false;
  rows = pos 0;
  min = none;
  max = none;
  step = none;
  currency = "";
  source = "";
  options = [];
  multiple = false;
  accept = "";
  max_size = pos 0;
}

pub record Field : Type 0 where
  pub name : String
  pub type : String
  pub default : String
  pub is_optional : Bool
  pub is_list : Bool
  pub file_meta : Option FileMeta
  pub db : DbMeta
  pub validate_tag : String
  pub constraints : Option Constraints
  pub env_var : String
  pub is_secret : Bool
  pub is_pii : Bool
  pub skip_domain : Bool
  pub item_type_name : String
  pub metadata : Metadata
  pub ui : Option UiHints
  pub source : String

abbrev pub zero_field : Field
zero_field = record {
  name = "";
  type = "";
  default = "";
  is_optional = false;
  is_list = false;
  file_meta = none;
  db = zero_db_meta;
  validate_tag = "";
  constraints = none;
  env_var = "";
  is_secret = false;
  is_pii = false;
  skip_domain = false;
  item_type_name = "";
  metadata = none;
  ui = none;
  source = "";
}
