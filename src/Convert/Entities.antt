-- ===== src/Convert/Entities.antt =====
-- The conversion of entities, events and errors.
use ang.Common.{Option, none, some, map}
use ang.Normalizer
use ang.Ir
use ang.Convert.Fields.{convert_fields}

unfoldable pub convert_crud_def : Option Normalizer.CrudDef → Option Ir.CrudConfig
convert_crud_def none = none
convert_crud_def (some c) =
    some record { enabled = c.enabled; custom = c.custom; views = c.views; perms = c.perms }

unfoldable pub convert_crud : Option Normalizer.EntityUiDef → Option Ir.CrudConfig
convert_crud none = none
convert_crud (some ui) = convert_crud_def ui.crud

unfoldable pub convert_fsm : Option Normalizer.Fsm → Option Ir.Fsm
convert_fsm none = none
convert_fsm (some f) =
    some record { field = f.field; states = f.states; transitions = f.transitions }

abbrev pub convert_index : Normalizer.IndexDef → Ir.Index
convert_index i = record { fields = i.fields; unique = i.unique; name = "" }

-- `ConvertEntity`
unfoldable pub convert_entity : Normalizer.Entity → Ir.Entity
convert_entity e = record {
  name = e.name;
  description = e.description;
  owner = e.owner;
  fields = convert_fields e.fields;
  fsm = convert_fsm e.fsm;
  indexes = map convert_index e.indexes;
  ui = record { crud = convert_crud e.ui };
  metadata = e.metadata;
  source = e.source;
}

-- `ConvertEvent`
unfoldable pub convert_event : Normalizer.EventDef → Ir.Event
convert_event e = record {
  name = e.name;
  fields = convert_fields e.fields;
  metadata = e.metadata;
  source = e.source;
}

-- the errors, as `ConvertFromNormalizer` writes them
unfoldable pub convert_error : Normalizer.ErrorDef → Ir.Error
convert_error e = record {
  name = e.name;
  code = e.code;
  http_status = e.http_status;
  message = e.message;
  source = e.source;
}
