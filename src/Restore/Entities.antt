-- ===== src/Restore/Entities.antt =====
-- The way back for entities, events and errors.
use ang.Common.{Option, none, some, List, map}
use ang.Normalizer
use ang.Ir
use ang.Restore.Fields.{restore_fields}

unfoldable pub restore_crud : Option Ir.CrudConfig → Option Normalizer.EntityUiDef
restore_crud none = none
restore_crud (some c) = some record {
  crud = some record { enabled = c.enabled; custom = c.custom; views = c.views; perms = c.perms };
}

unfoldable pub restore_fsm : Option Ir.Fsm → Option Normalizer.Fsm
restore_fsm none = none
restore_fsm (some f) =
    some record { field = f.field; states = f.states; transitions = f.transitions }

abbrev pub restore_index : Ir.Index → Normalizer.IndexDef
restore_index i = record { fields = i.fields; unique = i.unique }

-- `IREntityToNormalizer`
unfoldable pub restore_entity : Ir.Entity → Normalizer.Entity
restore_entity e = record {
  name = e.name;
  description = e.description;
  owner = e.owner;
  fields = restore_fields e.fields;
  fsm = restore_fsm e.fsm;
  indexes = map restore_index e.indexes;
  ui = restore_crud e.ui.crud;
  metadata = e.metadata;
  source = e.source;
}

-- the body of the loop of `IREventsToNormalizer`
unfoldable pub restore_event : Ir.Event → Normalizer.EventDef
restore_event e = record {
  name = e.name;
  fields = restore_fields e.fields;
  metadata = e.metadata;
  source = e.source;
}

-- the body of the loop of `IRErrorsToNormalizer`
unfoldable pub restore_error : Ir.Error → Normalizer.ErrorDef
restore_error e = record {
  name = e.name;
  code = e.code;
  http_status = e.http_status;
  message = e.message;
  source = e.source;
}

-- `IREntitiesToNormalizer`, with the sorting by name
abbrev pub restore_entities :
    (List Normalizer.Entity → List Normalizer.Entity) → List Ir.Entity → List Normalizer.Entity
restore_entities sort_by_name entities = sort_by_name (map restore_entity entities)
