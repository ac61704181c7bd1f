-- ===== src/Convert/Repositories.antt =====
-- The conversion of repositories and their finders.
use ang.Common.{map}
use ang.Normalizer
use ang.Ir

unfoldable pub convert_where : Normalizer.FinderWhere → Ir.WhereClause
convert_where c = record { field = c.field; op = c.op; param = c.param; param_type = c.param_type }

-- a finder; its SumField is not carried over
unfoldable pub convert_finder : Normalizer.RepositoryFinder → Ir.Finder
convert_finder f = record {
  name = f.name;
  action = f.action;
  returns = f.returns;
  return_type = f.return_type;
  select = f.select;
  scan_fields = f.scan_fields;
  where_clauses = map convert_where f.where_clauses;
  order_by = f.order_by;
  limit = f.limit;
  for_update = f.for_update;
  custom_sql = f.custom_sql;
  source = f.source;
}

-- `ConvertRepository`
unfoldable pub convert_repository : Normalizer.Repository → Ir.Repository
convert_repository r = record {
  name = r.name;
  entity = r.entity;
  finders = map convert_finder r.finders;
  source = r.source;
}
