-- ===== src/Restore/Repositories.antt =====
-- The way back for repositories and their finders.
use ang.Common.{List, map}
use ang.Normalizer
use ang.Ir

unfoldable pub restore_where : Ir.WhereClause → Normalizer.FinderWhere
restore_where c = record { field = c.field; op = c.op; param = c.param; param_type = c.param_type }

-- a finder
unfoldable pub restore_finder : Ir.Finder → Normalizer.RepositoryFinder
restore_finder f = record {
  name = f.name;
  action = f.action;
  returns = f.returns;
  return_type = f.return_type;
  select = f.select;
  scan_fields = f.scan_fields;
  where_clauses = map restore_where f.where_clauses;
  order_by = f.order_by;
  limit = f.limit;
  for_update = f.for_update;
  custom_sql = f.custom_sql;
  sum_field = "";
  source = f.source;
}

-- the body of the loop of `IRReposToNormalizer`, with the sorting of the finders
unfoldable pub restore_repository :
    (List Normalizer.RepositoryFinder → List Normalizer.RepositoryFinder)
    → Ir.Repository
    → Normalizer.Repository
restore_repository sort_by_name r = record {
  name = r.name;
  entity = r.entity;
  finders = sort_by_name (map restore_finder r.finders);
  source = r.source;
}
