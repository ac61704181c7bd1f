-- ===== src/Normalizer/Repositories.antt =====
-- Repositories and their finders.
use ang.Common.{String, Bool, false, List, []}
use ang.Common.Int.{ℤ, pos}

pub record FinderWhere : Type 0 where
  pub field : String
  pub op : String
  pub param : String
  pub param_type : String

abbrev pub zero_finder_where : FinderWhere
zero_finder_where = record { field = ""; op = ""; param = ""; param_type = "" }

pub record RepositoryFinder : Type 0 where
  pub name : String
  pub action : String
  pub returns : String
  pub return_type : String
  pub select : List String
  pub scan_fields : List String
  pub where_clauses : List FinderWhere
  pub order_by : String
  pub limit : ℤ
  pub for_update : Bool
  pub custom_sql : String
  pub sum_field : String
  pub source : String

abbrev pub zero_repository_finder : RepositoryFinder
zero_repository_finder = record {
  name = "";
  action = "";
  returns = "";
  return_type = "";
  select = [];
  scan_fields = [];
  where_clauses = [];
  order_by = "";
  limit = pos 0;
  for_update = false;
  custom_sql = "";
  sum_field = "";
  source = "";
}

pub record Repository : Type 0 where
  pub name : String
  pub entity : String
  pub finders : List RepositoryFinder
  pub source : String

abbrev pub zero_repository : Repository
zero_repository = record { name = ""; entity = ""; finders = []; source = "" }
