-- ===== src/Versioning/Examples.antt =====
-- Upgrades of a small schema, and the theorems at it.
use ang.Common.{none, some, [], ◌∷◌, ◌≡◌, refl}
use ang.Ir.{Schema, zero_schema, zero_entity}
use ang.Versioning.{
  migrate_to_version, migrate_to_current, normalize_version, migrate_loop, finish, apply_step,
  first_from, ensure_map,
}

abbrev old : Schema
old = record zero_schema {
  ir_version = " 1";
  entities = record zero_entity { name = "User"; metadata = none } ∷ [];
  services = [];
  events = [];
  endpoints = [];
  repos = [];
  metadata = none;
}

abbrev new : Schema
new = record old {
  ir_version = "2";
  entities = record zero_entity { name = "User"; metadata = some [] } ∷ [];
  metadata = some [];
}

migrate-old : migrate_to_current (some old) ≡ record { err = none; schema = some new }
unfolding migrate_to_version normalize_version migrate_loop finish apply_step first_from ensure_map
    ang.Text.trim_space
migrate-old = refl

migrate-unknown : migrate_to_version (some (record old { ir_version = "7" })) "2" ≡ record {
  err = some "unsupported ir_version \"7\" (current=2)";
  schema = some (record old { ir_version = "7" });
}
unfolding migrate_to_version normalize_version ang.Text.trim_space ang.Text.concat ang.Text.quote
migrate-unknown = refl
