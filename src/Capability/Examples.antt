-- ===== src/Capability/Examples.antt =====
-- The theorems on capabilities at a concrete target.
use ang.Capability.{TargetDef, resolve_target_capabilities}
use ang.Capability.Matrix.{Describes, resolve-Describes}

abbrev flask : TargetDef
flask = record { name = "p"; lang = " Python "; framework = "flask"; db = "postgres"; queue = "" }

resolve-Describes_example : Describes flask (resolve_target_capabilities flask)
resolve-Describes_example = resolve-Describes flask
