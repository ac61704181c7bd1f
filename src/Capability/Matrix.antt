-- ===== src/Capability/Matrix.antt =====
-- What the capability matrix of a target says.
use ang.Common.{
  Bool, true, false, not, ◌&&◌, ◌||◌, List, [], ◌∷◌, ◌==◌, ◌≡◌, refl, ◌↔◌, arith, lookup, contains,
  Bool-cases, subst, ap, ◌∙◌, Memᴰ, inl, inr,
}
use mathlib.Core.List.Memᴰ
use mathlib.Core.Logic.{⊎_elim}
use ang.Text.{concat}
use ang.Capability.{
  CapabilitySet, Capability, TargetDef, Resolved, caps, unsupported, canonical, has, has_all,
  missing, resolve_target_capabilities, http, sql_repo, ws, events, auth, profile_go_legacy,
  profile_python_fastapi, frameworks,
}

missing-nil_iff :
    (s : CapabilitySet) (req : List Capability) → (missing s req ≡ []) ↔ (has_all s req ≡ true)
unfolding missing has_all
missing-nil_iff s [] = (λ _. refl, λ _. refl)
missing-nil_iff s (cap ∷ req) = ground (arith, missing-nil_iff s req)

mem-missing :
    (s : CapabilitySet) (req : List Capability) (cap : Capability)
    → Memᴰ cap (missing s req)
    → Memᴰ cap req × (has s cap ≡ false)
unfolding missing
mem-missing s [] cap m = absurd (Memᴰ.not-nil m)
mem-missing s (c ∷ req) cap m = elim (Bool-cases (has s c)) [
  | inl on ↦
      let rest = mem-missing s req cap (subst (λ l. Memᴰ cap l) (ground arith) m) in
      (Memᴰ.tail rest.0, rest.1)
  | inr off ↦
      let reported : Memᴰ cap (c ∷ missing s req) = subst (λ l. Memᴰ cap l) (ground arith) m in
      ⊎_elim (λ e. (Memᴰ.head e, ap (has s) e ∙ off))
        (λ r. let rest = mem-missing s req cap r in (Memᴰ.tail rest.0, rest.1))
        (Memᴰ.cases_cons reported)
]

missing-mem :
    (s : CapabilitySet) (req : List Capability) (cap : Capability)
    → Memᴰ cap req
    → has s cap ≡ false
    → Memᴰ cap (missing s req)
unfolding missing
missing-mem s [] cap m off = absurd (Memᴰ.not-nil m)
missing-mem s (c ∷ req) cap (Memᴰ.head e) off = rw (← e) (rw off (Memᴰ.head refl))
missing-mem s (c ∷ req) cap (Memᴰ.tail m) off = elim (Bool-cases (has s c)) [
  | inl on ↦ rw on (missing-mem s req cap m off)
  | inr o ↦ rw o (Memᴰ.tail (missing-mem s req cap m off))
]

-- `missing` lists exactly the required capabilities that the target lacks, and a step is gated out
-- exactly if it lists one.
missing_iff :
    (s : CapabilitySet) (req : List Capability)
    → ((has_all s req ≡ true) ↔ (missing s req ≡ []))
      × ((cap : Capability) → Memᴰ cap (missing s req) ↔ (Memᴰ cap req × (has s cap ≡ false)))
missing_iff s req = (
  ((missing-nil_iff s req).1, (missing-nil_iff s req).0),
  λ cap. (mem-missing s req cap, λ h. missing-mem s req cap h.0 h.1),
)

-- The profiles that the generators support: Go, and Python with FastAPI over Postgres.
abbrev pub is_supported : TargetDef → Bool
is_supported td =
    canonical td.lang == "go"
    || canonical td.lang == "python"
      && canonical td.framework == "fastapi"
      && canonical td.db == "postgres"

-- the capability of the profile that a supported target has
pub record HasMatrix (td : TargetDef) (set : CapabilitySet) : Type 0 where
  pub on_http : has set http ≡ contains frameworks (canonical td.framework)
  pub on_sql_repo :
      has set sql_repo ≡ contains ("postgres" ∷ "mysql" ∷ "sqlite" ∷ []) (canonical td.db)
  pub on_ws : has set ws ≡ (canonical td.lang == "go")
  pub on_events : has set events ≡ not (canonical td.queue == "" || canonical td.queue == "none")
  pub on_auth : has set auth ≡ true
  pub on_go : has set profile_go_legacy ≡ (canonical td.lang == "go")
  pub on_python : has set profile_python_fastapi ≡ not (canonical td.lang == "go")

-- What a result says of its target.
abbrev pub Describes : TargetDef → Resolved → Type 0
Describes td (caps set) = (is_supported td ≡ true) × HasMatrix td set
Describes td (unsupported message) =
    (is_supported td ≡ false)
    × (message
        ≡ concat ("unsupported target profile: " ∷ td.lang ∷ "/" ∷ td.framework ∷ "/" ∷ td.db ∷ []))

Describes-of_eq :
    (td : TargetDef) (r : Resolved) → resolve_target_capabilities td ≡ r → Describes td r
unfolding resolve_target_capabilities has lookup
Describes-of_eq td (caps set) h = ground arith
Describes-of_eq td (unsupported message) h = ground arith

-- A target gets capabilities exactly if its profile is supported, and then has each capability
-- exactly under its condition; any other target gets the error that names it.
pub resolve-Describes : (td : TargetDef) → Describes td (resolve_target_capabilities td)
resolve-Describes td = Describes-of_eq td (resolve_target_capabilities td) refl
