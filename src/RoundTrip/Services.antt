-- ===== src/RoundTrip/Services.antt =====
-- Services, their methods and repositories there and back.
use ang.Common.{◌≡◌, Perm, refl, sym, ap, ◌∙◌, subst, some, List, [], ◌∷◌, map, All, All_trivial}
use ang.Normalizer.{FlowSteps, FinderWhere, RepositoryFinder, Repository, Entity, Source, Method}
use ang.Ir
use ang.Convert.{
  convert_source, convert_flow_steps, convert_where, convert_finder, convert_repository,
  convert_entity,
}
use ang.Restore.{
  restore_source, restore_flow_steps, restore_where, restore_finder, restore_repository,
  entity_or_zero,
}
use ang.RoundTrip.Flows.{IsFlow, convert_flow_steps-restore_flow_steps}
use ang.RoundTrip.Entities.{IsEntity, restore_entity-convert_entity, map-map_fixed}

source : (s : Source) → s.filter ≡ [] → restore_source (convert_source s) ≡ s
unfolding restore_source convert_source
source s e = ap (λ f. record s { filter = f }) (sym e)

entity : (e : Entity) → IsEntity e → entity_or_zero (some (convert_entity e)) ≡ e
unfolding entity_or_zero
entity e h = restore_entity-convert_entity e h

-- The steps are written as the way back writes them.
abbrev pub IsWritten : FlowSteps → Type 0
IsWritten flow = (s : Ir.FlowSteps) × IsFlow s × (flow ≡ restore_flow_steps s)

flow : (f : FlowSteps) → IsWritten f → restore_flow_steps (convert_flow_steps f) ≡ f
flow f (s, h, e) =
    ap (λ t. restore_flow_steps (convert_flow_steps t)) e
    ∙ ap restore_flow_steps (convert_flow_steps-restore_flow_steps s h)
    ∙ sym e

-- A method that the way back can give again as it was.
pub record IsMethod (m : Method) : Type 0 where
  pub input : IsEntity m.input
  pub output : IsEntity m.output
  pub sources : All (λ (s : Source). s.filter ≡ []) m.sources
  pub flow : IsWritten m.flow
  pub attributes : m.attributes ≡ []

where_clauses : (cs : List FinderWhere) → map restore_where (map convert_where cs) ≡ cs
unfolding restore_where convert_where
where_clauses cs = map-map_fixed convert_where restore_where (λ c u. refl) cs (All_trivial cs)

-- the finder without the field to sum up
abbrev pub without_sum : RepositoryFinder → RepositoryFinder
without_sum f = record f { sum_field = "" }

finders :
    (fs : List RepositoryFinder) → map restore_finder (map convert_finder fs) ≡ map without_sum fs
unfolding restore_finder convert_finder
finders [] = refl
finders (f ∷ fs) = rw (where_clauses f.where_clauses, finders fs) refl

-- ConvertRepository and the way back keep a repository's name, entity and source, and give its
-- finders in an order that the sorting chooses, each without the field that it is to sum up and with
-- all else as it was.
pub restore_repository-convert_repository :
    (sort_by_name : List RepositoryFinder → List RepositoryFinder)
    → ((fs : List RepositoryFinder) → Perm (sort_by_name fs) fs)
    → (r : Repository)
    → let back = restore_repository sort_by_name (convert_repository r) in
      (back.name ≡ r.name)
      × ((back.entity ≡ r.entity)
          × ((back.source ≡ r.source) × Perm back.finders (map without_sum r.finders)))
unfolding restore_repository convert_repository
restore_repository-convert_repository sort_by_name permutes r = (
  refl,
  (
    refl,
    (
      refl,
      subst (λ fs. Perm (sort_by_name fs) (map without_sum r.finders)) (sym (finders r.finders))
          (permutes _),
    ),
  ),
)
