-- ===== src/Diagnostics/Report.antt =====
-- The warnings that are called for, one after the other, and the record as a loop over them.
use ang.Common.{
  ◌≡◌, refl, ap, sym, ◌∙◌, String, Bool, true, false, Option, none, some, List, [], ◌∷◌, ◌++◌, inl,
  inr, Bool-cases, if◌then◌else◌, is_empty,
}
use ang.Common.Int.{ℤ}
use ang.Text.{trim_space}
use ang.Normalizer.{Entity, Fsm}
use ang.Diagnostics.{
  Warning, Recorded, record_once, undefined_state, is_undefined, preview, state_set, check_target,
  check_targets, check_source, check_transitions, check_machine, check_entities,
}

abbrev pub warn_if : Bool → Warning → List Warning
warn_if b w = if b then w ∷ [] else []

-- the warnings that are called for, one for each state that is not defined where it is named
module _ (atoi : String → Option ℤ) where
  module _ (e : Entity) (states : List String) where
    unfoldable pub target_warnings : String → List String → List Warning
    target_warnings from [] = []
    target_warnings from (to ∷ targets) =
        warn_if (is_undefined states (trim_space to))
          (undefined_state atoi e from (trim_space to) (trim_space to) "target")
        ++ target_warnings from targets

    abbrev pub source_warnings : String → List String → List Warning
    source_warnings from targets =
        warn_if (is_undefined states (trim_space from))
          (undefined_state atoi e (trim_space from) (preview targets) (trim_space from) "source")

    unfoldable pub transition_warnings : List (String × List String) → List Warning
    transition_warnings [] = []
    transition_warnings ((from, targets) ∷ rest) =
        source_warnings from targets ++ (target_warnings from targets ++ transition_warnings rest)

  unfoldable pub machine_warnings : Entity → Option Fsm → List Warning
  machine_warnings e none = []
  machine_warnings e (some fsm) =
      let states = state_set fsm.states in
      if is_empty states then [] else transition_warnings e states fsm.transitions

  unfoldable pub entity_warnings : List Entity → List Warning
  entity_warnings [] = []
  entity_warnings (e ∷ es) = machine_warnings e e.fsm ++ entity_warnings es

unfoldable pub record_all : List Warning → Recorded → Recorded
record_all [] r = r
record_all (w ∷ ws) r = record_all ws (record_once w r)

record_all-append :
    (ws us : List Warning) (r : Recorded)
    → record_all (ws ++ us) r ≡ record_all us (record_all ws r)
unfolding record_all
record_all-append [] us r = refl
record_all-append (w ∷ ws) us r = record_all-append ws us (record_once w r)

record_all-warn_if :
    (b : Bool) (w : Warning) (r : Recorded)
    → record_all (warn_if b w) r ≡ (if b then record_once w r else r)
unfolding record_all
record_all-warn_if true w r = refl
record_all-warn_if false w r = refl

-- The loops record these warnings.
module _ (atoi : String → Option ℤ) where
  module _ (e : Entity) (states : List String) where
    targets_recorded :
        (from : String) (targets : List String) (r : Recorded)
        → check_targets atoi e states from targets r
          ≡ record_all (target_warnings atoi e states from targets) r
    unfolding check_targets target_warnings record_all
    targets_recorded from [] r = refl
    targets_recorded from (to ∷ targets) r =
        let state = trim_space to in
        let w = undefined_state atoi e from state state "target" in
        let one = record_all-warn_if (is_undefined states state) w r in
        let rest = target_warnings atoi e states from targets in
        targets_recorded from targets (check_target atoi e states from to r)
        ∙ ap (record_all rest) (sym one)
        ∙ sym (record_all-append (warn_if (is_undefined states state) w) rest r)

    transitions_recorded :
        (ts : List (String × List String)) (r : Recorded)
        → check_transitions atoi e states ts r ≡ record_all (transition_warnings atoi e states ts) r
    unfolding check_transitions transition_warnings record_all
    transitions_recorded [] r = refl
    transitions_recorded ((from, targets) ∷ rest) r =
        let source = source_warnings atoi e states from targets in
        let target = target_warnings atoi e states from targets in
        let more = transition_warnings atoi e states rest in
        let one = record_all-warn_if (is_undefined states (trim_space from)) _ r in
        transitions_recorded rest _
        ∙ ap (record_all more) (
            targets_recorded from targets (check_source atoi e states from targets r)
            ∙ ap (record_all target) (sym one))
        ∙ sym (record_all-append target more (record_all source r))
        ∙ sym (record_all-append source (target ++ more) r)

  machine_recorded :
      (e : Entity) (fsm : Option Fsm) (r : Recorded)
      → check_machine atoi e fsm r ≡ record_all (machine_warnings atoi e fsm) r
  unfolding check_machine machine_warnings record_all
  machine_recorded e none r = refl
  machine_recorded e (some fsm) r = elim (Bool-cases (is_empty (state_set fsm.states))) [
    | inl i ↦ rw i refl
    | inr n ↦ rw n (transitions_recorded e (state_set fsm.states) fsm.transitions r)
  ]

  pub entities_recorded :
      (es : List Entity) (r : Recorded)
      → check_entities atoi es r ≡ record_all (entity_warnings atoi es) r
  unfolding check_entities entity_warnings record_all
  entities_recorded [] r = refl
  entities_recorded (e ∷ es) r =
      entities_recorded es (check_machine atoi e e.fsm r)
      ∙ ap (record_all (entity_warnings atoi es)) (machine_recorded e e.fsm r)
      ∙ sym (record_all-append (machine_warnings atoi e e.fsm) (entity_warnings atoi es) r)
