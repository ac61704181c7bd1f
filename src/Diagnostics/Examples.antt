-- ===== src/Diagnostics/Examples.antt =====
-- The warnings about a small state machine.
use ang.Common.{
  ◌≡◌, ◌↔◌, refl, String, true, Option, none, some, List, [], ◌∷◌, ◌==◌, map, All, Memᴰ,
  if◌then◌else◌,
}
use ang.Common.Int.{ℤ, pos}
use ang.Normalizer.{Entity, zero_entity}
use ang.Diagnostics.{Warning, parse_source_pos, emit_fsm_integrity_diagnostics}
use ang.Diagnostics.Called.{IsCalledFor}
use ang.Diagnostics.Once.{IsRecorded, AreApart, emit-records}
use ang.Diagnostics.States.{IsMachine, emit-nil_iff}

abbrev atoi : String → Option ℤ
atoi s = if s == "12" then some (pos 12) else none

abbrev order : Entity
order = record zero_entity {
  name = "Order";
  source = "cue/order.cue:12";
  fsm = some record {
    field = "state";
    states = "open" ∷ " done " ∷ [];
    transitions = ("open", "done" ∷ "gone" ∷ []) ∷ [];
  };
}

position : parse_source_pos atoi "cue/order.cue:12" ≡ ("cue/order.cue", pos 12)
unfolding ang.Diagnostics.position_of ang.Diagnostics.cut_last ang.Text.concat
position = refl

no_line : parse_source_pos atoi "order.cue:" ≡ ("order.cue:", pos 0)
unfolding ang.Diagnostics.position_of ang.Diagnostics.cut_last ang.Text.concat
no_line = refl

-- The same transition of two entities of one name and place is reported once.
messages :
    map (λ (w : Warning). w.message) (emit_fsm_integrity_diagnostics atoi (order ∷ order ∷ []))
    ≡ "Entity 'Order' FSM transition 'open→gone' references undefined state 'gone'" ∷ []
unfolding emit_fsm_integrity_diagnostics ang.Diagnostics.check_entities
    ang.Diagnostics.check_machine ang.Diagnostics.check_transitions ang.Diagnostics.check_targets
    ang.Diagnostics.state_set ang.Diagnostics.position_of ang.Diagnostics.cut_last
    ang.Diagnostics.itoa ang.Text.Numbers.decimal ang.Text.concat ang.Text.trim_space
    ang.Common.contains
messages = refl

emit-records_example :
    All (IsCalledFor atoi (order ∷ [])) (emit_fsm_integrity_diagnostics atoi (order ∷ []))
    × ((w : Warning)
        → IsCalledFor atoi (order ∷ []) w
        → IsRecorded (emit_fsm_integrity_diagnostics atoi (order ∷ [])) w)
    × AreApart (emit_fsm_integrity_diagnostics atoi (order ∷ []))
emit-records_example = emit-records atoi (order ∷ [])

emit-nil_iff_example :
    (emit_fsm_integrity_diagnostics atoi (order ∷ []) ≡ [])
    ↔ All (λ (e : Entity). IsMachine e.fsm) (order ∷ [])
emit-nil_iff_example = emit-nil_iff atoi (order ∷ [])
