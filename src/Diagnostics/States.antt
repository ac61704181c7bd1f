-- ===== src/Diagnostics/States.antt =====
-- When nothing is recorded about the state machines.
use ang.Common.{
  ◌≡◌, ◌↔◌, ◌⊎◌, refl, String, true, Option, none, some, List, [], ◌∷◌, ◌++◌, inl, inr, Bool-cases,
  contains, is_empty, All, Memᴰ, eq_iff, ◌==◌,
}
use mathlib.Core.List.Memᴰ
use ang.Common.Int.{ℤ}
use ang.Text.{trim_space}
use ang.Normalizer.{Entity, Fsm}
use ang.Diagnostics.{Warning, state_set, is_undefined, emit_fsm_integrity_diagnostics}
use ang.Diagnostics.Report.{
  warn_if, target_warnings, transition_warnings, machine_warnings, entity_warnings,
}
use ang.Diagnostics.Once.{emit-entity_warnings, has_key}
use ang.Diagnostics.Names.{IsState, state_set_iff, no_state_iff}

abbrev pub IsTransition : List String → String × List String → Type 0
IsTransition states t = IsState states t.0 × All (IsState states) t.1

-- Each state of the machine is blank, or it has each state that its transitions name.
abbrev pub IsMachine : Option Fsm → Type 0
IsMachine none = Unit
IsMachine (some fsm) =
    All (λ s. trim_space s ≡ "") fsm.states ⊎ All (IsTransition fsm.states) fsm.transitions

defined_iff :
    (states : List String) (name : String) (w : Warning)
    → (warn_if (is_undefined (state_set states) (trim_space name)) w ≡ []) ↔ IsState states name
defined_iff states name w = elim (Bool-cases (trim_space name == "")) [
  | inl blank ↦ rw blank (λ e. inl ((eq_iff (trim_space name) "").0 blank), λ h. refl)
  | inr n ↦ elim (Bool-cases (contains (state_set states) (trim_space name))) [
    | inl there ↦
        rw (n, there) (λ e. inr ((state_set_iff states (trim_space name) n).0 there), λ h. refl)
    | inr missing ↦
        rw (n, missing)
          (
            λ e. cc e,
            λ h. elim h [
              | inl b ↦ cc (n, (eq_iff (trim_space name) "").1 b)
              | inr c ↦ cc (missing, (state_set_iff states (trim_space name) n).1 c)
            ],
          )
  ]
]

append-nil_iff :
    {A B : Type 0} (xs ys : List Warning)
    → ((xs ≡ []) ↔ A)
    → ((ys ≡ []) ↔ B)
    → (xs ++ ys ≡ []) ↔ (A × B)
append-nil_iff [] ys f g = (λ e. (f.0 refl, g.0 e), λ p. g.1 p.1)
append-nil_iff (x ∷ xs) ys f g = (λ e. cc e, λ p. cc (f.1 p.0))

module _ (atoi : String → Option ℤ) where
  module _ (e : Entity) (states : List String) where
    targets_iff :
        (from : String) (targets : List String)
        → (target_warnings atoi e (state_set states) from targets ≡ [])
          ↔ All (IsState states) targets
    unfolding target_warnings
    targets_iff from [] = (λ q. tt, λ t. refl)
    targets_iff from (to ∷ targets) =
        append-nil_iff _ (target_warnings atoi e (state_set states) from targets)
          (defined_iff states to _) (targets_iff from targets)

    transitions_iff :
        (ts : List (String × List String))
        → (transition_warnings atoi e (state_set states) ts ≡ []) ↔ All (IsTransition states) ts
    unfolding transition_warnings
    transitions_iff [] = (λ q. tt, λ t. refl)
    transitions_iff ((from, targets) ∷ rest) =
        let more =
          append-nil_iff _ (transition_warnings atoi e (state_set states) rest)
            (targets_iff from targets) (transitions_iff rest) in
        let all = append-nil_iff _ _ (defined_iff states from _) more in
        (λ q. let h = all.0 q in ((h.0, h.1.0), h.1.1), λ h. all.1 (h.0.0, (h.0.1, h.1)))

  machine_warnings-nil_iff :
      (e : Entity) (fsm : Option Fsm) → (machine_warnings atoi e fsm ≡ []) ↔ IsMachine fsm
  unfolding machine_warnings
  machine_warnings-nil_iff e none = (λ q. tt, λ t. refl)
  machine_warnings-nil_iff e (some fsm) = elim (Bool-cases (is_empty (state_set fsm.states))) [
    | inl i ↦ rw i (λ q. inl ((no_state_iff fsm.states).0 i), λ h. refl)
    | inr n ↦
        let iff = transitions_iff e fsm.states fsm.transitions in
        rw n (
          λ q. inr (iff.0 q),
          λ h. elim h [ inl i ↦ cc (n, (no_state_iff fsm.states).1 i) | inr t ↦ iff.1 t ],
        )
  ]

  entities_iff :
      (es : List Entity) → (entity_warnings atoi es ≡ []) ↔ All (λ (e : Entity). IsMachine e.fsm) es
  unfolding entity_warnings
  entities_iff [] = (λ q. tt, λ t. refl)
  entities_iff (e ∷ es) =
      append-nil_iff _ (entity_warnings atoi es) (machine_warnings-nil_iff e e.fsm)
        (entities_iff es)

  same_nil :
      (ws ds : List Warning)
      → All (λ (w : Warning). Memᴰ w ws) ds
      → All (λ (w : Warning). has_key ds w ≡ true) ws
      → (ds ≡ []) ↔ (ws ≡ [])
  unfolding contains
  same_nil [] [] m h = (λ e. refl, λ e. refl)
  same_nil [] (d ∷ ds) m h = absurd (Memᴰ.not-nil m.0)
  same_nil (w ∷ ws) [] m h = cc (h.0)
  same_nil (w ∷ ws) (d ∷ ds) m h = (λ e. cc e, λ e. cc e)

  -- emitFSMIntegrityDiagnostics records nothing exactly if for each entity with a state machine, all
  -- states of the machine are blank, or each name in its transitions is blank or one of its states,
  -- all read without spaces around them.
  pub emit-nil_iff :
      (es : List Entity)
      → (emit_fsm_integrity_diagnostics atoi es ≡ []) ↔ All (λ (e : Entity). IsMachine e.fsm) es
  emit-nil_iff es =
      let r = emit-entity_warnings atoi es in
      let same =
        same_nil (entity_warnings atoi es) (emit_fsm_integrity_diagnostics atoi es) r.0 r.1 in
      let iff = entities_iff es in (λ q. iff.0 (same.0 q), λ h. same.1 (iff.1 h))
