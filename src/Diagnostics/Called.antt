-- ===== src/Diagnostics/Called.antt =====
-- Which warnings the transitions of a state machine call for, independently of the loops.
use mathlib.Core.List.Memᴰ
use mathlib.Core.Logic.{⊎_elim}
use ang.Common.{
  ◌≡◌, ◌↔◌, refl, ap, sym, subst, ◌∙◌, String, Bool, true, false, Option, none, some, List, [], ◌∷◌,
  ◌++◌, inl, inr, Bool-cases, is_empty, All, Memᴰ,
}
use ang.Common.Int.{ℤ}
use ang.Text.{trim_space, concat}
use ang.Normalizer.{Entity, Fsm}
use ang.Diagnostics.{
  Warning, zero_warning, parse_source_pos, state_set, is_undefined, preview, undefined_state,
}
use ang.Diagnostics.Report.{
  warn_if, target_warnings, source_warnings, transition_warnings, machine_warnings, entity_warnings,
}
use ang.Diagnostics.Names.{IsState, undefined_iff, no_state_iff}

-- the first of the targets, which is shown beside a source
abbrev pub shown : List String → String
shown [] = ""
shown (to ∷ targets) = trim_space to

module _ (atoi : String → Option ℤ) where
  -- the error about a state, at the position of the entity
  abbrev pub about : Entity → (from to state end : String) → Warning
  about e from to state end = record zero_warning {
    kind = "architecture";
    code = "E_FSM_UNDEFINED_STATE";
    severity = "error";
    message = concat (
        "Entity '" ∷ e.name ∷ "' FSM transition '" ∷ from ∷ "→" ∷ to
        ∷ "' references undefined state '" ∷ state ∷ "'" ∷ []);
    file = (parse_source_pos atoi e.source).0;
    line = (parse_source_pos atoi e.source).1;
    hint = concat ("Add '" ∷ state ∷ "' to fsm.states or update transition " ∷ end ∷ "." ∷ []);
  }

  -- A transition of the machine names something else than a state, as its source or as a target.
  pub data IsFault (e : Entity) (fsm : Fsm) : Warning → Type 0 where
    source :
        {from : String} {targets : List String}
        → Memᴰ (from, targets) fsm.transitions
        → (IsState fsm.states from → ⊥)
        → IsFault e fsm (about e (trim_space from) (shown targets) (trim_space from) "source")
    target :
        {from to : String} {targets : List String}
        → Memᴰ (from, targets) fsm.transitions
        → Memᴰ to targets
        → (IsState fsm.states to → ⊥)
        → IsFault e fsm (about e from (trim_space to) (trim_space to) "target")

  -- The warning is about a fault of the state machine of one of the entities, which has some state
  -- that is not blank.
  abbrev pub IsCalledFor : List Entity → Warning → Type 0
  IsCalledFor es w =
      (e : Entity) × (fsm : Fsm) × Memᴰ e es
      × (e.fsm ≡ some fsm)
      × (All (λ s. trim_space s ≡ "") fsm.states → ⊥)
      × IsFault e fsm w

  mem-warn_if : (b : Bool) (v : Warning) → b ≡ true → Memᴰ v (warn_if b v)
  mem-warn_if true v h = Memᴰ.head refl
  mem-warn_if false v h = cc h

  warn_if-mem : (b : Bool) (v : Warning) {w : Warning} → Memᴰ w (warn_if b v) → (b ≡ true) × (w ≡ v)
  warn_if-mem true v m = (refl, Memᴰ.eq_of_singleton m)
  warn_if-mem false v m = absurd (Memᴰ.not-nil m)

  shown-preview : (targets : List String) → preview targets ≡ shown targets
  unfolding preview
  shown-preview [] = refl
  shown-preview (to ∷ targets) = refl

  module _ (e : Entity) (fsm : Fsm) where
    abbrev states : List String
    states = state_set fsm.states

    mem-target_warnings :
        (from to : String) (targets : List String)
        → Memᴰ to targets
        → is_undefined states (trim_space to) ≡ true
        → Memᴰ
            (about e from (trim_space to) (trim_space to) "target")
            (target_warnings atoi e states from targets)
    unfolding target_warnings
    mem-target_warnings from to [] m h = absurd (Memᴰ.not-nil m)
    mem-target_warnings from to (t ∷ targets) m h =
        ⊎_elim
          (λ (same : to ≡ t).
            subst
              (λ x. Memᴰ (about e from (trim_space to) (trim_space to) "target") (
                warn_if (is_undefined states (trim_space x))
                  (undefined_state atoi e from (trim_space x) (trim_space x) "target")
                ++ target_warnings atoi e states from targets))
              same (Memᴰ.append_left _ (mem-warn_if _ _ h)))
          (λ later. Memᴰ.append_right (warn_if _ _) (mem-target_warnings from to targets later h))
          (Memᴰ.cases_cons m)

    target_warnings-mem :
        (from : String) (targets : List String) {w : Warning}
        → Memᴰ w (target_warnings atoi e states from targets)
        → (to : String) × Memᴰ to targets
          × (is_undefined states (trim_space to) ≡ true)
          × (w ≡ about e from (trim_space to) (trim_space to) "target")
    unfolding target_warnings
    target_warnings-mem from [] m = absurd (Memᴰ.not-nil m)
    target_warnings-mem from (t ∷ targets) m =
        ⊎_elim (λ here. let (b, same) = warn_if-mem _ _ here in (t, Memᴰ.head refl, b, same))
          (λ later.
            let (to, there, b, same) = target_warnings-mem from targets later in
            (to, Memᴰ.tail there, b, same))
          (Memᴰ.append_cases (warn_if _ _) m)

    -- the transitions from these on are among those of the machine
    transition_warnings-mem :
        (ts : List (String × List String)) {w : Warning}
        → ((t : String × List String) → Memᴰ t ts → Memᴰ t fsm.transitions)
        → Memᴰ w (transition_warnings atoi e states ts)
        → IsFault e fsm w
    unfolding transition_warnings
    transition_warnings-mem [] sub m = absurd (Memᴰ.not-nil m)
    transition_warnings-mem ((from, targets) ∷ rest) sub m =
        let here = sub (from, targets) (Memᴰ.head refl) in
        ⊎_elim
          (λ in_source.
            let (b, same) = warn_if-mem _ _ in_source in
            subst (IsFault e fsm)
              (ap (λ p. about e (trim_space from) p (trim_space from) "source")
                  (sym (shown-preview targets))
                ∙ sym same)
              (IsFault.source here ((undefined_iff fsm.states from).0 b)))
          (λ behind.
            ⊎_elim
              (λ in_target.
                let (to, there, b, same) = target_warnings-mem from targets in_target in
                subst (IsFault e fsm) (sym same)
                  (IsFault.target here there ((undefined_iff fsm.states to).0 b)))
              (λ later. transition_warnings-mem rest (λ t n. sub t (Memᴰ.tail n)) later)
              (Memᴰ.append_cases (target_warnings atoi e states from targets) behind))
          (Memᴰ.append_cases (source_warnings atoi e states from targets) m)

    mem-transition_warnings :
        (t : String × List String) (ts : List (String × List String)) {w : Warning}
        → Memᴰ t ts
        → Memᴰ w (source_warnings atoi e states t.0 t.1 ++ target_warnings atoi e states t.0 t.1)
        → Memᴰ w (transition_warnings atoi e states ts)
    unfolding transition_warnings
    mem-transition_warnings t [] m h = absurd (Memᴰ.not-nil m)
    mem-transition_warnings t ((from, targets) ∷ rest) {w} m h =
        ⊎_elim
          (λ (same : t ≡ (from, targets)).
            let h' =
              subst
                (λ (x : String × List String).
                  Memᴰ w (
                    source_warnings atoi e states x.0 x.1 ++ target_warnings atoi e states x.0 x.1))
                same h in
            ⊎_elim (λ a. Memᴰ.append_left _ a)
              (λ b.
                Memᴰ.append_right (source_warnings atoi e states from targets)
                  (Memᴰ.append_left _ b))
              (Memᴰ.append_cases (source_warnings atoi e states from targets) h'))
          (λ later. Memᴰ.append_right (source_warnings atoi e states from targets) (
            Memᴰ.append_right (target_warnings atoi e states from targets)
              (mem-transition_warnings t rest later h)))
          (Memᴰ.cases_cons m)

    IsFault-mem :
        {w : Warning} → IsFault e fsm w → Memᴰ w (transition_warnings atoi e states fsm.transitions)
    IsFault-mem (IsFault.source {from} {targets} m n) =
        mem-transition_warnings (from, targets) fsm.transitions m
          (Memᴰ.append_left _ (
            subst
              (λ p.
                Memᴰ (about e (trim_space from) p (trim_space from) "source")
                  (source_warnings atoi e states from targets))
              (shown-preview targets) (mem-warn_if _ _ ((undefined_iff fsm.states from).1 n))))
    IsFault-mem (IsFault.target {from} {to} {targets} m k n) =
        mem-transition_warnings (from, targets) fsm.transitions m
          (Memᴰ.append_right (source_warnings atoi e states from targets)
            (mem-target_warnings from to targets k ((undefined_iff fsm.states to).1 n)))

  machine_warnings-mem :
      (e : Entity) (o : Option Fsm) {w : Warning}
      → Memᴰ w (machine_warnings atoi e o)
      → (fsm : Fsm) × (o ≡ some fsm)
        × (All (λ s. trim_space s ≡ "") fsm.states → ⊥)
        × IsFault e fsm w
  unfolding machine_warnings
  machine_warnings-mem e none m = absurd (Memᴰ.not-nil m)
  machine_warnings-mem e (some fsm) {w} m = elim (Bool-cases (is_empty (state_set fsm.states))) [
    | inl i ↦ absurd (Memᴰ.not-nil (rw i at m))
    | inr n ↦ (
      fsm,
      refl,
      λ h. cc (n, (no_state_iff fsm.states).1 h),
      transition_warnings-mem e fsm fsm.transitions (λ t k. k) (rw n at m),
    )
  ]

  mem-machine_warnings :
      (e : Entity) (fsm : Fsm) (o : Option Fsm) {w : Warning}
      → o ≡ some fsm
      → (All (λ s. trim_space s ≡ "") fsm.states → ⊥)
      → IsFault e fsm w
      → Memᴰ w (machine_warnings atoi e o)
  unfolding machine_warnings
  mem-machine_warnings e fsm o {w} same named f =
      subst (λ x. Memᴰ w (machine_warnings atoi e x)) (sym same)
        (elim (Bool-cases (is_empty (state_set fsm.states))) [
          | inl i ↦ absurd (named ((no_state_iff fsm.states).0 i))
          | inr n ↦ rw n (IsFault-mem e fsm f)
        ])

  -- The loops call for these warnings.
  pub mem-entity_warnings_iff :
      (es : List Entity) (w : Warning) → Memᴰ w (entity_warnings atoi es) ↔ IsCalledFor es w
  unfolding entity_warnings
  mem-entity_warnings_iff [] w = (λ m. absurd (Memᴰ.not-nil m), λ h. absurd (Memᴰ.not-nil h.2))
  mem-entity_warnings_iff (e ∷ es) w =
      let rest = mem-entity_warnings_iff es w in
      (
        λ m.
            ⊎_elim
              (λ here.
                let (fsm, at, n, f) = machine_warnings-mem e e.fsm here in
                (e, fsm, Memᴰ.head refl, at, n, f))
              (λ later. let (d, fsm, k, at, n, f) = rest.0 later in (d, fsm, Memᴰ.tail k, at, n, f))
              (Memᴰ.append_cases (machine_warnings atoi e e.fsm) m),
        λ (d, fsm, k, at, n, f).
            ⊎_elim
              (λ (same : d ≡ e). Memᴰ.append_left _ (
                subst (λ x. Memᴰ w (machine_warnings atoi x x.fsm)) same
                  (mem-machine_warnings d fsm d.fsm at n f)))
              (λ later.
                Memᴰ.append_right (machine_warnings atoi e e.fsm)
                  (rest.1 (d, fsm, later, at, n, f)))
              (Memᴰ.cases_cons k),
      )
