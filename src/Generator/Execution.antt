-- ===== src/Generator/Execution.antt =====
-- What one execution of the steps does.
use mathlib.Core.List.{append_assoc, append-nil}
use ang.Common.{
  String, true, Option, none, some, List, [], ◌∷◌, ◌++◌, ◌≡◌, refl, ◌↔◌, arith, if◌then◌else◌, All,
  Bool-cases, inl, inr, ap, sym, ◌∙◌,
}
use ang.Capability.{CapabilitySet, TargetDef, has_all}
use ang.Generator.{
  Step, Output, Loggers, execute, skip_outputs, start_outputs, ok_outputs, error_outputs,
  step_error,
}

module _ (td : TargetDef) (set : CapabilitySet) (lg : Loggers) where
  -- The step is gated out, or its call of Run returns nil.
  abbrev pub Succeeds : Step → Type 0
  Succeeds step = has_all set step.requires ≡ true → step.run ≡ none

  -- what a step that does not fail sends to the loggers
  abbrev pub step_outputs : Step → List Output
  step_outputs step =
      if has_all set step.requires
      then start_outputs td set lg step ++ ok_outputs td set lg step
      else skip_outputs td set lg step

  abbrev pub all_outputs : List Step → List Output
  all_outputs [] = []
  all_outputs (step ∷ steps) = step_outputs step ++ all_outputs steps

  execute-cons :
      (step : Step) (steps : List Step)
      → Succeeds step
      → execute td set lg (step ∷ steps)
        ≡ (step_outputs step ++ (execute td set lg steps).0, (execute td set lg steps).1)
  unfolding execute
  execute-cons step steps ok = elim (Bool-cases (has_all set step.requires)) [
    | inl on ↦ rw (on, ok on, append_assoc)
    | inr off ↦ rw off
  ]

  pub execute-append :
      (pre post : List Step)
      → All Succeeds pre
      → execute td set lg (pre ++ post)
        ≡ (all_outputs pre ++ (execute td set lg post).0, (execute td set lg post).1)
  execute-append [] post ok = refl
  execute-append (step ∷ pre) post ok =
      rw (execute-cons step (pre ++ post) ok.0, execute-append pre post ok.1, append_assoc)

  execute_fails :
      (step : Step) (steps : List Step) {err : String}
      → has_all set step.requires ≡ true
      → step.run ≡ some err
      → execute td set lg (step ∷ steps) ≡ (
        start_outputs td set lg step ++ error_outputs td set lg step err,
        some (step_error td set lg step err),
      )
  unfolding execute
  execute_fails step steps on fails = rw (on, fails)

  -- The execution stops at the first step that has its capabilities and fails: the error names that
  -- step and the target, the loggers have heard of the steps before it and of it, each step that
  -- lacks a capability only as skipped, and the steps behind it have no effect.
  pub execute_stops :
      (pre : List Step) (step : Step) (post : List Step) {err : String}
      → All Succeeds pre
      → has_all set step.requires ≡ true
      → step.run ≡ some err
      → execute td set lg (pre ++ step ∷ post) ≡ (
        all_outputs pre ++ (start_outputs td set lg step ++ error_outputs td set lg step err),
        some (step_error td set lg step err),
      )
  execute_stops pre step post ok on fails =
      rw (execute-append pre (step ∷ post) ok, execute_fails step post on fails)

  execute_error_of_fails :
      (step : Step) (steps : List Step)
      → (execute td set lg (step ∷ steps)).1 ≡ none
      → Succeeds step × ((execute td set lg steps).1 ≡ none)
  unfolding execute
  execute_error_of_fails step steps h = ground arith

  execute-none : (steps : List Step) → (execute td set lg steps).1 ≡ none → All Succeeds steps
  execute-none [] h = tt
  execute-none (step ∷ steps) h =
      let (ok, rest) = execute_error_of_fails step steps h in (ok, execute-none steps rest)

  nothing_after :
      (steps : List Step)
      → ◌≡◌ {A = List Output × Option String}
          (all_outputs steps ++ (execute td set lg []).0, (execute td set lg []).1)
          (all_outputs steps, none)
  unfolding execute
  nothing_after steps = rw append-nil

  -- The execution returns nil exactly if every step that has its capabilities returns nil. Then the
  -- loggers hear of every step, in order: of those with start and ok, of the others as skipped.
  pub execute-none_iff :
      (steps : List Step)
      → (((execute td set lg steps).1 ≡ none) ↔ All Succeeds steps)
        × (All Succeeds steps → execute td set lg steps ≡ (all_outputs steps, none))
  execute-none_iff steps =
      let all_heard : All Succeeds steps → execute td set lg steps ≡ (all_outputs steps, none) =
        λ ok.
          ap (execute td set lg) (sym (append-nil steps))
          ∙ execute-append steps [] ok
          ∙ nothing_after steps in
      (
        (execute-none steps, λ ok. ap (λ (r : List Output × Option String). r.1) (all_heard ok)),
        all_heard,
      )
