-- ===== src/Flow/Walk/Transactions.antt =====
-- When a flow has an issue TX_REQUIRED.
use Prim.Native.String.{◌++◌}
use text.Mathlib.TextLemmas.{cons-append, head-eq_of_cons-eq}
use ang.Common.{
  ℕ, suc, String, Bool, true, false, Option, none, some, List, [], ◌∷◌, ◌≡◌, ◌≢◌, refl, Memᴰ, arith,
  lookup, All, All-append, All-mem, Option-cases, inl, inr, eq_iff, ◌↔◌, sym, ◌∙◌, ap,
}
use Prim.Native.Char.{Char, code}
use ang.Text.{concat, to_upper, trim_prefix}
use ang.Flow.{Step, Steps, Issue, action}
use ang.Flow.Specs.{Spec, specs}
use ang.Flow.Specs.Laws.{IsLawful, RawConstraints, IsRaw, lookup-specs-IsLawful}
use ang.Flow.Walk.{
  step_issues, spec_issues, contract_issues, arg_issues, child_issues, tx_issues, custom_issues,
  extra_issues, validate, missing_arg, missing_child, tx_required, unknown_action,
}
use ang.Flow.Walk.Visits.{step_at, Within, has_tx}
use ang.Flow.Walk.Reports.{mem-validate_iff}

concat-missing_ne : (s : String) → concat ("MISSING_" ∷ s ∷ []) ≢ "TX_REQUIRED"
unfolding concat
concat-missing_ne s e =
    let heads : ◌≡◌ {A = Char} "M" "T" =
      head-eq_of_cons-eq (sym (cons-append "M" "ISSING_" (s ++ "")) ∙ e) in
    absurd (omega (arith, ap code heads))

-- The issue asks for a transaction only if the step is a `repo.GetForUpdate` outside of any.
abbrev AsksRightly : Step → Bool → Issue → Type 0
AsksRightly s in_tx x = x.code ≡ "TX_REQUIRED" → (action s ≡ "repo.GetForUpdate") × (in_tx ≡ false)

module _ (s : Step) (idx : ℕ) (in_tx : Bool) where
  arg_issues-AsksRightly :
      (required : List String) → All (AsksRightly s in_tx) (arg_issues s idx required)
  unfolding arg_issues missing_arg
  arg_issues-AsksRightly [] = tt
  arg_issues-AsksRightly (arg ∷ required) =
      ground (arith, arg_issues-AsksRightly required, concat-missing_ne (to_upper arg))

  child_issues-AsksRightly :
      (required : List String) → All (AsksRightly s in_tx) (child_issues s idx required)
  unfolding child_issues missing_child
  child_issues-AsksRightly [] = tt
  child_issues-AsksRightly (key ∷ required) =
      ground (
        arith,
        child_issues-AsksRightly required,
        concat-missing_ne (to_upper (trim_prefix key "_")),
      )

  tx_issues-AsksRightly :
      (requires : Bool)
      → (requires ≡ true → action s ≡ "repo.GetForUpdate")
      → All (AsksRightly s in_tx) (tx_issues s idx requires in_tx)
  unfolding tx_issues
  tx_issues-AsksRightly requires law = ground arith

  extra_issues-AsksRightly :
      (o : Option Issue) → IsRaw o → All (AsksRightly s in_tx) (extra_issues s idx o)
  unfolding extra_issues
  extra_issues-AsksRightly none raw = tt
  extra_issues-AsksRightly (some x) raw = ground (arith, eq_iff x.code "TX_REQUIRED")

  custom_issues-AsksRightly :
      (check : Option (Step → Option Issue))
      → RawConstraints check
      → All (AsksRightly s in_tx) (custom_issues s idx check)
  unfolding custom_issues
  custom_issues-AsksRightly none raw = tt
  custom_issues-AsksRightly (some check) raw = extra_issues-AsksRightly (check s) (raw s)

  contract_issues-AsksRightly :
      (spec : Spec)
      → IsLawful (action s) spec
      → All (AsksRightly s in_tx) (contract_issues s idx in_tx spec)
  unfolding contract_issues
  contract_issues-AsksRightly spec law =
      let P = AsksRightly s in_tx in
      All-append P _ _ (arg_issues-AsksRightly spec.required_args) (
        All-append P _ _ (child_issues-AsksRightly spec.required_children) (
          All-append P _ _
            (tx_issues-AsksRightly spec.requires_tx
              (λ r. (eq_iff (action s) "repo.GetForUpdate").0 (law.tx r)))
            (custom_issues-AsksRightly spec.custom_constraints law.raw)))

  step_issues-AsksRightly : All (AsksRightly s in_tx) (step_issues s idx in_tx)
  unfolding step_issues spec_issues unknown_action
  step_issues-AsksRightly = elim (Option-cases (lookup (action s) specs)) [
    | inl e ↦ rw e (ground (arith, eq_iff "UNKNOWN_ACTION" "TX_REQUIRED"))
    | inr (spec, e) ↦ rw e (contract_issues-AsksRightly spec (lookup-specs-IsLawful (action s) e))
  ]

-- the contract of `repo.GetForUpdate`
for_update_issues :
    (s : Step) (idx : ℕ)
    → action s ≡ "repo.GetForUpdate"
    → step_issues s idx false ≡ tx_required s idx ∷ []
unfolding step_issues spec_issues contract_issues arg_issues child_issues tx_issues custom_issues
for_update_issues s idx e = rw e (unfold lookup specs in refl)

-- A step `repo.GetForUpdate` with no `tx.Block` above it.
pub record Unguarded (top : Steps) : Type 0 where
  pub items : Steps
  pub above : List String
  pub within : Within top items above
  pub index : ℕ
  pub at_step : Step
  pub stands : step_at items index ≡ some at_step
  pub for_update : action at_step ≡ "repo.GetForUpdate"
  pub outside : has_tx above ≡ false

-- A flow has an issue TX_REQUIRED exactly if some step `repo.GetForUpdate` of it, at any depth, has
-- no `tx.Block` above it.
pub tx_required_iff :
    (top : Steps) → ((x : Issue) × Memᴰ x (validate top) × (x.code ≡ "TX_REQUIRED")) ↔ Unguarded top
tx_required_iff top = (
  λ h.
      let o = (mem-validate_iff top h.0).0 h.1 in
      let law =
        All-mem (AsksRightly o.at_step (has_tx o.above)) _
          (step_issues-AsksRightly o.at_step (suc o.index) (has_tx o.above)) o.reported h.2 in
      record {
        items = o.items;
        above = o.above;
        within = o.within;
        index = o.index;
        at_step = o.at_step;
        stands = o.stands;
        for_update = law.0;
        outside = law.1;
      },
  λ u. (
    tx_required u.at_step (suc u.index),
    (mem-validate_iff top _).1 (record {
      items = u.items;
      above = u.above;
      within = u.within;
      index = u.index;
      at_step = u.at_step;
      stands = u.stands;
      reported =
          rw (u.outside, for_update_issues u.at_step (suc u.index) u.for_update) (Memᴰ.head refl);
    }),
    unfold tx_required in refl,
  ),
)
