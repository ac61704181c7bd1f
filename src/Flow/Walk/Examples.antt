-- ===== src/Flow/Walk/Examples.antt =====
-- Runs of the validation, and the theorems at concrete flows.
use ang.Common.{◌≡◌, refl, List, [], ◌∷◌, ◌↔◌, Memᴰ, suc, map, String, lookup}
use ang.Flow.{Step, Steps, Location, Issue, step, nil, cons, end, entry, text}
use ang.Text.{trim_space, split, has_prefix}
use ang.Flow.Specs.{
  specs, child, has_non_empty_string, is_known_prefix, check_enrich, check_set, text_or_empty,
}
use ang.Flow.Walk.{
  validate, walk, next_tx, step_issues, spec_issues, contract_issues, arg_issues, child_issues,
  tx_issues, custom_issues, tx_required, unknown_action,
}
use ang.Flow.Walk.Reports.{Origin, mem-validate_iff}
use ang.Flow.Walk.Contract.{IsValidFlow, validate-nil_iff}
use ang.Flow.Walk.Places.{IsAbout, validate-IsAbout}
use ang.Flow.Walk.Transactions.{Unguarded, tx_required_iff}

abbrev here : Location
here = record { file = "order.cue"; line = 3; column = 5; cue_path = "flow[0]" }

abbrev for_update : Step
for_update = step "repo.GetForUpdate" [] end here

abbrev bare : Steps
bare = cons for_update nil

abbrev guarded : Steps
guarded = cons (step "tx.Block" [] (entry "_do" bare end) here) nil

-- the codes that the validation reports
codes : Steps → List String
unfolding validate walk step_issues spec_issues contract_issues arg_issues child_issues tx_issues
    custom_issues tx_required lookup specs next_tx
codes flow = map (λ x. x.code) (validate flow)

codes-bare : codes bare ≡ "TX_REQUIRED" ∷ []
unfolding codes
codes-bare = refl

codes-guarded : codes guarded ≡ []
unfolding codes child
codes-guarded = refl

abbrev enrich : String → Steps
enrich set =
    cons
      (step "list.Enrich"
        (("items", text "xs")
          ∷ ("lookupSource", text "C")
          ∷ ("lookupInput", text "x.ID")
          ∷ ("set", text set)
          ∷ [])
        end here)
      nil

codes-enrich : codes (enrich "AuthorName = Name") ≡ "INVALID_SET_FORMAT" ∷ []
unfolding codes check_enrich check_set text_or_empty has_non_empty_string trim_space split
codes-enrich = refl

codes-unknown : codes (cons (step "foo.Bar" [] end here) nil) ≡ "UNKNOWN_ACTION" ∷ []
unfolding codes is_known_prefix unknown_action has_prefix
codes-unknown = refl

mem-validate_iff_example :
    Memᴰ (tx_required for_update 1) (validate bare) ↔ Origin bare (tx_required for_update 1)
mem-validate_iff_example = mem-validate_iff bare (tx_required for_update 1)

validate-nil_iff_example : (validate guarded ≡ []) ↔ IsValidFlow guarded
validate-nil_iff_example = validate-nil_iff guarded

reported : Memᴰ (tx_required for_update 1) (validate bare)
unfolding validate walk step_issues spec_issues contract_issues arg_issues child_issues tx_issues
    custom_issues lookup specs
reported = Memᴰ.head refl

validate-IsAbout_example :
    (o : Origin bare (tx_required for_update 1)) × IsAbout o.at_step
      (suc o.index)
      (tx_required for_update 1)
validate-IsAbout_example = validate-IsAbout bare (tx_required for_update 1) reported

tx_required_iff_example :
    ((x : Issue) × Memᴰ x (validate bare) × (x.code ≡ "TX_REQUIRED")) ↔ Unguarded bare
tx_required_iff_example = tx_required_iff bare
