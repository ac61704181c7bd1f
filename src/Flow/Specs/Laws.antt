-- ===== src/Flow/Specs/Laws.antt =====
-- What holds of each entry of the table of contracts.
use ang.Common.{
  String, true, false, Option, none, some, List, [], ◌∷◌, ◌==◌, ◌≡◌, refl, arith, lookup,
  AllEntries, lookup-AllEntries,
}
use ang.Flow.{Value, Step, Issue, rules}
use ang.Flow.Specs.{
  Spec, specs, check_upsert, check_switch, check_set, check_enrich, check_field, check_fields,
  check_patch_value, check_patch,
}

-- An issue as CustomConstraints returns it: no severity yet, and a code of its own.
abbrev pub IsRaw : Option Issue → Type 0
IsRaw none = Unit
IsRaw (some x) = (x.severity ≡ "") × ((x.code == "TX_REQUIRED") ≡ false)

abbrev pub RawConstraints : Option (Step → Option Issue) → Type 0
RawConstraints none = Unit
RawConstraints (some check) = (s : Step) → IsRaw (check s)

pub record IsLawful (name : String) (spec : Spec) : Type 0 where
  pub tx : spec.requires_tx ≡ true → (name == "repo.GetForUpdate") ≡ true
  pub raw : RawConstraints spec.custom_constraints

check_upsert-IsRaw : (s : Step) → IsRaw (check_upsert s)
unfolding check_upsert
check_upsert-IsRaw s = ground arith

check_switch-IsRaw : (s : Step) → IsRaw (check_switch s)
unfolding check_switch
check_switch-IsRaw s = ground arith

check_set-IsRaw : (v : String) → IsRaw (check_set v)
unfolding check_set
check_set-IsRaw v = ground arith

check_enrich-IsRaw : (s : Step) → IsRaw (check_enrich s)
unfolding check_enrich
check_enrich-IsRaw s = check_set-IsRaw _

check_field-IsRaw : (name : String) (m : List (String × String)) → IsRaw (check_field name m)
unfolding check_field
check_field-IsRaw name m = ground arith

check_fields-IsRaw : (m : List (String × List (String × String))) → IsRaw (check_fields m)
unfolding check_fields
check_fields-IsRaw [] = tt
check_fields-IsRaw ((name, m) ∷ fields) =
    ground (arith, check_field-IsRaw name m, check_fields-IsRaw fields)

check_patch_value-IsRaw : (v : Option Value) → IsRaw (check_patch_value v)
unfolding check_patch_value
check_patch_value-IsRaw (some (rules [])) = (refl, refl)
check_patch_value-IsRaw (some (rules (f ∷ fields))) = check_fields-IsRaw (f ∷ fields)
check_patch_value-IsRaw v = (refl, refl)

check_patch-IsRaw : (s : Step) → IsRaw (check_patch s)
unfolding check_patch
check_patch-IsRaw s = check_patch_value-IsRaw _

specs-IsLawful : AllEntries IsLawful specs
unfolding specs
specs-IsLawful = (
  record { tx = λ e. cc; raw = tt },
  (
    record { tx = λ e. cc; raw = tt },
    (
      record { tx = λ e. cc; raw = tt },
      (
        record { tx = λ e. refl; raw = tt },
        (
          record { tx = λ e. cc; raw = tt },
          (
            record { tx = λ e. cc; raw = check_upsert-IsRaw },
            (
              record { tx = λ e. cc; raw = tt },
              (
                record { tx = λ e. cc; raw = check_switch-IsRaw },
                (
                  record { tx = λ e. cc; raw = tt },
                  (
                    record { tx = λ e. cc; raw = tt },
                    (
                      record { tx = λ e. cc; raw = tt },
                      (
                        record { tx = λ e. cc; raw = tt },
                        (
                          record { tx = λ e. cc; raw = tt },
                          (
                            record { tx = λ e. cc; raw = tt },
                            (
                              record { tx = λ e. cc; raw = check_enrich-IsRaw },
                              (
                                record { tx = λ e. cc; raw = tt },
                                (
                                  record { tx = λ e. cc; raw = tt },
                                  (
                                    record { tx = λ e. cc; raw = tt },
                                    (
                                      record { tx = λ e. cc; raw = tt },
                                      (
                                        record { tx = λ e. cc; raw = tt },
                                        (
                                          record { tx = λ e. cc; raw = tt },
                                          (
                                            record { tx = λ e. cc; raw = tt },
                                            (
                                              record { tx = λ e. cc; raw = tt },
                                              (
                                                record { tx = λ e. cc; raw = tt },
                                                (
                                                  record { tx = λ e. cc; raw = tt },
                                                  (
                                                    record {
                                                      tx = λ e. cc;
                                                      raw = check_patch-IsRaw;
                                                    },
                                                    (
                                                      record { tx = λ e. cc; raw = tt },
                                                      (record { tx = λ e. cc; raw = tt }, tt),
                                                    ),
                                                  ),
                                                ),
                                              ),
                                            ),
                                          ),
                                        ),
                                      ),
                                    ),
                                  ),
                                ),
                              ),
                            ),
                          ),
                        ),
                      ),
                    ),
                  ),
                ),
              ),
            ),
          ),
        ),
      ),
    ),
  ),
)

-- The contract of an action asks for a transaction only if the action is `repo.GetForUpdate`, and
-- its constraints leave the severity to the walk.
pub lookup-specs-IsLawful :
    (a : String) {spec : Spec} → lookup a specs ≡ some spec → IsLawful a spec
lookup-specs-IsLawful a e = lookup-AllEntries IsLawful a specs specs-IsLawful e
