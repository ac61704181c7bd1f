-- ===== src/Diagnostics.antt =====
-- compiler/pipeline.go, emitFSMIntegrityDiagnostics: the states that the transitions of an entity
-- name and its state machine does not have. What the pipeline records is the list of the warnings in
-- the order of the calls. strconv.Atoi is a parameter. The proofs are below.
mod Report
mod Names
mod Called
mod Once
mod States
mod Examples
use Prim.Native.Char.{code}
use ang.Common.{
  ℕ, suc, String, Bool, true, false, not, ◌&&◌, ◌||◌, Option, none, some, List, [], ◌∷◌, ◌++◌, ◌==◌,
  contains, is_empty, eqb, if◌then◌else◌,
}
use ang.Common.Int.{ℤ, pos, negsuc}
use ang.Text.{trim_space, concat}
use ang.Text.Numbers.{decimal}
use ang.Normalizer.{Entity, Fsm}

pub record Fix : Type 0 where
  pub kind : String
  pub file : String
  pub cue_path : String
  pub text : String
  pub rationale : String

pub record Warning : Type 0 where
  pub kind : String
  pub code : String
  pub severity : String
  pub message : String
  pub op : String
  pub step : ℤ
  pub action : String
  pub file : String
  pub line : ℤ
  pub column : ℤ
  pub cue_path : String
  pub hint : String
  pub docs_url : String
  pub can_auto_apply : Bool
  pub suggested_fix : List Fix

abbrev pub zero_warning : Warning
zero_warning = record {
  kind = "";
  code = "";
  severity = "";
  message = "";
  op = "";
  step = pos 0;
  action = "";
  file = "";
  line = pos 0;
  column = pos 0;
  cue_path = "";
  hint = "";
  docs_url = "";
  can_auto_apply = false;
  suggested_fix = [];
}

-- `strconv.Itoa`
unfoldable pub itoa : ℤ → String
itoa (pos n) = decimal n
itoa (negsuc n) = concat ("-" ∷ decimal (suc n) ∷ [])

-- one more character before the parts
unfoldable pub longer : String → Option (String × String) → Option (String × String)
longer c none = none
longer c (some (before, behind)) = some (concat (c ∷ before ∷ []), behind)

-- the parts around the last one, given those of the rest
unfoldable pub cut_here : Option (String × String) → Bool → String → Option (String × String)
cut_here (some parts) here rest = some parts
cut_here none true rest = some ("", rest)
cut_here none false rest = none

-- the parts before and behind the last character of this code, where `strings.LastIndex` finds it
unfoldable pub cut_last : String → ℕ → Option (String × String)
unfolding longer cut_here
cut_last String.[] c = none
cut_last (String.◌∷◌ d s) c = cut_here (longer (String.◌∷◌ d "") (cut_last s c)) (eqb (code d) c) s

unfoldable pub with_line : String → String → Option ℤ → String × ℤ
with_line source file none = (source, pos 0)
with_line source file (some n) = (file, n)

-- `parseSourcePos`, given the parts of the source around its last colon
unfoldable pub position_of : (String → Option ℤ) → String → Option (String × String) → String × ℤ
unfolding with_line
position_of atoi source none = (source, pos 0)
position_of atoi source (some (file, line)) =
    if file == "" || line == "" then (source, pos 0) else with_line source file (atoi line)

abbrev pub parse_source_pos : (String → Option ℤ) → String → String × ℤ
parse_source_pos atoi source = position_of atoi source (cut_last source b':')

-- the warning about a state, in the transition between these, with what to update
abbrev pub undefined_state : (String → Option ℤ) → Entity → (from to state end : String) → Warning
undefined_state atoi e from to state end =
    let (file, line) = parse_source_pos atoi e.source in
    record zero_warning {
      kind = "architecture";
      code = "E_FSM_UNDEFINED_STATE";
      severity = "error";
      message = concat (
          "Entity '" ∷ e.name ∷ "' FSM transition '" ∷ from ∷ "→" ∷ to
          ∷ "' references undefined state '" ∷ state ∷ "'" ∷ []);
      file = file;
      line = line;
      hint = concat ("Add '" ∷ state ∷ "' to fsm.states or update transition " ∷ end ∷ "." ∷ []);
    }

-- what tells the warnings of a run apart
abbrev pub key_of : Warning → String
key_of w = concat (w.code ∷ "|" ∷ w.message ∷ "|" ∷ w.file ∷ "|" ∷ itoa w.line ∷ [])

-- the variable `seen`, and what has been recorded
pub record Recorded : Type 0 where
  pub seen : List String
  pub warnings : List Warning

-- `if _, ok := seen[key]; !ok { ... }`
abbrev pub record_once : Warning → Recorded → Recorded
record_once w r =
    if contains r.seen (key_of w)
    then r
    else record { seen = key_of w ∷ r.seen; warnings = r.warnings ++ w ∷ [] }

-- `stateSet`
unfoldable pub state_set : List String → List String
state_set [] = []
state_set (s ∷ states) =
    let rest = state_set states in if trim_space s == "" then rest else trim_space s ∷ rest

-- the first of the targets, trimmed
unfoldable pub preview : List String → String
preview [] = ""
preview (to ∷ targets) = trim_space to

abbrev pub is_undefined : List String → String → Bool
is_undefined states state = not (state == "") && not (contains states state)

module _ (atoi : String → Option ℤ) (e : Entity) (states : List String) where
  abbrev pub check_target : String → String → Recorded → Recorded
  check_target from to r =
      let state = trim_space to in
      if is_undefined states state
      then record_once (undefined_state atoi e from state state "target") r
      else r

  unfoldable pub check_targets : String → List String → Recorded → Recorded
  check_targets from [] r = r
  check_targets from (to ∷ targets) r = check_targets from targets (check_target from to r)

  abbrev pub check_source : String → List String → Recorded → Recorded
  check_source from targets r =
      let state = trim_space from in
      if is_undefined states state
      then record_once (undefined_state atoi e state (preview targets) state "source") r
      else r

  unfoldable pub check_transitions : List (String × List String) → Recorded → Recorded
  check_transitions [] r = r
  check_transitions ((from, targets) ∷ rest) r =
      check_transitions rest (check_targets from targets (check_source from targets r))

-- the body of the loop over the entities
unfoldable pub check_machine : (String → Option ℤ) → Entity → Option Fsm → Recorded → Recorded
check_machine atoi e none r = r
check_machine atoi e (some fsm) r =
    let states = state_set fsm.states in
    if is_empty states then r else check_transitions atoi e states fsm.transitions r

unfoldable pub check_entities : (String → Option ℤ) → List Entity → Recorded → Recorded
check_entities atoi [] r = r
check_entities atoi (e ∷ es) r = check_entities atoi es (check_machine atoi e e.fsm r)

-- `emitFSMIntegrityDiagnostics`: what it records
unfoldable pub emit_fsm_integrity_diagnostics : (String → Option ℤ) → List Entity → List Warning
emit_fsm_integrity_diagnostics atoi es =
    (check_entities atoi es (record { seen = []; warnings = [] })).warnings
