-- ===== src/Diagnostics/Once.antt =====
-- The record of the warnings against those that are called for.
use mathlib.Core.List.{map-append}
use ang.Common.{
  ◌≡◌, refl, ap, sym, subst, ◌∙◌, String, Bool, true, false, ◌||◌, List, [], ◌∷◌, ◌++◌, map, inl,
  inr, Bool-cases, contains, All, All-append, All-weaken, Memᴰ, eq_iff, ◌==◌, arith, Option,
}
use text.Mathlib.TextPositions.{eq_refl}
use ang.Common.Int.{ℤ}
use ang.Normalizer.{Entity}
use ang.Text.{concat}
use ang.Diagnostics.Called.{IsCalledFor, mem-entity_warnings_iff}
use mathlib.Core.List.Memᴰ
use mathlib.Core.Logic.{⊎_elim}
use ang.Diagnostics.{Warning, Recorded, record_once, key_of, itoa, emit_fsm_integrity_diagnostics}
use ang.Diagnostics.Report.{record_all, entity_warnings, entities_recorded}

abbrev pub has_key : List Warning → Warning → Bool
has_key ws w = contains (map key_of ws) (key_of w)

-- No two warnings have the same key.
abbrev pub Distinct : List Warning → Type 0
Distinct [] = Unit
Distinct (w ∷ ws) = (has_key ws w ≡ false) × Distinct ws

contains-append :
    (xs ys : List String) (k : String) → contains (xs ++ ys) k ≡ (contains xs k || contains ys k)
unfolding contains
contains-append [] ys k = refl
contains-append (x ∷ xs) ys k = ground (arith, contains-append xs ys k)

keys_added :
    (ws : List Warning) (w : Warning) (k : String)
    → contains (map key_of (ws ++ w ∷ [])) k ≡ (contains (map key_of ws) k || (key_of w == k))
unfolding contains
keys_added ws w k =
    ap (λ (ks : List String). contains ks k) (map-append key_of ws (w ∷ []))
    ∙ contains-append (map key_of ws) (key_of w ∷ []) k
    ∙ or_none (contains (map key_of ws) k) (key_of w == k)
  where
    or_none : (a b : Bool) → (a || (b || false)) ≡ (a || b)
    or_none true b = refl
    or_none false true = refl
    or_none false false = refl

Distinct-added :
    (ws : List Warning) (w : Warning) → Distinct ws → has_key ws w ≡ false → Distinct (ws ++ w ∷ [])
unfolding contains
Distinct-added [] w d n = (refl, tt)
Distinct-added (v ∷ ws) w d n =
    let apart : (key_of v == key_of w) ≡ false = ground arith in
    let rest : has_key ws w ≡ false = ground arith in
    (
      keys_added ws w (key_of v) ∙ rw (d.0, apart_sym (key_of v) (key_of w) apart) refl,
      Distinct-added ws w d.1 rest,
    )
  where
    apart_sym : (s t : String) → (s == t) ≡ false → (t == s) ≡ false
    apart_sym s t n = ground (arith, eq_iff s t, eq_iff t s)

-- The keys that have been seen are those of what is recorded.
pub record IsInStep (r : Recorded) : Type 0 where
  pub seen : (k : String) → contains r.seen k ≡ contains (map key_of r.warnings) k
  pub distinct : Distinct r.warnings

record_once-IsInStep : (w : Warning) (r : Recorded) → IsInStep r → IsInStep (record_once w r)
record_once-IsInStep w r i = elim (Bool-cases (contains r.seen (key_of w))) [
  | inl old ↦ rw old i
  | inr new ↦ rw new record {
    seen = λ k. swapped k ∙ sym (keys_added r.warnings w k);
    distinct = Distinct-added r.warnings w i.distinct (sym (i.seen (key_of w)) ∙ new);
  }
]
  where
    or_comm : (a b : Bool) → (a || b) ≡ (b || a)
    or_comm true true = refl
    or_comm true false = refl
    or_comm false true = refl
    or_comm false false = refl

    swapped :
        (k : String)
        → contains (key_of w ∷ r.seen) k ≡ (contains (map key_of r.warnings) k || (key_of w == k))
    swapped k =
        unfold contains in
        ap (λ b. (key_of w == k) || b) (i.seen k)
        ∙ or_comm (key_of w == k) (contains (map key_of r.warnings) k)

record_all-IsInStep : (ws : List Warning) (r : Recorded) → IsInStep r → IsInStep (record_all ws r)
unfolding record_all
record_all-IsInStep [] r i = i
record_all-IsInStep (w ∷ ws) r i =
    record_all-IsInStep ws (record_once w r) (record_once-IsInStep w r i)

-- what is recorded stays recorded
has_key_kept :
    (v w : Warning) (r : Recorded)
    → has_key r.warnings v ≡ true
    → has_key (record_once w r).warnings v ≡ true
has_key_kept v w r h = elim (Bool-cases (contains r.seen (key_of w))) [
  | inl old ↦ rw old h
  | inr new ↦ rw new (keys_added r.warnings w (key_of v) ∙ rw h refl)
]

has_key_here :
    (w : Warning) (r : Recorded) → IsInStep r → has_key (record_once w r).warnings w ≡ true
has_key_here w r i = elim (Bool-cases (contains r.seen (key_of w))) [
  | inl old ↦ rw old (sym (i.seen (key_of w)) ∙ old)
  | inr new ↦ rw new (
      keys_added r.warnings w (key_of w) ∙ rw (eq_refl (key_of w)) (or_true (has_key r.warnings w)))
]
  where
    or_true : (b : Bool) → (b || true) ≡ true
    or_true true = refl
    or_true false = refl

record_all-kept :
    (v : Warning) (ws : List Warning) (r : Recorded)
    → has_key r.warnings v ≡ true
    → has_key (record_all ws r).warnings v ≡ true
unfolding record_all
record_all-kept v [] r h = h
record_all-kept v (w ∷ ws) r h = record_all-kept v ws (record_once w r) (has_key_kept v w r h)

record_all_complete :
    (ws : List Warning) (r : Recorded)
    → IsInStep r
    → All (λ w. has_key (record_all ws r).warnings w ≡ true) ws
unfolding record_all
record_all_complete [] r i = tt
record_all_complete (w ∷ ws) r i = (
  record_all-kept w ws (record_once w r) (has_key_here w r i),
  record_all_complete ws (record_once w r) (record_once-IsInStep w r i),
)

record_once-All :
    (P : Warning → Type 0) (w : Warning) (r : Recorded)
    → P w
    → All P r.warnings
    → All P (record_once w r).warnings
record_once-All P w r p h = elim (Bool-cases (contains r.seen (key_of w))) [
  | inl old ↦ rw old h
  | inr new ↦ rw new (All-append P r.warnings (w ∷ []) h (p, tt))
]

record_all-All :
    (P : Warning → Type 0) (ws : List Warning) (r : Recorded)
    → All P ws
    → All P r.warnings
    → All P (record_all ws r).warnings
unfolding record_all
record_all-All P [] r p h = h
record_all-All P (w ∷ ws) r p h =
    record_all-All P ws (record_once w r) p.1 (record_once-All P w r p.0 h)

All-mem_self : {A : Type 0} (xs : List A) → All (λ x. Memᴰ x xs) xs
All-mem_self [] = tt
All-mem_self (x ∷ xs) = (
  Memᴰ.head refl,
  All-weaken (λ y. Memᴰ y xs) (λ y. Memᴰ y (x ∷ xs)) (λ y m. Memᴰ.tail m) xs (All-mem_self xs),
)

pub emit-entity_warnings :
    (atoi : String → Option ℤ) (es : List Entity)
    → All
        (λ (w : Warning). Memᴰ w (entity_warnings atoi es))
        (emit_fsm_integrity_diagnostics atoi es)
      × All
          (λ (w : Warning). has_key (emit_fsm_integrity_diagnostics atoi es) w ≡ true)
          (entity_warnings atoi es)
      × Distinct (emit_fsm_integrity_diagnostics atoi es)
unfolding emit_fsm_integrity_diagnostics
emit-entity_warnings atoi es =
    let ws = entity_warnings atoi es in
    let start : Recorded = record { seen = []; warnings = [] } in
    let i : IsInStep start = record { seen = λ k. refl; distinct = tt } in
    subst
      (λ (ds : List Warning).
        All (λ (w : Warning). Memᴰ w ws) ds
        × All (λ (w : Warning). has_key ds w ≡ true) ws
        × Distinct ds)
      (ap (λ (r : Recorded). r.warnings) (sym (entities_recorded atoi es start)))
      (
        record_all-All (λ w. Memᴰ w ws) ws start (All-mem_self ws) tt,
        record_all_complete ws start i,
        (record_all-IsInStep ws start i).distinct,
      )

-- what tells two warnings apart
abbrev pub code_message_position : Warning → String
code_message_position w = concat (w.code ∷ "|" ∷ w.message ∷ "|" ∷ w.file ∷ "|" ∷ itoa w.line ∷ [])

-- Some warning in the list has this code, message and position.
abbrev pub IsRecorded : List Warning → Warning → Type 0
IsRecorded ws w = contains (map code_message_position ws) (code_message_position w) ≡ true

-- No two warnings have the same code, message and position.
abbrev pub AreApart : List Warning → Type 0
AreApart [] = Unit
AreApart (w ∷ ws) =
    (contains (map code_message_position ws) (code_message_position w) ≡ false) × AreApart ws

Distinct-AreApart : (ws : List Warning) → Distinct ws → AreApart ws
Distinct-AreApart [] d = tt
Distinct-AreApart (w ∷ ws) d = (d.0, Distinct-AreApart ws d.1)

All-mem : {A : Type 0} (P : A → Type 0) (x : A) (xs : List A) → All P xs → Memᴰ x xs → P x
All-mem P x [] h m = absurd (Memᴰ.not-nil m)
All-mem P x (y ∷ xs) h m =
    ⊎_elim (λ e. subst P (sym e) h.0) (λ k. All-mem P x xs h.1 k) (Memᴰ.cases_cons m)

-- emitFSMIntegrityDiagnostics records one warning for each fault: every recorded warning is about a
-- fault, which is a transition of a state machine with a state that is not blank, whose source or
-- target is neither blank nor a state of the machine, all read without spaces around them; for every
-- such fault a warning of its code, message and position is recorded; and no two recorded warnings
-- have the same code, message and position.
pub emit-records :
    (atoi : String → Option ℤ) (es : List Entity)
    → All (IsCalledFor atoi es) (emit_fsm_integrity_diagnostics atoi es)
      × ((w : Warning)
          → IsCalledFor atoi es w
          → IsRecorded (emit_fsm_integrity_diagnostics atoi es) w)
      × AreApart (emit_fsm_integrity_diagnostics atoi es)
emit-records atoi es =
    let (called, complete, apart) = emit-entity_warnings atoi es in
    (
      All-weaken _ (IsCalledFor atoi es) (λ w m. (mem-entity_warnings_iff atoi es w).0 m) _ called,
      λ w c.
          All-mem _ w (entity_warnings atoi es) complete ((mem-entity_warnings_iff atoi es w).1 c),
      Distinct-AreApart _ apart,
    )
