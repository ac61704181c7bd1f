-- ===== src/Versioning/Upgrade.antt =====
-- What the upgrade of a schema does.
use ang.Common.{
  String, false, ◌==◌, ◌||◌, none, some, [], ◌≡◌, ◌≢◌, ◌⊎◌, refl, inl, inr, eq_iff, ap, ◌∙◌, subst,
  Bool-cases,
}
use ang.Ir.{Schema}
use ang.Values.{Metadata}
use ang.Versioning.{
  Migrated, migrate_to_version, normalize_version, migrate_loop, apply_step, first_from, finish,
  normalize_v1_invariants, migrate_v0_to_v1, migrate_v1_to_v2,
}
use ang.Versioning.Invariants.{IsNormal, normalize-IsNormal, normalize-fixed, read, read-normalize}

-- The versions that the compiler knows.
abbrev pub IsKnown : String → Type 0
IsKnown v = (v ≡ "0") ⊎ ((v ≡ "1") ⊎ (v ≡ "2"))

-- Apart from the version, a reader that cannot tell a nil map from an empty one sees no change.
abbrev pub IsSame : Schema → Schema → Type 0
IsSame s s' =
    (g : Metadata → Metadata)
    → g none ≡ g (some [])
    → read g s' ≡ record (read g s) { ir_version = s'.ir_version }

-- What an upgrade promises.
pub record IsUpgrade (s s' : Schema) : Type 0 where
  pub version : normalize_version s'.ir_version ≡ "2"
  pub normal : IsNormal s'
  pub same : IsSame s s'

abbrev pub Upgraded : Schema → Migrated → Type 0
Upgraded s r = (s' : Schema) × (r ≡ record { err = none; schema = some s' }) × IsUpgrade s s'

abbrev pub Refused : Schema → Migrated → Type 0
Refused s r = (r.err ≢ none) × (r.schema ≡ some s)

one : normalize_version "1" ≡ "1"
unfolding normalize_version ang.Text.trim_space
one = refl

pub two : normalize_version "2" ≡ "2"
unfolding normalize_version ang.Text.trim_space
two = refl

pub IsKnown-cases : (v : String) → IsKnown v ⊎ ((v == "0" || v == "1" || v == "2") ≡ false)
IsKnown-cases v = elim (Bool-cases (v == "0")) [
  | inl e ↦ inl (inl ((eq_iff v "0").0 e))
  | inr n0 ↦ elim (Bool-cases (v == "1")) [
    | inl e ↦ inl (inr (inl ((eq_iff v "1").0 e)))
    | inr n1 ↦ elim (Bool-cases (v == "2")) [
      | inl e ↦ inl (inr (inr ((eq_iff v "2").0 e)))
      | inr n2 ↦ inr (rw (n0, n1, n2) refl)
    ]
  ]
]

pub known_not-unknown : (v : String) → IsKnown v → (v == "0" || v == "1" || v == "2") ≡ false → ⊥
known_not-unknown v (inl e) h = cc (rw e at h)
known_not-unknown v (inr (inl e)) h = cc (rw e at h)
known_not-unknown v (inr (inr e)) h = cc (rw e at h)

IsSame-normalize : (s s' : Schema) → IsSame s s' → IsSame s (normalize_v1_invariants s')
IsSame-normalize s s' i g h = read-normalize g h s' ∙ i g h

IsSame-with_version :
    (s s' : Schema) (v : String) → IsSame s s' → IsSame s (record s' { ir_version = v })
IsSame-with_version s s' v i g h = ap (λ (r : Schema). record r { ir_version = v }) (i g h)

IsSame-migrate : (s s' : Schema) → IsSame s s' → IsSame s (migrate_v1_to_v2 s')
IsSame-migrate s s' i = IsSame-normalize s _ (IsSame-with_version s _ "2" (IsSame-normalize s s' i))

module _ (s : Schema) (target : String) (t : normalize_version target ≡ "2") where
  pub migrate_two :
      normalize_version s.ir_version ≡ "2"
      → migrate_to_version (some s) target
        ≡ record { err = none; schema = some (normalize_v1_invariants s) }
  unfolding migrate_to_version migrate_loop finish
  migrate_two v = rw (t, v) refl

  pub migrate_one :
      normalize_version s.ir_version ≡ "1"
      → migrate_to_version (some s) target
        ≡ record { err = none; schema = some (normalize_v1_invariants (migrate_v1_to_v2 s)) }
  unfolding migrate_to_version migrate_loop finish apply_step first_from
  migrate_one v = rw (t, v, two) refl

  pub migrate_zero :
      normalize_version s.ir_version ≡ "0"
      → migrate_to_version (some s) target ≡ record {
        err = none;
        schema = some (normalize_v1_invariants (migrate_v1_to_v2 (migrate_v0_to_v1 s)));
      }
  unfolding migrate_to_version migrate_loop finish apply_step first_from
  migrate_zero v = rw (t, v, one, two) refl

  from_two : normalize_version s.ir_version ≡ "2" → Upgraded s (migrate_to_version (some s) target)
  from_two v = (
    normalize_v1_invariants s,
    migrate_two v,
    record { version = v; normal = normalize-IsNormal s; same = λ g h. read-normalize g h s },
  )

  from_one : normalize_version s.ir_version ≡ "1" → Upgraded s (migrate_to_version (some s) target)
  from_one v = (
    normalize_v1_invariants (migrate_v1_to_v2 s),
    migrate_one v,
    record {
      version = two;
      normal = normalize-IsNormal (migrate_v1_to_v2 s);
      same = IsSame-normalize s _ (IsSame-migrate s s (λ g h. refl));
    },
  )

  from_zero : normalize_version s.ir_version ≡ "0" → Upgraded s (migrate_to_version (some s) target)
  from_zero v = (
    normalize_v1_invariants (migrate_v1_to_v2 (migrate_v0_to_v1 s)),
    migrate_zero v,
    record {
      version = two;
      normal = normalize-IsNormal (migrate_v1_to_v2 (migrate_v0_to_v1 s));
      same =
          IsSame-normalize s _
            (IsSame-migrate s _ (IsSame-normalize s _ (IsSame-with_version s s "1" (λ g h. refl))));
    },
  )

  from_known :
      IsKnown (normalize_version s.ir_version) → Upgraded s (migrate_to_version (some s) target)
  from_known (inl e) = from_zero e
  from_known (inr (inl e)) = from_one e
  from_known (inr (inr e)) = from_two e

  pub from_unknown :
      (normalize_version s.ir_version == "0"
          || normalize_version s.ir_version == "1"
          || normalize_version s.ir_version == "2")
        ≡ false
      → Refused s (migrate_to_version (some s) target)
  unfolding migrate_to_version
  from_unknown u = rw (t, u) (λ q. cc q, refl)

Refused-target :
    (s : Schema) (target : String)
    → (normalize_version target == "2") ≡ false
    → Refused s (migrate_to_version (some s) target)
unfolding migrate_to_version
Refused-target s target n = rw n (λ q. cc q, refl)

pub migrate_to_version-upgrades :
    (s : Schema) (target : String)
    → (((normalize_version target ≡ "2") × IsKnown (normalize_version s.ir_version))
        × Upgraded s (migrate_to_version (some s) target))
      ⊎ (((normalize_version target ≡ "2") × IsKnown (normalize_version s.ir_version) → ⊥)
          × Refused s (migrate_to_version (some s) target))
migrate_to_version-upgrades s target = elim (Bool-cases (normalize_version target == "2")) [
  | inr other ↦ inr (
    λ h. cc (other, (eq_iff (normalize_version target) "2").1 h.0),
    Refused-target s target other,
  )
  | inl same ↦
      let t = (eq_iff (normalize_version target) "2").0 same in
      elim (IsKnown-cases (normalize_version s.ir_version)) [
        | inl k ↦ inl ((t, k), from_known s target t k)
        | inr u ↦ inr (λ h. known_not-unknown _ h.1 u, from_unknown s target t u)
      ]
]

pub migrate_fixed :
    (s : Schema) (target : String)
    → normalize_version target ≡ "2"
    → normalize_version s.ir_version ≡ "2"
    → IsNormal s
    → migrate_to_version (some s) target ≡ record { err = none; schema = some s }
unfolding migrate_to_version migrate_loop finish
migrate_fixed s target t v n = rw (t, v, normalize-fixed s n) refl

-- A schema that MigrateToVersion has upgraded stays as it is when it is upgraded again.
pub migrate_to_version_idempotent :
    (s s' : Schema) (target : String)
    → migrate_to_version (some s) target ≡ record { err = none; schema = some s' }
    → migrate_to_version (some s') target ≡ record { err = none; schema = some s' }
migrate_to_version_idempotent s s' target e = elim (migrate_to_version-upgrades s target) [
  | inr h ↦ absurd (h.1.0 (ap (λ (r : Migrated). r.err) e))
  | inl h ↦
      let (s'', e', u) = h.1 in
      let known : s'' ≡ s' = cc in
      let again : IsUpgrade s s' = subst (IsUpgrade s) known u in
      migrate_fixed s' target h.0.0 again.version again.normal
]
