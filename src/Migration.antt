-- ===== src/Migration.antt =====
-- core/migration/migration_plan.{hpp,cpp}: which migrations are still to run. An error is a value with
-- the numbers its message shows; the text that std::format makes is not modelled. A file path is
-- text. Versions are numbers: a negative one is never the expected version, as 0 is not.
use cns_server.Base.{
  ℕ, suc, ◌+◌, ◌≡◌, ◌≢◌, ◌↔◌, ◌⊎◌, inl, inr, refl, sym, ap, ◌∙◌, String, Bool, true, false, not,
  ◌&&◌, ◌||◌, List, [], ◌∷◌, ◌++◌, map, ◌==◌, if◌then◌else◌, Expected, ok, unexpected, string_eq,
  ℕ_eq, arith, Bool-cases, nat_eq_iff,
}
pub mod Tests
use mathlib.Core.Path.{subst}
use text.Mathlib.TextEquality.{eq_iff}

pub record MigrationFile : Type 0 where
  pub version : ℕ
  pub name : String
  pub file : String

pub record AppliedMigration : Type 0 where
  pub version : ℕ
  pub name : String

pub data Mode : Type 0 where
  check_only apply : Mode

pub data MigrationError : Type 0 where
  not_continuous : (source : String) (expected actual : ℕ) → MigrationError
  name_differs : (version : ℕ) → MigrationError
  unknown_version : (version : ℕ) → MigrationError
  needs_apply : (version : ℕ) → MigrationError

-- ValidateContinuous, from an index on: the versions of the list, as both uses read only them.
unfoldable pub validate_continuous : String → ℕ → List ℕ → Expected MigrationError Unit
validate_continuous source index [] = ok tt
validate_continuous source index (version ∷ rest) =
    let later = validate_continuous source (suc index) rest in
    if version == suc index then later else unexpected (not_continuous source (suc index) version)

abbrev available_version : MigrationFile → ℕ
available_version m = m.version

abbrev applied_version : AppliedMigration → ℕ
applied_version m = m.version

-- BuildMigrationPlan past the two checks: the loop over the common part, and what follows it.
unfoldable pub plan_rest :
    Mode → List MigrationFile → List AppliedMigration → Expected MigrationError (List MigrationFile)
plan_rest mode [] [] = ok []
plan_rest mode [] (b ∷ applied) = unexpected (unknown_version b.version)
plan_rest check_only (a ∷ available) [] = unexpected (needs_apply a.version)
plan_rest apply (a ∷ available) [] = ok (a ∷ available)
plan_rest mode (a ∷ available) (b ∷ applied) =
    let rest = plan_rest mode available applied in
    if a.version == b.version && a.name == b.name then rest else unexpected (name_differs a.version)

unfoldable pub build_migration_plan :
    List MigrationFile → List AppliedMigration → Mode → Expected MigrationError (List MigrationFile)
unfolding validate_continuous plan_rest
build_migration_plan available applied mode =
    elim (validate_continuous "目录" 0 (map available_version available)) [
      | unexpected e ↦ unexpected e
      | ok _ ↦ elim (validate_continuous "数据库" 0 (map applied_version applied)) [
        | unexpected e ↦ unexpected e
        | ok _ ↦ plan_rest mode available applied
      ]
    ]

-- The versions count up from a number.
abbrev pub IsCounting : ℕ → List ℕ → Type 0
IsCounting n [] = Unit
IsCounting n (v ∷ vs) = (v ≡ suc n) × IsCounting (suc n) vs

abbrev pub as_applied : MigrationFile → AppliedMigration
as_applied m = record { version = m.version; name = m.name }

validate_iff :
    (source : String) (n : ℕ) (vs : List ℕ)
    → (validate_continuous source n vs ≡ ok tt) ↔ IsCounting n vs
unfolding validate_continuous
validate_iff source n [] = (λ _. tt, λ _. refl)
validate_iff source n (v ∷ vs) = elim (Bool-cases (v == suc n)) [
  | inl e ↦ (
    λ h. ground (arith, validate_iff source (suc n) vs),
    λ h. ground (arith, validate_iff source (suc n) vs),
  )
  | inr e ↦ (λ h. absurd (ground arith), λ h. absurd (ground arith))
]

-- What a plan is: the migrations after those that were applied, and none when they may not run.
abbrev pub IsPlan : Mode → List MigrationFile → List AppliedMigration → List MigrationFile → Type 0
IsPlan mode available applied plan =
    (done : List MigrationFile) × (available ≡ done ++ plan)
    × (map as_applied done ≡ applied)
    × ((plan ≡ []) ⊎ (mode ≡ apply))

same_as :
    (a : MigrationFile) (b : AppliedMigration)
    → (a.version == b.version && a.name == b.name) ≡ true
    → as_applied a ≡ b
same_as a b e = ground (arith, eq_iff a.name b.name)

plans :
    (mode : Mode) (available : List MigrationFile) (applied : List AppliedMigration)
    (plan : List MigrationFile)
    → plan_rest mode available applied ≡ ok plan
    → IsPlan mode available applied plan
unfolding plan_rest
plans mode [] [] plan h = ([], cc, refl, inl (cc))
plans mode [] (b ∷ applied) plan h = absurd (cc)
plans check_only (a ∷ available) [] plan h = absurd (cc)
plans apply (a ∷ available) [] plan h = ([], cc, refl, inr refl)
plans mode (a ∷ available) (b ∷ applied) plan h =
    elim (Bool-cases (a.version == b.version && a.name == b.name)) [
      | inl e ↦
          let (done, p, q, r) = plans mode available applied plan (rw e at h) in
          (
            a ∷ done,
            ap (λ xs. a ∷ xs) p,
            ap (λ x. x ∷ map as_applied done) (same_as a b e) ∙ ap (λ xs. b ∷ xs) q,
            r,
          )
      | inr e ↦ absurd (ground arith)
    ]

planned :
    (mode : Mode) (done plan : List MigrationFile)
    → (plan ≡ []) ⊎ (mode ≡ apply)
    → plan_rest mode (done ++ plan) (map as_applied done) ≡ ok plan
unfolding plan_rest
planned mode (a ∷ done) plan r = ground (arith, planned mode done plan r, eq_iff a.name a.name)
planned check_only [] [] r = refl
planned apply [] [] r = refl
planned apply [] (a ∷ plan) r = refl
planned check_only [] (a ∷ plan) r = absurd (ground arith)

-- A plan is made exactly when the versions of the available and of the applied migrations both count
-- up from 1, the applied migrations are the first available ones by version and name, and the plan
-- is all of the available ones after these; in the mode that only checks, the plan must be empty.
pub build_migration_plan_exact :
    (available : List MigrationFile) (applied : List AppliedMigration) (mode : Mode)
    (plan : List MigrationFile)
    → (build_migration_plan available applied mode ≡ ok plan) ↔ (
        IsCounting 0 (map available_version available)
        × IsCounting 0 (map applied_version applied)
        × IsPlan mode available applied plan)
unfolding build_migration_plan
build_migration_plan_exact available applied mode plan = (forward, backward)
  where
    checked :
        build_migration_plan available applied mode ≡ ok plan
        → (validate_continuous "目录" 0 (map available_version available) ≡ ok tt)
          × (validate_continuous "数据库" 0 (map applied_version applied) ≡ ok tt)
          × (plan_rest mode available applied ≡ ok plan)
    checked h = (ground arith, ground arith, ground arith)

    forward :
        build_migration_plan available applied mode ≡ ok plan
        → IsCounting 0 (map available_version available)
          × IsCounting 0 (map applied_version applied)
          × IsPlan mode available applied plan
    forward h =
        let (a, b, c) = checked h in
        ((validate_iff _ 0 _).0 a, (validate_iff _ 0 _).0 b, plans mode available applied plan c)

    rebuilt :
        validate_continuous "目录" 0 (map available_version available) ≡ ok tt
        → validate_continuous "数据库" 0 (map applied_version applied) ≡ ok tt
        → plan_rest mode available applied ≡ ok plan
        → build_migration_plan available applied mode ≡ ok plan
    rebuilt a b c = ground arith

    backward :
        IsCounting 0 (map available_version available)
          × IsCounting 0 (map applied_version applied)
          × IsPlan mode available applied plan
        → build_migration_plan available applied mode ≡ ok plan
    backward (a, b, (done, p, q, r)) =
        rebuilt ((validate_iff _ 0 _).1 a) ((validate_iff _ 0 _).1 b) (
          subst (λ xs. plan_rest mode xs applied ≡ ok plan) (sym p)
            (subst (λ ys. plan_rest mode (done ++ plan) ys ≡ ok plan) q (planned mode done plan r)))
