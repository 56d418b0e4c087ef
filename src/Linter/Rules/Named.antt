-- ===== src/Linter/Rules/Named.antt =====
-- Each rule of crates/soroban-storage-lints/src/rules.rs reports under its own name.
use mathlib.Core.Path.{subst}
use soroban_storage_the_on_c.Prelude.{
  ◌≡◌, refl, Bool, true, false, not, ◌||◌, Option, none, some, List, [], ◌∷◌, String, map, All,
  Bool-cases, inl, inr, ok, bind-ok, if◌then◌else◌, ℕ, ltb, keep_if,
}
use soroban_storage_the_on_c.Storage.Lifecycle.{temporary, instance, same_lifecycle}
use soroban_storage_the_on_c.Linter.Decl.{StorageDecl}
use soroban_storage_the_on_c.Linter.Words.{Unicode}
use soroban_storage_the_on_c.Linter.Model.{StorageChain, FnStorage, FileModel}
use soroban_storage_the_on_c.Linter.Resolve.{writes, key_variant, resolve_value_type, arg_at}
use soroban_storage_the_on_c.Linter.Rules.{
  RuleFinding, Found, Reason, if_any, unextended, mismatch, exceeding, check_critical, check_bloat,
  decl_of_variant, is_entry_write, literal_target, temporary_critical_type, lifecycle_mismatch,
  missing_ttl_extension, instance_storage_bloat, temporary_ttl_exceeded, persistent_ttl_exceeded,
}
use soroban_storage_the_on_c.Linter.Rules.Loops.{for_each-All}

-- The findings of one rule.
abbrev pub AllNamed : String → List RuleFinding → Type 0
AllNamed name = All (λ (f : RuleFinding). f.rule ≡ name)

if_any-AllNamed :
    (reasons : List Reason) (finding : RuleFinding) → AllNamed finding.rule (if_any reasons finding)
if_any-AllNamed [] finding = tt
if_any-AllNamed (r ∷ reasons) finding = (refl, tt)

exceeding-AllNamed :
    (rule : String) (most : ℕ) (chain : StorageChain) (target : Option ℕ)
    → AllNamed rule (exceeding rule most chain target)
exceeding-AllNamed rule most chain none = tt
exceeding-AllNamed rule most chain (some target) = elim (Bool-cases (ltb most target)) [
  | inl q ↦ rw q (refl, tt)
  | inr q ↦ rw q tt
]

mismatch-AllNamed :
    (chain : StorageChain) (decl : Option StorageDecl)
    → AllNamed "lifecycle_mismatch" (mismatch chain decl)
mismatch-AllNamed chain none = tt
mismatch-AllNamed chain (some decl) =
    elim (Bool-cases (same_lifecycle decl.lifecycle chain.lifecycle)) [
      | inl q ↦ rw q tt
      | inr q ↦ rw q (refl, tt)
    ]

-- What a check returns, where it cannot fail.
pure-AllNamed :
    (name : String) (pure_found found : List RuleFinding)
    → AllNamed name pure_found
    → Path Found (ok pure_found) (ok found)
    → AllNamed name found
pure-AllNamed name pure_found found named q =
    let same : pure_found ≡ found = cc in subst (AllNamed name) same named

guarded-AllNamed :
    (name : String) (skipped : Bool) (run : Found) (found : List RuleFinding)
    → (if skipped then ok [] else run) ≡ ok found
    → (run ≡ ok found → AllNamed name found)
    → AllNamed name found
guarded-AllNamed name true run found q named = pure-AllNamed name [] found tt q
guarded-AllNamed name false run found q named = named q

none_if-AllNamed :
    (name : String) (skipped : Bool) (found : List RuleFinding)
    → AllNamed name found
    → AllNamed name (if skipped then [] else found)
none_if-AllNamed name true found named = tt
none_if-AllNamed name false found named = named

unextended-AllNamed :
    (cs : List StorageChain) → AllNamed "missing_ttl_extension" (map unextended cs)
unextended-AllNamed [] = tt
unextended-AllNamed (c ∷ cs) = (refl, unextended-AllNamed cs)

module _ (u : Unicode) (model : FileModel) (f : FnStorage) (chain : StorageChain)
    (found : List RuleFinding) where
  check_critical-AllNamed :
      check_critical u model f chain ≡ ok found → AllNamed "temporary_critical_type" found
  unfolding check_critical
  check_critical-AllNamed q =
      guarded-AllNamed _
        (not (same_lifecycle chain.lifecycle temporary) || not (writes chain.method)) _ found q
        (λ q'.
          let (ty, _, done) = bind-ok (resolve_value_type u chain f model) _ q' in
          pure-AllNamed _ _ found (if_any-AllNamed _ _) done)

  check_bloat-AllNamed :
      check_bloat u model f chain ≡ ok found → AllNamed "instance_storage_bloat" found
  unfolding check_bloat
  check_bloat-AllNamed q =
      guarded-AllNamed _
        (not (same_lifecycle chain.lifecycle instance) || not (writes chain.method)) _ found q
        (λ q'.
          let (ty, _, done) = bind-ok (resolve_value_type u chain f model) _ q' in
          pure-AllNamed _ _ found (if_any-AllNamed _ _) done)

-- A rule, run on a model.
abbrev pub ReportsAs : String × (FileModel → Found) → Type 0
ReportsAs (name, rule) =
    (model : FileModel) (found : List RuleFinding) → rule model ≡ ok found → AllNamed name found

pub temporary_critical_type-ReportsAs :
    (u : Unicode) → ReportsAs ("temporary_critical_type", temporary_critical_type u)
unfolding temporary_critical_type
temporary_critical_type-ReportsAs u model =
    for_each-All _ (λ f. for_each-All _ (check_critical-AllNamed u model f) f.chains) model.fns

pub instance_storage_bloat-ReportsAs :
    (u : Unicode) → ReportsAs ("instance_storage_bloat", instance_storage_bloat u)
unfolding instance_storage_bloat
instance_storage_bloat-ReportsAs u model =
    for_each-All _ (λ f. for_each-All _ (check_bloat-AllNamed u model f) f.chains) model.fns

pub lifecycle_mismatch-ReportsAs : ReportsAs ("lifecycle_mismatch", lifecycle_mismatch)
unfolding lifecycle_mismatch
lifecycle_mismatch-ReportsAs model =
    for_each-All _
      (λ f.
        for_each-All _
          (λ chain found.
            pure-AllNamed _ _ found
              (mismatch-AllNamed chain (decl_of_variant (key_variant chain) model)))
          f.chains)
      model.fns

pub missing_ttl_extension-ReportsAs : ReportsAs ("missing_ttl_extension", missing_ttl_extension)
unfolding missing_ttl_extension
missing_ttl_extension-ReportsAs model =
    for_each-All _
      (λ f found.
        pure-AllNamed _ _ found
          (none_if-AllNamed _ _ _ (unextended-AllNamed (keep_if is_entry_write f.chains))))
      model.fns

pub temporary_ttl_exceeded-ReportsAs : ReportsAs ("temporary_ttl_exceeded", temporary_ttl_exceeded)
unfolding temporary_ttl_exceeded
temporary_ttl_exceeded-ReportsAs model =
    for_each-All _
      (λ f.
        for_each-All _
          (λ chain found. pure-AllNamed _ _ found (
            none_if-AllNamed _ _ _
              (exceeding-AllNamed _ _ chain (literal_target (arg_at chain.args 2)))))
          f.chains)
      model.fns

pub persistent_ttl_exceeded-ReportsAs :
    ReportsAs ("persistent_ttl_exceeded", persistent_ttl_exceeded)
unfolding persistent_ttl_exceeded
persistent_ttl_exceeded-ReportsAs model =
    for_each-All _
      (λ f.
        for_each-All _
          (λ chain found. pure-AllNamed _ _ found (
            none_if-AllNamed _ _ _
              (exceeding-AllNamed _ _ chain (literal_target (arg_at chain.args 2)))))
          f.chains)
      model.fns
