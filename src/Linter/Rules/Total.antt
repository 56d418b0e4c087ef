-- ===== src/Linter/Rules/Total.antt =====
-- Where the rules of crates/soroban-storage-lints/src/rules.rs do not panic.
use soroban_storage_the_on_c.Prelude.{
  refl, Bool, true, false, Option, List, [], ◌∷◌, String, All, All-of, Result, ok, IsOk, ◌>>=◌,
  if◌then◌else◌,
}
use soroban_storage_the_on_c.Linter.Words.{Unicode}
use soroban_storage_the_on_c.Linter.Model.{StorageChain, FnStorage, FileModel}
use soroban_storage_the_on_c.Linter.Resolve.{Panic}
use soroban_storage_the_on_c.Linter.Rules.{
  RuleFinding, Found, for_each, check_ttl, check_critical, check_bloat, temporary_critical_type,
  lifecycle_mismatch, missing_ttl_extension, instance_storage_bloat, temporary_ttl_exceeded,
  persistent_ttl_exceeded,
}
use soroban_storage_the_on_c.Linter.Rules.Loops.{for_each-IsOk}
use soroban_storage_the_on_c.Linter.Resolve.Readable.{IsReadable, value-IsOk}

module _ (u : Unicode) where
  module _ (f : FnStorage) (readable : IsReadable f) (model : FileModel) where
    guarded-IsOk :
        (skipped : Bool) (ty : Result Panic (Option String)) (next : Option String → Found)
        → IsOk ty
        → ((found : Option String) → IsOk (next found))
        → IsOk (if skipped then ok [] else ty >>= next)
    guarded-IsOk true ty next fine after = ([], refl)
    guarded-IsOk false ty next (found, q) after = let (out, q') = after found in (out, rw q q')

    pub critical-IsOk : (chain : StorageChain) → IsOk (check_critical u model f chain)
    unfolding check_critical
    critical-IsOk chain = guarded-IsOk _ _ _ (value-IsOk u f readable model chain) (λ ty. (_, refl))

    bloat-IsOk : (chain : StorageChain) → IsOk (check_bloat u model f chain)
    unfolding check_bloat
    bloat-IsOk chain = guarded-IsOk _ _ _ (value-IsOk u f readable model chain) (λ ty. (_, refl))

  for_chains-IsOk :
      (check : FnStorage → StorageChain → Found)
      → ((f : FnStorage) → IsReadable f → (chain : StorageChain) → IsOk (check f chain))
      → (fns : List FnStorage) → All IsReadable fns
      → All (λ (f : FnStorage). IsOk (for_each (check f) f.chains)) fns
  for_chains-IsOk check each [] readable = tt
  for_chains-IsOk check each (f ∷ fns) (here, readable) = (
    for_each-IsOk (check f) f.chains
        (All-of (λ chain. IsOk (check f chain)) (each f here) f.chains),
    for_chains-IsOk check each fns readable,
  )

  module _ (model : FileModel) (readable : All IsReadable model.fns) where
    pub temporary_critical_type-IsOk : IsOk (temporary_critical_type u model)
    unfolding temporary_critical_type
    temporary_critical_type-IsOk = for_each-IsOk _ model.fns (
        for_chains-IsOk (check_critical u model) (λ f r chain. critical-IsOk f r model chain)
          model.fns readable)

    pub instance_storage_bloat-IsOk : IsOk (instance_storage_bloat u model)
    unfolding instance_storage_bloat
    instance_storage_bloat-IsOk = for_each-IsOk _ model.fns (
        for_chains-IsOk (check_bloat u model) (λ f r chain. bloat-IsOk f r model chain) model.fns
          readable)

-- A loop over checks that cannot fail.
pure-IsOk :
    {A : Type 0} (check : A → List RuleFinding) (items : List A)
    → IsOk (for_each (λ a. ok (check a)) items)
pure-IsOk check items = for_each-IsOk _ items (All-of _ (λ a. (check a, refl)) items)

pure_chains-IsOk :
    (check : StorageChain → List RuleFinding) (fns : List FnStorage)
    → IsOk (for_each (λ (f : FnStorage). for_each (λ chain. ok (check chain)) f.chains) fns)
pure_chains-IsOk check fns =
    for_each-IsOk _ fns (All-of _ (λ (f : FnStorage). pure-IsOk check f.chains) fns)

module _ (model : FileModel) where
  pub lifecycle_mismatch-IsOk : IsOk (lifecycle_mismatch model)
  unfolding lifecycle_mismatch
  lifecycle_mismatch-IsOk = pure_chains-IsOk _ model.fns

  pub missing_ttl_extension-IsOk : IsOk (missing_ttl_extension model)
  unfolding missing_ttl_extension
  missing_ttl_extension-IsOk = pure-IsOk check_ttl model.fns

  pub temporary_ttl_exceeded-IsOk : IsOk (temporary_ttl_exceeded model)
  unfolding temporary_ttl_exceeded
  temporary_ttl_exceeded-IsOk = pure_chains-IsOk _ model.fns

  pub persistent_ttl_exceeded-IsOk : IsOk (persistent_ttl_exceeded model)
  unfolding persistent_ttl_exceeded
  persistent_ttl_exceeded-IsOk = pure_chains-IsOk _ model.fns
