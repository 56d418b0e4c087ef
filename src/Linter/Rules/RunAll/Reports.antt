-- ===== src/Linter/Rules/RunAll/Reports.antt =====
-- What a run of the rules of crates/soroban-storage-lints/src/rules.rs does not miss.
use mathlib.Core.Path.{subst}
use soroban_storage_the_on_c.Prelude.{
  ◌≡◌, ◌∙◌, refl, sym, ap, true, false, Option, some, List, [], ◌∷◌, ◌++◌, String, All, All-of,
  All-Elem, Elem, head, Elem-append_left, Bool-cases, inl, inr, ok, ◌>>=◌, bind-ok, IsOk,
}
use soroban_storage_the_on_c.Storage.Lifecycle.{temporary, same_lifecycle}
use soroban_storage_the_on_c.Linter.Decl.{StorageDecl}
use soroban_storage_the_on_c.Linter.Words.{Unicode}
use soroban_storage_the_on_c.Linter.Model.{StorageChain, FnStorage, FileModel, contains}
use soroban_storage_the_on_c.Linter.Resolve.{writes, key_variant, resolve_value_type}
use soroban_storage_the_on_c.Linter.Resolve.Readable.{IsReadable, value-IsOk}
use soroban_storage_the_on_c.Linter.Rules.{
  RuleFinding, Found, Reason, critical_data, declared_critical, value_reason, at_chain, error,
  decl_of_variant, check_critical, temporary_critical_type,
}
use soroban_storage_the_on_c.Linter.Rules.Loops.{both-ok, for_each-Elem, for_each-IsOk}
use soroban_storage_the_on_c.Linter.Rules.Total.{
  critical-IsOk, temporary_critical_type-IsOk, lifecycle_mismatch-IsOk, missing_ttl_extension-IsOk,
  instance_storage_bloat-IsOk, temporary_ttl_exceeded-IsOk, persistent_ttl_exceeded-IsOk,
}
use soroban_storage_the_on_c.Linter.Rules.RunAll.{Rule, run_rules, rules_of, run_all}

module _ (model : FileModel) (ignored : List String) where
  run_rules-IsOk :
      (rules : List Rule)
      → All (λ (r : Rule). IsOk (r.1 model)) rules
      → IsOk (run_rules rules model ignored)
  unfolding run_rules
  run_rules-IsOk [] fine = ([], refl)
  run_rules-IsOk ((name, rule) ∷ rules) ((found, q), fine) =
      let (more, q') = run_rules-IsOk rules fine in
      elim (Bool-cases (contains ignored name)) [
        | inl skip ↦ (more, rw skip q')
        | inr go ↦ (found ++ more, rw go (both-ok _ _ found more q q'))
      ]

  -- The first rule, not ignored, adds what it finds.
  run_rules-Elem :
      (name : String) (rule : FileModel → Found) (rules : List Rule) (found out : List RuleFinding)
      (x : RuleFinding)
      → contains ignored name ≡ false
      → rule model ≡ ok found
      → Elem x found
      → run_rules ((name, rule) ∷ rules) model ignored ≡ ok out
      → Elem x out
  unfolding run_rules
  run_rules-Elem name rule rules found out x go q e q' =
      let opened : run_rules ((name, rule) ∷ rules) model ignored
          ≡ (rule model >>= λ xs. run_rules rules model ignored >>= λ ys. ok (xs ++ ys)) =
        rw go refl in
      let (found', q1, q2) = bind-ok (rule model) _ (sym opened ∙ q') in
      let (more, q3, q4) = bind-ok (run_rules rules model ignored) _ q2 in
      let same : found' ≡ found = cc in
      let both : found' ++ more ≡ out = cc in
      subst (Elem x) both (Elem-append_left found' more (subst (Elem x) (sym same) e))

-- No rule panics where every name of every function has a type whose first `<` stands before its
-- last `>`: the run returns its findings, whatever the file's calls and declarations are.
pub run_all-IsOk :
    (u : Unicode) (model : FileModel) (ignored : List String)
    → All IsReadable model.fns
    → IsOk (run_all u model ignored)
unfolding run_all
run_all-IsOk u model ignored readable = run_rules-IsOk model ignored (rules_of u) (
  temporary_critical_type-IsOk u model readable,
  (
    lifecycle_mismatch-IsOk model,
    (
      missing_ttl_extension-IsOk model,
      (
        instance_storage_bloat-IsOk u model readable,
        (temporary_ttl_exceeded-IsOk model, (persistent_ttl_exceeded-IsOk model, tt)),
      ),
    ),
  ),
)

module _ (u : Unicode) (model : FileModel) (f : FnStorage) (chain : StorageChain)
    (decl : StorageDecl) where
  -- The finding about one write.
  check_critical-finds :
      (ty : Option String)
      → resolve_value_type u chain f model ≡ ok ty
      → same_lifecycle chain.lifecycle temporary ≡ true
      → writes chain.method ≡ true
      → decl_of_variant (key_variant chain) model ≡ some decl
      → decl.critical ≡ true
      → check_critical u model f chain
        ≡ ok (
            at_chain "temporary_critical_type" error chain
              (critical_data (declared_critical decl.variant ∷ value_reason u model ty))
            ∷ [])
  unfolding check_critical
  check_critical-finds ty q own written declared critical =
      rw (own, written, ◌>>=◌, q, declared, critical) refl

  -- A write through temporary storage to a key that the `storage!` schema declares critical is
  -- always reported: in a file whose types are readable, the run succeeds, and an error at the
  -- position of the write is among its findings, unless the rule is ignored.
  pub run_all-reports_critical :
      (ignored : List String)
      → All IsReadable model.fns
      → Elem f model.fns
      → Elem chain f.chains
      → chain.lifecycle ≡ temporary
      → writes chain.method ≡ true
      → decl_of_variant (key_variant chain) model ≡ some decl
      → decl.critical ≡ true
      → contains ignored "temporary_critical_type" ≡ false
      → (out : List RuleFinding) × (run_all u model ignored ≡ ok out)
        × (reasons : List Reason) × Elem
            (at_chain "temporary_critical_type" error chain (critical_data reasons))
            out
  unfolding run_all temporary_critical_type
  run_all-reports_critical ignored readable in_file in_fn temp written declared critical go =
      let (out, q) = run_all-IsOk u model ignored readable in
      let (found, q1) = temporary_critical_type-IsOk u model readable in
      let own = All-Elem IsReadable model.fns readable in_file in
      let (ty, q2) = value-IsOk u f own model chain in
      let finds =
        check_critical-finds ty q2 (ap (λ lc. same_lifecycle lc temporary) temp) written declared
          critical in
      let (of_f, q3) =
        for_each-IsOk (check_critical u model f) f.chains
          (All-of _ (critical-IsOk u f own model) f.chains) in
      let in_of_f =
        for_each-Elem (check_critical u model f) chain f.chains of_f _ _ q3 in_fn finds head in
      let in_found = for_each-Elem _ f model.fns found of_f _ q1 in_file q3 in_of_f in
      (
        out,
        q,
        declared_critical decl.variant ∷ value_reason u model ty,
        run_rules-Elem model ignored _ _ _ found out _ go q1 in_found q,
      )
