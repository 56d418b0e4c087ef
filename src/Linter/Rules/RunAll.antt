-- ===== src/Linter/Rules/RunAll.antt =====
-- `run_all` of crates/soroban-storage-lints/src/rules.rs.
pub mod Ignored
pub mod Reports
use soroban_storage_the_on_c.Prelude.{
  List, [], ◌∷◌, ◌++◌, String, if◌then◌else◌, Result, ok, err, ◌>>=◌,
}
use soroban_storage_the_on_c.Linter.Words.{Unicode}
use soroban_storage_the_on_c.Linter.Model.{FileModel, contains}
use soroban_storage_the_on_c.Linter.Rules.{
  Found, temporary_critical_type, lifecycle_mismatch, missing_ttl_extension, instance_storage_bloat,
  temporary_ttl_exceeded, persistent_ttl_exceeded,
}

abbrev pub Rule : Type 0
Rule = String × (FileModel → Found)

-- The loop of `run_all`.
unfoldable pub run_rules : List Rule → FileModel → List String → Found
run_rules [] model ignored = ok []
run_rules ((name, rule) ∷ rules) model ignored =
    let rest = run_rules rules model ignored in
    if contains ignored name
    then rest
    else (do findings ← rule model; more ← rest; ok (findings ++ more))

abbrev pub rules_of : Unicode → List Rule
rules_of u =
    ("temporary_critical_type", temporary_critical_type u)
    ∷ ("lifecycle_mismatch", lifecycle_mismatch)
    ∷ ("missing_ttl_extension", missing_ttl_extension)
    ∷ ("instance_storage_bloat", instance_storage_bloat u)
    ∷ ("temporary_ttl_exceeded", temporary_ttl_exceeded)
    ∷ ("persistent_ttl_exceeded", persistent_ttl_exceeded)
    ∷ []

unfoldable pub run_all : Unicode → FileModel → List String → Found
run_all u model ignored = run_rules (rules_of u) model ignored
