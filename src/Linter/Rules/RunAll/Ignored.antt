-- ===== src/Linter/Rules/RunAll/Ignored.antt =====
-- What `--ignore` does to a run of the rules of crates/soroban-storage-lints/src/rules.rs.
use soroban_storage_the_on_c.Prelude.{
  ◌≡◌, ◌∙◌, refl, sym, ap, true, false, not, List, [], ◌∷◌, ◌++◌, String, All, keep_if, Bool-cases,
  inl, inr, ok, bind-ok, if◌then◌else◌,
}
use soroban_storage_the_on_c.Linter.Words.{Unicode}
use soroban_storage_the_on_c.Linter.Model.{FileModel, contains}
use soroban_storage_the_on_c.Linter.Rules.{RuleFinding}
use soroban_storage_the_on_c.Linter.Rules.Named.{
  AllNamed, ReportsAs, temporary_critical_type-ReportsAs, lifecycle_mismatch-ReportsAs,
  missing_ttl_extension-ReportsAs, instance_storage_bloat-ReportsAs,
  temporary_ttl_exceeded-ReportsAs, persistent_ttl_exceeded-ReportsAs,
}
use soroban_storage_the_on_c.Linter.Rules.Loops.{both-ok}
use soroban_storage_the_on_c.Linter.Rules.RunAll.{Rule, run_rules, run_all}

-- The findings of the rules that are not ignored.
abbrev pub kept : List String → List RuleFinding → List RuleFinding
kept ignored = keep_if (λ (f : RuleFinding). not (contains ignored f.rule))

kept-append :
    (ignored : List String) (xs ys : List RuleFinding)
    → kept ignored (xs ++ ys) ≡ kept ignored xs ++ kept ignored ys
kept-append ignored [] ys = refl
kept-append ignored (f ∷ xs) ys = elim (Bool-cases (contains ignored f.rule)) [
  | inl q ↦ rw q (kept-append ignored xs ys)
  | inr q ↦ rw q (ap (λ r. f ∷ r) (kept-append ignored xs ys))
]

kept-AllNamed :
    (ignored : List String) (name : String) (xs : List RuleFinding)
    → AllNamed name xs
    → kept ignored xs ≡ (if contains ignored name then [] else xs)
kept-AllNamed ignored name [] named = elim (Bool-cases (contains ignored name)) [
  | inl q ↦ rw q refl
  | inr q ↦ rw q refl
]
kept-AllNamed ignored name (f ∷ xs) (here, named) = elim (Bool-cases (contains ignored name)) [
  | inl q ↦
      let own : contains ignored f.rule ≡ true = ap (contains ignored) here ∙ q in
      rw (own, q) (kept-AllNamed ignored name xs named ∙ rw q refl)
  | inr q ↦
      let own : contains ignored f.rule ≡ false = ap (contains ignored) here ∙ q in
      rw (own, q) (ap (λ r. f ∷ r) (kept-AllNamed ignored name xs named ∙ rw q refl))
]

module _ (model : FileModel) (ignored : List String) where
  run_rules-kept :
      (rules : List Rule) (all : List RuleFinding)
      → All ReportsAs rules
      → run_rules rules model [] ≡ ok all
      → run_rules rules model ignored ≡ ok (kept ignored all)
  unfolding run_rules
  run_rules-kept [] all named q = let done : [] ≡ all = cc in rw (sym done) refl
  run_rules-kept ((name, rule) ∷ rules) all (reports, named) q =
      let (found, q1, q') = bind-ok (rule model) _ q in
      let (more, q2, q3) = bind-ok (run_rules rules model []) _ q' in
      let both : found ++ more ≡ all = cc in
      let split : kept ignored all ≡ kept ignored found ++ kept ignored more =
        ap (kept ignored) (sym both) ∙ kept-append ignored found more in
      let own = kept-AllNamed ignored name found (reports model found q1) in
      let rest = run_rules-kept rules more named q2 in
      elim (Bool-cases (contains ignored name)) [
        | inl skip ↦ rw (split, own, skip, rest) refl
        | inr go ↦ rw (split, own, go) (both-ok _ _ found (kept ignored more) q1 rest)
      ]

-- Ignoring rules takes out exactly what is reported under their names, and keeps the order of the
-- rest: if the run of all rules succeeds, the run without the ignored ones returns its findings
-- less those of the ignored rules.
pub run_all-kept :
    (u : Unicode) (model : FileModel) (ignored : List String) (all : List RuleFinding)
    → run_all u model [] ≡ ok all
    → run_all u model ignored ≡ ok (kept ignored all)
unfolding run_all
run_all-kept u model ignored all q =
    run_rules-kept model ignored _ all
      (
        temporary_critical_type-ReportsAs u,
        (
          lifecycle_mismatch-ReportsAs,
          (
            missing_ttl_extension-ReportsAs,
            (
              instance_storage_bloat-ReportsAs u,
              (temporary_ttl_exceeded-ReportsAs, (persistent_ttl_exceeded-ReportsAs, tt)),
            ),
          ),
        ),
      )
      q
