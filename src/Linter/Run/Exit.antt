-- ===== src/Linter/Run/Exit.antt =====
-- When crates/soroban-storage-lints/src/main.rs fails a run.
use soroban_storage_the_on_c.Prelude.{
  ◌≡◌, ◌↔◌, ◌⊎◌, inl, inr, refl, ap, Bool, true, false, not, ◌&&◌, ◌||◌, List, [], ◌∷◌, Elem, head,
  tail, ltb, Bool-cases, arith,
}
use soroban_storage_the_on_c.Linter.Rules.{Severity, error, warning}
use soroban_storage_the_on_c.Linter.Run.{LintOptions, Finding, is_error, count, failed, exit_code}

-- A finding that fails the run.
pub record IsBlocked (opts : LintOptions) (findings : List Finding) : Type 0 where
  pub finding : Finding
  pub reported : Elem finding findings
  pub blocking : (finding.severity ≡ error) ⊎ (opts.deny_warnings ≡ true)

or_true : (b : Bool) → (b || true) ≡ true
or_true true = refl
or_true false = refl

both_of : (a b : Bool) → (a && b) ≡ true → (a ≡ true) × (b ≡ true)
both_of true b q = (refl, q)
both_of false b q = cc

module _ (p : Severity → Bool) where
  pub count_of_element :
      (f : Finding) (fs : List Finding)
      → Elem f fs
      → p f.severity ≡ true
      → ltb 0 (count p fs) ≡ true
  count_of_element f [] e q = elim e [ ]
  count_of_element f (g ∷ fs) head q = rw q (ground arith)
  count_of_element f (g ∷ fs) (tail e) q = elim (Bool-cases (p g.severity)) [
    | inl here ↦ rw here (ground arith)
    | inr there ↦ rw there (count_of_element f fs e q)
  ]

  element_of_count :
      (fs : List Finding)
      → ltb 0 (count p fs) ≡ true
      → (f : Finding) × Elem f fs × (p f.severity ≡ true)
  element_of_count [] q = cc
  element_of_count (g ∷ fs) q = elim (Bool-cases (p g.severity)) [
    | inl here ↦ (g, head, here)
    | inr there ↦ let (f, e, q') = element_of_count fs (rw there at q) in (f, tail e, q')
  ]

error_of : (s : Severity) → is_error s ≡ true → s ≡ error
error_of error q = refl
error_of warning q = cc

module _ (opts : LintOptions) (findings : List Finding) where
  failed_if : IsBlocked opts findings → failed opts findings ≡ true
  unfolding failed
  failed_if b = elim b.blocking [
    | inl is_err ↦
        rw (count_of_element is_error b.finding findings b.reported (ap is_error is_err)) refl
    | inr deny ↦ elim (Bool-cases (is_error b.finding.severity)) [
      | inl q ↦ rw (count_of_element is_error b.finding findings b.reported q) refl
      | inr q ↦
          let counted =
            count_of_element (λ s. not (is_error s)) b.finding findings b.reported (ap not q) in
          rw (deny, counted) (or_true (ltb 0 (count is_error findings)))
    ]
  ]

  failed_by : failed opts findings ≡ true → IsBlocked opts findings
  unfolding failed
  failed_by q = elim (Bool-cases (ltb 0 (count is_error findings))) [
    | inl some_error ↦
        let (f, e, q') = element_of_count is_error findings some_error in
        record { finding = f; reported = e; blocking = inl (error_of f.severity q') }
    | inr no_error ↦
        let (denied, some_warning) = both_of _ _ (rw no_error at q) in
        let (f, e, q') = element_of_count (λ s. not (is_error s)) findings some_warning in
        record { finding = f; reported = e; blocking = inr denied }
  ]

  -- A run exits with 1 exactly if it has an error among its findings, or any finding where
  -- warnings are denied; with 0 in every other case.
  pub exit_code_iff :
      ((exit_code opts findings ≡ 1) ↔ IsBlocked opts findings)
      × ((exit_code opts findings ≡ 0) ↔ (¬ IsBlocked opts findings))
  unfolding exit_code
  exit_code_iff = elim (Bool-cases (failed opts findings)) [
    | inl q ↦
        rw q ((λ _. failed_by q, λ _. refl), (λ zero. cc, λ free. absurd (free (failed_by q))))
    | inr q ↦
        let free : ¬ IsBlocked opts findings = λ b. let q' = failed_if b in cc in
        rw q ((λ one. cc, λ b. absurd (free b)), (λ _. free, λ _. refl))
  ]
