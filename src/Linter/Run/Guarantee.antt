-- ===== src/Linter/Run/Guarantee.antt =====
-- From the source of a file to the exit code of crates/soroban-storage-lints/src/main.rs.
use mathlib.Core.Path.{subst}
use mathlib.Core.List.{flatten}
use soroban_storage_the_on_c.Prelude.{
  ◌≡◌, refl, sym, inl, true, false, Option, some, List, [], String, map, All, Elem, Elem-map, ok,
  ◌>>=◌,
}
use soroban_storage_the_on_c.Storage.Lifecycle.{temporary}
use soroban_storage_the_on_c.Linter.Decl.{StorageDecl}
use soroban_storage_the_on_c.Linter.Words.{Unicode}
use soroban_storage_the_on_c.Linter.Model.{StorageChain, contains}
use soroban_storage_the_on_c.Linter.Resolve.{writes, key_variant}
use soroban_storage_the_on_c.Linter.Resolve.Readable.{IsReadable}
use soroban_storage_the_on_c.Linter.Rules.{
  RuleFinding, error, at_chain, critical_data, decl_of_variant,
}
use soroban_storage_the_on_c.Linter.Rules.RunAll.{run_all}
use soroban_storage_the_on_c.Linter.Rules.RunAll.Reports.{run_all-reports_critical}
use soroban_storage_the_on_c.Linter.Visitor.Reference.{chains_in_block}
use soroban_storage_the_on_c.Linter.Visitor.Collected.{scan_fn-collect}
use soroban_storage_the_on_c.Linter.Scan.{Item, FnItem, scan_item_fn, scan_file, collect_bindings}
use soroban_storage_the_on_c.Linter.Scan.Functions.{fns_of, scan_file-fns}
use soroban_storage_the_on_c.Linter.Run.{
  LintOptions, Finding, in_context, lines, lint_source, exit_code,
}
use soroban_storage_the_on_c.Linter.Run.Exit.{exit_code_iff}

module _ (u : Unicode) (parse_file : String → Option (List Item)) (path source : String)
    (opts : LintOptions) (file : List Item) (f : FnItem) (self_type : Option String)
    (chain : StorageChain) (decl : StorageDecl) where
  lint_source-eq :
      (out : List RuleFinding)
      → parse_file source ≡ some file
      → run_all u (scan_file u file) opts.ignored_rules ≡ ok out
      → lint_source u parse_file path source opts ≡ ok (map (in_context u path (lines source)) out)
  unfolding lint_source
  lint_source-eq out parsed q = rw (lint_source, parsed, q, ◌>>=◌) refl

  -- If the file parses, its types are readable, and one of its top-level functions or of the methods
  -- of its implementations has, however deep in its body, a writing method call on a receiver along
  -- which `storage` is called and `temporary` is the lifecycle named nearest, and the linter reads in
  -- the file's `storage!` that the key of the call is critical, then the run succeeds, an error at
  -- the position of the call is among its findings, and the exit code is 1, unless the rule is
  -- ignored.
  pub lint_source-reports_critical :
      parse_file source ≡ some file
      → All IsReadable (scan_file u file).fns
      → Elem (scan_item_fn u f self_type) (flatten (map (fns_of u) file))
      → Elem chain (chains_in_block false f.body)
      → chain.lifecycle ≡ temporary
      → writes chain.method ≡ true
      → decl_of_variant (key_variant chain) (scan_file u file) ≡ some decl
      → decl.critical ≡ true
      → contains opts.ignored_rules "temporary_critical_type" ≡ false
      → (findings : List Finding) × (lint_source u parse_file path source opts ≡ ok findings)
        × ((finding : Finding) × Elem finding findings
            × (finding.severity ≡ error)
            × (finding.path ≡ path)
            × (finding.line ≡ chain.line)
            × (finding.column ≡ chain.column))
        × (exit_code opts findings ≡ 1)
  lint_source-reports_critical parsed readable in_file in_body temp written declared critical go =
      let s = scan_item_fn u f self_type in
      let in_fns = subst (Elem s) (sym (scan_file-fns u file)) in_file in
      let chains = (scan_fn-collect f.body (collect_bindings u f []) self_type).0 in
      let in_chains = subst (Elem chain) (sym chains) in_body in
      let (out, q, reasons, e) =
        run_all-reports_critical u (scan_file u file) s chain decl opts.ignored_rules readable
          in_fns in_chains temp written declared critical go in
      let g = in_context u path (lines source) in
      let rf = at_chain "temporary_critical_type" error chain (critical_data reasons) in
      let here = Elem-map g out e in
      (
        map g out,
        lint_source-eq out parsed q,
        (g rf, here, refl, refl, refl, refl),
        (exit_code_iff opts (map g out)).0.1
            (record { finding = g rf; reported = here; blocking = inl refl }),
      )
