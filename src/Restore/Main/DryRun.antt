-- ===== src/Restore/Main/DryRun.antt =====
-- A dry run of the whole command of crates/soroban-restore-planner/src/main.rs.
use soroban_storage_the_on_c.Prelude.{
  ◌≡◌, ◌∙◌, refl, sym, ap, true, false, ◌&&◌, Option, some, none, List, String, Bool-cases, inl,
  inr, Result, ok, err,
}
use soroban_storage_the_on_c.Restore.Plan.{Transaction}
use soroban_storage_the_on_c.Restore.Planner.{Run}
use soroban_storage_the_on_c.Restore.Command.{Args, ArgsError, Report, parse_from}
use soroban_storage_the_on_c.Restore.Batch.{BatchResult, Services, Panic, run_batch, run_single}
use soroban_storage_the_on_c.Restore.Batch.DryRun.{other_services, dry_run-eq}
use soroban_storage_the_on_c.Restore.Main.{
  default_args, with_variables, refuse_both, check_args, parse_args, single_exit, batch_exit,
  run_mode, main,
}

-- The arguments that are taken for a dry run do not submit.
refuse_both-no_submit :
    (given args : Args) → refuse_both given ≡ ok args → args.dry_run ≡ true → args.submits ≡ false
refuse_both-no_submit given args q dry = elim (Bool-cases (given.dry_run && given.submits)) [
  | inl both ↦ let q' = rw both at q in cc
  | inr not_both ↦
      let same : given ≡ args = let q' = rw not_both at q in cc in
      let dry' : given.dry_run ≡ true = ap (λ (a : Args). a.dry_run) same ∙ dry in
      ap (λ (a : Args). a.submits) (sym same) ∙ rw dry' at not_both
]

check_args-no_submit :
    (variable : String → Option String) (parsed : Result ArgsError Args) (args : Args)
    → check_args variable parsed ≡ ok args
    → args.dry_run ≡ true
    → args.submits ≡ false
check_args-no_submit variable (err e) args q dry = cc
check_args-no_submit variable (ok given) args q dry =
    refuse_both-no_submit (with_variables variable given) args q dry

module _ {W Key : Type 0} (s : Services W Key) (variable : String → Option String)
    (serialize_report : Report → Result String String)
    (serialize_results : List BatchResult → Result String String) (join : String → String → String)
    (create create' : String → W → Result String Unit × W)
    (write write' : String → String → W → Result String Unit × W) where
  single_exit-eq :
      (s' : Services W Key) (args : Args) (r : Result Panic (Result String Report) × W)
      → args.dry_run ≡ true
      → single_exit s' variable create' write' serialize_report serialize_results args r
        ≡ single_exit s variable create write serialize_report serialize_results args r
  single_exit-eq s' args (err panic, w) dry = refl
  single_exit-eq s' args (ok (err e), w) dry = refl
  single_exit-eq s' args (ok (ok report), w) dry = rw dry refl

  batch_exit-eq :
      (s' : Services W Key) (args : Args) (r : Result Panic (Result String (List BatchResult)) × W)
      → args.dry_run ≡ true
      → batch_exit s' variable create' write' serialize_report serialize_results join args r
        ≡ batch_exit s variable create write serialize_report serialize_results join args r
  batch_exit-eq s' args (err panic, w) dry = refl
  batch_exit-eq s' args (ok (err e), w) dry = refl
  batch_exit-eq s' args (ok (ok results), w) dry = rw dry refl

  module _ (submit' : String → Run W String)
      (sign' : Transaction Key → String → String → Result String String) where
    mode-eq :
        (config : Option String) (args : Args) (w : W)
        → args.dry_run ≡ true
        → args.submits ≡ false
        → run_mode
            (other_services submit' sign' s)
            variable
            create'
            write'
            serialize_report
            serialize_results
            join
            config
            args
            w
          ≡ run_mode s variable create write serialize_report serialize_results join config args w
    mode-eq none args w dry no_submit =
        ap
          (single_exit (other_services submit' sign' s) variable create' write' serialize_report
            serialize_results args)
          (dry_run-eq submit' sign' s args w dry no_submit).1
        ∙ single_exit-eq (other_services submit' sign' s) args (run_single s args w) dry
    mode-eq (some path) args w dry no_submit =
        ap
          (batch_exit (other_services submit' sign' s) variable create' write' serialize_report
            serialize_results join args)
          (dry_run-eq submit' sign' s args w dry no_submit).0
        ∙ batch_exit-eq (other_services submit' sign' s) args (run_batch s args w) dry

  -- A dry run leaves everything alone: where the arguments parse and ask for a dry run, neither
  -- the exit code nor what the run does to the world depends on how an envelope is signed or
  -- submitted, on how a file is written or on how a directory is created.
  pub main-dry_run :
      (submit' : String → Run W String)
      (sign' : Transaction Key → String → String → Result String String) (argv : List String)
      (args : Args) (w : W)
      → parse_args variable argv ≡ ok args
      → args.dry_run ≡ true
      → main
          (other_services submit' sign' s)
          variable
          create'
          write'
          serialize_report
          serialize_results
          join
          argv
          w
        ≡ main s variable create write serialize_report serialize_results join argv w
  unfolding main parse_args
  main-dry_run submit' sign' argv args w parsed dry = rw parsed (
      mode-eq submit' sign' args.config args w dry
        (check_args-no_submit variable (parse_from default_args argv) args parsed dry))
