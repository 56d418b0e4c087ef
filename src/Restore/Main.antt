-- ===== src/Restore/Main.antt =====
-- crates/soroban-restore-planner/src/main.rs: the whole command, from its arguments to its exit
-- code. The environment's variables, the files and the JSON text are parameters; what is printed is
-- left out.
pub mod DryRun
pub mod Examples
use soroban_storage_the_on_c.Prelude.{
  ℕ, ◌+◌, Bool, true, false, not, ◌&&◌, Option, none, some, List, [], ◌∷◌, ◌++◌, String, any,
  length, is_empty, ◌==◌, if◌then◌else◌, Result, ok, err,
}
use soroban_storage_the_on_c.Restore.Command.{
  Args, ArgsError, help, dry_run_with_submit, Report, parse_from,
}
use soroban_storage_the_on_c.Restore.Batch.{
  BatchResult, Services, Panic, run_batch, run_single, or_else,
}

abbrev pub default_args : Args
default_args = record {
  contract = none;
  config = none;
  rpc_url = none;
  network_passphrase = none;
  source = none;
  signer_secret = none;
  keys = [];
  wasm_hash = none;
  submits = false;
  dry_run = false;
  out = none;
  json = false;
}

-- `get_or_insert`, for the three variables.
abbrev pub with_variables : (variable : String → Option String) → Args → Args
with_variables variable args = record args {
  rpc_url = or_else args.rpc_url (variable "SOROBAN_RPC_URL");
  network_passphrase = or_else args.network_passphrase (variable "SOROBAN_NETWORK_PASSPHRASE");
  signer_secret = or_else args.signer_secret (variable "SOROBAN_SIGNER_SECRET");
}

abbrev pub refuse_both : Args → Result ArgsError Args
refuse_both args = if args.dry_run && args.submits then err dry_run_with_submit else ok args

abbrev pub check_args :
    (variable : String → Option String) → Result ArgsError Args → Result ArgsError Args
check_args variable (err e) = err e
check_args variable (ok args) = refuse_both (with_variables variable args)

unfoldable pub parse_args :
    (variable : String → Option String) → List String → Result ArgsError Args
parse_args variable argv = check_args variable (parse_from default_args argv)

abbrev pub exit_nothing_to_restore : ℕ
exit_nothing_to_restore = 3

abbrev pub archived_in : Option Report → ℕ
archived_in none = 0
archived_in (some report) = length report.archived

abbrev pub total_archived : List BatchResult → ℕ
total_archived [] = 0
total_archived (r ∷ results) = archived_in r.report + total_archived results

-- The end of `run_batch_main`.
unfoldable pub batch_code : Args → List BatchResult → ℕ
batch_code args results =
    if any (λ (r : BatchResult). not r.is_ok) results
    then 1
    else if args.dry_run && total_archived results == 0
    then exit_nothing_to_restore
    else 0

-- The end of `main` for one contract.
unfoldable pub single_code : Args → Report → ℕ
single_code args report =
    if args.dry_run && is_empty report.archived then exit_nothing_to_restore else 0

module _ {W Key : Type 0} (s : Services W Key) (variable : String → Option String)
    (create_dir_all : String → W → Result String Unit × W)
    (write : String → String → W → Result String Unit × W)
    (serialize_report : Report → Result String String)
    (serialize_results : List BatchResult → Result String String) where
  -- An exit code, or the panic that ends the process.
  abbrev pub Exited : Type 0
  Exited = Result Panic ℕ × W

  abbrev pub fails_or : Result String Unit × W → (W → Exited) → Exited
  fails_or (err e, w) next = (ok 1, w)
  fails_or (ok u, w) next = next w

  abbrev pub printed : Bool → Result String String → ℕ → W → Exited
  printed true (err e) code w = (ok 1, w)
  printed true (ok text) code w = (ok code, w)
  printed false text code w = (ok code, w)

  abbrev pub write_out : Bool → Option String → String → W → Result String Unit × W
  write_out true out text w = (ok tt, w)
  write_out false none text w = (ok tt, w)
  write_out false (some path) text w = write path text w

  abbrev pub single_exit : Args → Result Panic (Result String Report) × W → Exited
  single_exit args (err panic, w) = (err panic, w)
  single_exit args (ok (err e), w) = (ok 1, w)
  single_exit args (ok (ok report), w) =
      fails_or (write_out args.dry_run args.out report.unsigned_transaction_xdr w)
        (printed args.json (serialize_report report) (single_code args report))

  module _ (join : String → String → String) where
    -- `write_batch_envelopes`, behind the creation of the directory: what was submitted or failed
    -- is passed over.
    abbrev pub then_write :
        Result String Unit × W → (W → Result String Unit × W) → Result String Unit × W
    then_write (err e, w) next = (err e, w)
    then_write (ok u, w) next = next w

    abbrev pub envelope_of : Option Report → Option String
    envelope_of none = none
    envelope_of (some report) = elim report.submitted_tx_hash [
      | some hash ↦ none
      | none ↦ some report.unsigned_transaction_xdr
    ]

    abbrev pub write_some : Option String → String → W → Result String Unit × W
    write_some none path w = (ok tt, w)
    write_some (some text) path w = write path text w

    abbrev pub write_all : String → List BatchResult → W → Result String Unit × W
    write_all dir [] w = (ok tt, w)
    write_all dir (r ∷ results) w =
        then_write (write_some (envelope_of r.report) (join dir r.contract) w)
          (write_all dir results)

    unfoldable pub write_batch_envelopes : String → List BatchResult → W → Result String Unit × W
    write_batch_envelopes dir results w = then_write (create_dir_all dir w) (write_all dir results)

    abbrev pub write_batch_out :
        Bool → Option String → List BatchResult → W → Result String Unit × W
    write_batch_out true out results w = (ok tt, w)
    write_batch_out false none results w = (ok tt, w)
    write_batch_out false (some dir) results w = write_batch_envelopes dir results w

    abbrev pub batch_exit : Args → Result Panic (Result String (List BatchResult)) × W → Exited
    batch_exit args (err panic, w) = (err panic, w)
    batch_exit args (ok (err e), w) = (ok 1, w)
    batch_exit args (ok (ok results), w) =
        fails_or (write_batch_out args.dry_run args.out results w)
          (printed args.json (serialize_results results) (batch_code args results))

    abbrev pub run_batch_main : Args → W → Exited
    run_batch_main args w = batch_exit args (run_batch s args w)

    -- A batch where there is a configuration, and one contract where there is none.
    abbrev pub run_mode : Option String → Args → W → Exited
    run_mode (some path) args w = run_batch_main args w
    run_mode none args w = single_exit args (run_single s args w)

    abbrev pub main_with : Result ArgsError Args → W → Exited
    main_with (err help) w = (ok 0, w)
    main_with (err e) w = (ok 2, w)
    main_with (ok args) w = run_mode args.config args w

    unfoldable pub main : List String → W → Exited
    main argv = main_with (parse_args variable argv)
