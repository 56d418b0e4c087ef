-- ===== src/Restore/Main/Examples.antt =====
-- Witnesses of the theorems about the command, over the network of the planner's witnesses.
use soroban_storage_the_on_c.Prelude.{
  ℕ, zero, suc, ◌≡◌, refl, true, false, none, some, List, [], ◌∷◌, String, All, ok, err, str_eq,
  arith, if◌then◌else◌,
}
use soroban_storage_the_on_c.Restore.Planner.{pure}
use soroban_storage_the_on_c.Restore.Planner.Examples.{xdr, planner}
use soroban_storage_the_on_c.Restore.Command.{Args, parse_from}
use soroban_storage_the_on_c.Restore.Hex.{decode_hex32, decode_pairs, inside_character, utf8}
use soroban_storage_the_on_c.Restore.Hex.RoundTrip.{hex, IsByte, decode_hex32-hex}
use soroban_storage_the_on_c.Restore.Batch.{BatchContract, BatchResult, Services, run_contracts}
use soroban_storage_the_on_c.Restore.Batch.Results.{AllTagged, run_contracts-AllTagged}
use soroban_storage_the_on_c.Restore.Batch.DryRun.{other_services}
use soroban_storage_the_on_c.Restore.Main.{default_args, parse_args, main}
use soroban_storage_the_on_c.Restore.Main.DryRun.{main-dry_run}

abbrev pub repeated : ℕ → ℕ → List ℕ
repeated byte zero = []
repeated byte (suc n) = byte ∷ repeated byte n

repeated_bytes : (n : ℕ) → All IsByte (repeated 171 n)
repeated_bytes zero = tt
repeated_bytes (suc n) = (omega arith, repeated_bytes n)

decode_hex32-hex_example : decode_hex32 (hex (repeated 171 32)) ≡ ok (repeated 171 32)
decode_hex32-hex_example = decode_hex32-hex (repeated 171 32) refl (repeated_bytes 32)

-- A sign is taken for a digit, and a pair of digits that cuts a character panics.
sign_is_taken : decode_pairs (utf8 "+f") ≡ ok (15 ∷ [])
unfolding decode_pairs
sign_is_taken = refl

cut_character_panics : decode_pairs (utf8 "aé") ≡ err inside_character
unfolding decode_pairs
cut_character_panics = refl

abbrev services : Services ℕ String
services = record {
  connect = λ rpc_url. ok planner.rpc;
  verify_network = λ rpc_url passphrase. pure tt;
  xdr = xdr;
  clock = λ w. w;
  sign_envelope = λ transaction secret passphrase. ok "signed";
  account_from_secret = λ secret. ok [];
  decode_account_id = λ source. ok [];
  decode_contract_id =
      λ contract. if str_eq contract "bad" then err "invalid contract id" else ok [];
  read_config = λ path. err "no such file";
}

abbrev bad_and_good : List BatchContract
bad_and_good =
    (record { contract_id = "bad"; keys = []; wasm_hash = none })
    ∷ (record { contract_id = "good"; keys = []; wasm_hash = none })
    ∷ []

run_contracts-AllTagged_example :
    (results : List BatchResult) × (w' : ℕ) × (run_contracts services planner none "network" false
        bad_and_good 5
      ≡ (ok results, w'))
    × AllTagged services planner none "network" false bad_and_good 5 results w'
run_contracts-AllTagged_example =
    run_contracts-AllTagged services planner none "network" false bad_and_good 5
      ((ok none, refl), ((ok none, refl), tt))

abbrev argv : List String
argv =
    "--contract" ∷ "good" ∷ "--rpc-url" ∷ "url" ∷ "--network-passphrase" ∷ "network" ∷ "--source"
    ∷ "G" ∷ "--dry-run" ∷ []

abbrev parsed : Args
parsed = record default_args {
  contract = some "good";
  rpc_url = some "url";
  network_passphrase = some "network";
  source = some "G";
  dry_run = true;
}

main-dry_run_example :
    main
      (other_services
        (λ envelope. pure "other")
        (λ transaction secret passphrase. err "refused")
        services)
      (λ variable. none)
      (λ path w. (err "full", w))
      (λ path text w. (err "full", w))
      (λ report. ok "{}")
      (λ results. ok "[]")
      (λ dir contract. contract)
      argv
      5
    ≡ main services
        (λ variable. none)
        (λ path w. (ok tt, w))
        (λ path text w. (ok tt, w))
        (λ report. ok "{}")
        (λ results. ok "[]")
        (λ dir contract. contract)
        argv
        5
unfolding parse_args parse_from
main-dry_run_example =
    main-dry_run services (λ variable. none) (λ report. ok "{}") (λ results. ok "[]")
      (λ dir contract. contract) (λ path w. (ok tt, w)) (λ path w. (err "full", w))
      (λ path text w. (ok tt, w)) (λ path text w. (err "full", w)) (λ envelope. pure "other")
      (λ transaction secret passphrase. err "refused") argv parsed 5 refl refl
