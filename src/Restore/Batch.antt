-- ===== src/Restore/Batch.antt =====
-- crates/soroban-restore-planner/src/main.rs: a run on one contract, and on a list of them. The
-- configuration's file, the strkeys, the signature and the connection are parameters.
pub mod DryRun
pub mod Results
use soroban_storage_the_on_c.Prelude.{
  ℕ, ◌+◌, Bool, true, false, not, ◌&&◌, ◌||◌, Option, none, some, List, [], ◌∷◌, String, any,
  length, is_empty, ◌==◌, if◌then◌else◌, Result, ok, err,
}
use soroban_storage_the_on_c.Prelude
use soroban_storage_the_on_c.Restore.Plan.{Candidate, Transaction, Xdr}
use soroban_storage_the_on_c.Restore.Planner.{Run, ◌>>=◌, pure, lift, Rpc, Planner, candidates}
use soroban_storage_the_on_c.Restore.Command.{Args, Report, plan_contract}
use soroban_storage_the_on_c.Restore.Hex.{
  HexFault, wrong_length, invalid_hex, inside_character, decode_hex32, utf8,
}

pub record BatchContract : Type 0 where
  pub contract_id : String
  pub keys : List String
  pub wasm_hash : Option String

pub record BatchConfig : Type 0 where
  pub rpc_url : String
  pub network_passphrase : String
  pub source : Option String
  pub signer_secret : Option String
  pub submits : Bool
  pub contracts : List BatchContract

pub record BatchResult : Type 0 where
  pub contract : String
  pub is_ok : Bool
  pub report : Option Report
  pub failure : Option String

pub record Services (W Key : Type 0) : Type 0 where
  pub connect : String → Result String (Rpc W Key)
  pub verify_network : (rpc_url passphrase : String) → Run W Unit
  pub xdr : Xdr Key
  pub clock : W → ℕ
  pub sign_envelope : Transaction Key → String → String → Result String String
  pub account_from_secret : String → Result String (List ℕ)
  pub decode_account_id : String → Result String (List ℕ)
  pub decode_contract_id : String → Result String (List ℕ)
  pub read_config : String → Result String BatchConfig

-- The panic in `decode_hex32`, which ends the process.
pub data Panic : Type 0 where
  cut_character : Panic

-- A run that may panic.
abbrev pub Guarded : Type 0 → Type 0 → Type 0
Guarded W A = W → Result Panic (Result String A) × W

abbrev pub without_panic : {W A : Type 0} → Result String A × W → Result Panic (Result String A) × W
without_panic (r, w) = (ok r, w)

-- `match &wasm_hash { Some(hex) => Some(decode_hex32(hex)?), None => None }`
abbrev pub hash_of : Result HexFault (List ℕ) → Result Panic (Result String (Option (List ℕ)))
hash_of (ok hash) = ok (ok (some hash))
hash_of (err (wrong_length n)) = ok (err "expected 64 hex characters")
hash_of (err invalid_hex) = ok (err "invalid hex in wasm hash")
hash_of (err inside_character) = err cut_character

abbrev pub decode_wasm : Option String → Result Panic (Result String (Option (List ℕ)))
decode_wasm none = ok (ok none)
decode_wasm (some hex) = hash_of (decode_hex32 (utf8 hex))

abbrev pub or_else : {A : Type 0} → Option A → Option A → Option A
or_else none b = b
or_else (some a) b = some a

abbrev pub unwrap_or : {A : Type 0} → Option A → A → A
unwrap_or none b = b
unwrap_or (some a) b = a

abbrev pub required : Option String → String → Result String String
required none message = err message
required (some value) message = ok value

module _ {W Key : Type 0} (s : Services W Key) where
  -- The signer's account wins when there is a secret.
  unfoldable pub resolve_source : Option String → Option String → Result String (List ℕ)
  resolve_source (some secret) source = s.account_from_secret secret
  resolve_source none none = err "--source (or config source) is required"
  resolve_source none (some source) = s.decode_account_id source

  abbrev pub planner_on : Rpc W Key → List ℕ → Planner W Key
  planner_on rpc source = record { rpc = rpc; source = source; xdr = s.xdr; clock = s.clock }

  -- What is done for a contract with its id and its hash.
  abbrev pub plan_decoded :
      Planner W Key
      → String
      → List String
      → Option String
      → String
      → Bool
      → List ℕ
      → Option (List ℕ)
      → Run W Report
  plan_decoded p contract keys secret passphrase submits id wasm = do
    found ← candidates p id keys wasm
    plan_contract p s.sign_envelope contract found secret passphrase submits

  abbrev pub plan_hashed :
      Planner W Key
      → String
      → List String
      → Option String
      → String
      → Bool
      → List ℕ
      → Result Panic (Result String (Option (List ℕ)))
      → Guarded W Report
  plan_hashed p contract keys secret passphrase submits id (err panic) w = (err panic, w)
  plan_hashed p contract keys secret passphrase submits id (ok (err e)) w = (ok (err e), w)
  plan_hashed p contract keys secret passphrase submits id (ok (ok wasm)) w =
      without_panic (plan_decoded p contract keys secret passphrase submits id wasm w)

  -- The body of the loop over the contracts, up to its outcome.
  abbrev pub plan_listed :
      Planner W Key
      → Option String
      → String
      → Bool
      → BatchContract
      → Result String (List ℕ)
      → Guarded W Report
  plan_listed p secret passphrase submits c (err e) w = (ok (err e), w)
  plan_listed p secret passphrase submits c (ok id) w =
      plan_hashed p c.contract_id c.keys secret passphrase submits id (decode_wasm c.wasm_hash) w

  abbrev pub result_of : String → Result String Report → BatchResult
  result_of contract (ok report) = record {
    contract = contract;
    is_ok = true;
    report = some report;
    failure = none;
  }
  result_of contract (err error) = record {
    contract = contract;
    is_ok = false;
    report = none;
    failure = some error;
  }

  abbrev pub Results : Type 0
  Results = Result Panic (List BatchResult) × W

  abbrev pub push_result : BatchResult → Results → Results
  push_result result (err panic, w) = (err panic, w)
  push_result result (ok results, w) = (ok (result ∷ results), w)

  abbrev pub after_contract :
      String → Result Panic (Result String Report) × W → (W → Results) → Results
  after_contract contract (err panic, w) rest = (err panic, w)
  after_contract contract (ok outcome, w) rest = push_result (result_of contract outcome) (rest w)

  unfoldable pub run_contracts :
      Planner W Key → Option String → String → Bool → List BatchContract → W → Results
  run_contracts p secret passphrase submits [] w = (ok [], w)
  run_contracts p secret passphrase submits (c ∷ cs) w =
      after_contract c.contract_id
        (plan_listed p secret passphrase submits c (s.decode_contract_id c.contract_id) w)
        (run_contracts p secret passphrase submits cs)

  -- What a run of the command comes to: a panic, an error, or a value.
  abbrev pub Outcome : Type 0 → Type 0
  Outcome A = Result Panic (Result String A) × W

  abbrev pub finished : Results → Outcome (List BatchResult)
  finished (err panic, w) = (err panic, w)
  finished (ok results, w) = (ok (ok results), w)

  -- `rpc.verify_network(…)?` and what comes after it.
  abbrev pub verified : {A : Type 0} → Result String Unit × W → (W → Outcome A) → Outcome A
  verified (err e, w) next = (ok (err e), w)
  verified (ok u, w) next = next w

  abbrev pub connected :
      {A : Type 0}
      → Result String (Rpc W Key)
      → String
      → String
      → (Rpc W Key → W → Outcome A)
      → W
      → Outcome A
  connected (err e) rpc_url passphrase next w = (ok (err e), w)
  connected (ok rpc) rpc_url passphrase next w =
      verified (s.verify_network rpc_url passphrase w) (next rpc)

  -- Where an argument or a decoding may fail before the network is asked.
  abbrev pub checked : {A B : Type 0} → Result String A → (A → W → Outcome B) → W → Outcome B
  checked (err e) next w = (ok (err e), w)
  checked (ok a) next w = next a w

  unfoldable pub run_with_config : Args → BatchConfig → W → Outcome (List BatchResult)
  unfolding run_contracts resolve_source
  run_with_config args config w =
      let rpc_url = unwrap_or args.rpc_url config.rpc_url in
      let passphrase = unwrap_or args.network_passphrase config.network_passphrase in
      let secret = or_else args.signer_secret config.signer_secret in
      let submits = args.submits || config.submits in
      if is_empty config.contracts
      then (ok (err "config lists no contracts"), w)
      else if args.dry_run && submits
      then (ok (err "--dry-run cannot be combined with submit"), w)
      else checked (resolve_source secret (or_else args.source config.source))
          (λ source. connected (s.connect rpc_url) rpc_url passphrase (λ rpc w'.
            finished (
              run_contracts (planner_on rpc source) secret passphrase submits config.contracts w')))
          w

  unfoldable pub run_batch : Args → W → Outcome (List BatchResult)
  unfolding run_with_config
  run_batch args w =
      checked (required args.config "--config is required")
        (λ path. checked (s.read_config path) (run_with_config args)) w

  unfoldable pub run_single : Args → W → Outcome Report
  unfolding resolve_source
  run_single args w =
      checked (required args.contract "--contract is required")
        (λ contract. checked (required args.rpc_url "--rpc-url is required") (λ rpc_url.
          checked (required args.network_passphrase "--network-passphrase is required")
            (λ passphrase. checked (s.decode_contract_id contract) (λ id.
              checked (resolve_source args.signer_secret args.source) (λ source.
                connected (s.connect rpc_url) rpc_url passphrase (λ rpc.
                  plan_hashed (planner_on rpc source) contract args.keys args.signer_secret
                    passphrase args.submits id (decode_wasm args.wasm_hash)))))))
        w
