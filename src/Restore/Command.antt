-- ===== src/Restore/Command.antt =====
-- The command of crates/soroban-restore-planner/src/main.rs: its arguments, and the report on a
-- contract.
use soroban_storage_the_on_c.Prelude.{
  Bool, true, Option, none, some, List, [], ◌∷◌, ◌++◌, ℕ, String, str_eq, if◌then◌else◌, Result, ok,
  err,
}
use soroban_storage_the_on_c.Restore.Plan.{Candidate, Transaction}
use soroban_storage_the_on_c.Restore.Planner.{Run, ◌>>=◌, pure, lift, Planner, plan, submit}

pub record Args : Type 0 where
  pub contract : Option String
  pub config : Option String
  pub rpc_url : Option String
  pub network_passphrase : Option String
  pub source : Option String
  pub signer_secret : Option String
  pub keys : List String
  pub wasm_hash : Option String
  pub submits : Bool
  pub dry_run : Bool
  pub out : Option String
  pub json : Bool

-- The errors, and the request for the help text, after which the process exits.
pub data ArgsError : Type 0 where
  help : ArgsError
  missing_value : String → ArgsError
  unknown_argument : String → ArgsError
  dry_run_with_submit : ArgsError

-- An argument that takes a value.
abbrev pub with_value : String → String → Args → Option Args
with_value arg value args =
    if str_eq arg "--contract"
    then some (record args { contract = some value })
    else if str_eq arg "--config"
    then some (record args { config = some value })
    else if str_eq arg "--rpc-url"
    then some (record args { rpc_url = some value })
    else if str_eq arg "--network-passphrase"
    then some (record args { network_passphrase = some value })
    else if str_eq arg "--source"
    then some (record args { source = some value })
    else if str_eq arg "--signer-secret"
    then some (record args { signer_secret = some value })
    else if str_eq arg "--key"
    then some (record args { keys = args.keys ++ value ∷ [] })
    else if str_eq arg "--wasm-hash"
    then some (record args { wasm_hash = some value })
    else if str_eq arg "--out"
    then some (record args { out = some value })
    else none

-- An argument that takes none.
abbrev pub with_flag : String → Args → Option Args
with_flag arg args =
    if str_eq arg "--submit"
    then some (record args { submits = true })
    else if str_eq arg "--dry-run"
    then some (record args { dry_run = true })
    else if str_eq arg "--json"
    then some (record args { json = true })
    else none

abbrev pub is_help : String → Bool
is_help arg = if str_eq arg "-h" then true else str_eq arg "--help"

-- The loop over the arguments.
unfoldable pub parse_from : Args → List String → Result ArgsError Args
parse_from args [] = ok args
parse_from args (arg ∷ []) = if is_help arg then err help else elim (with_flag arg args) [
  | some args' ↦ ok args'
  | none ↦ elim (with_value arg "" args) [
    | some args' ↦ err (missing_value arg)
    | none ↦ err (unknown_argument arg)
  ]
]
parse_from args (arg ∷ value ∷ rest) = if is_help arg then err help else elim (with_flag arg args) [
  | some args' ↦ parse_from args' (value ∷ rest)
  | none ↦ elim (with_value arg value args) [
    | some args' ↦ parse_from args' rest
    | none ↦ err (unknown_argument arg)
  ]
]

-- What `plan_contract` reports.
pub record Report : Type 0 where
  pub contract : String
  pub current_ledger : ℕ
  pub candidates : List Candidate
  pub archived : List Candidate
  pub min_resource_fee : ℕ
  pub unsigned_transaction_xdr : String
  pub submitted_tx_hash : Option String

-- `sign_envelope` signs a transaction with a secret, for a network's passphrase.
module _ {W Key : Type 0} (p : Planner W Key)
    (sign_envelope : Transaction Key → String → String → Result String String) where
  abbrev pub sign_and_submit : Option String → String → Transaction Key → Run W (Option String)
  sign_and_submit none passphrase transaction = lift (err "--submit requires --signer-secret")
  sign_and_submit (some secret) passphrase transaction =
      lift (sign_envelope transaction secret passphrase) >>= λ signed.
      submit p signed >>= λ hash. pure (some hash)

  unfoldable pub plan_contract :
      String → List Candidate → Option String → String → Bool → Run W Report
  unfolding ◌>>=◌
  plan_contract contract candidates signer_secret passphrase submits = do
    planned ← plan p candidates
    submitted_tx_hash ←
        if submits then sign_and_submit signer_secret passphrase planned.transaction else pure none
    pure (record {
      contract = contract;
      current_ledger = planned.current_ledger;
      candidates = planned.candidates;
      archived = planned.archived;
      min_resource_fee = planned.min_resource_fee;
      unsigned_transaction_xdr = planned.unsigned_xdr;
      submitted_tx_hash = submitted_tx_hash;
    })
