-- ===== src/Keeper/Config.antt =====
-- crates/soroban-rent-keeper/src/config.rs. The file system, the environment's variables and the
-- JSON reader are a library's: their results are arguments of `load`.
pub mod Validated
pub mod Cadence
use soroban_storage_the_on_c.Prelude.{
  ℕ, ◌/◌, min, Bool, true, false, not, Option, none, some, List, [], ◌∷◌, String, str_eq, ltb, leb,
  is_empty, u32_max, if◌then◌else◌, Result, ok, err, ◌>>=◌, ◌>>◌, map_err,
}
use soroban_storage_the_on_c.Prelude.Int.{ℤ, pos, ltb_ℤ}

pub record ContractConfig : Type 0 where
  pub contract_id : String
  pub threshold_ledgers : ℕ
  pub extend_to_ledgers : ℕ
  pub data_keys : List String

abbrev pub default_threshold : ℕ
default_threshold = 172_800

abbrev pub default_extend_to : ℕ
default_extend_to = 518_400

pub record Config : Type 0 where
  pub rpc_url : String
  pub network_passphrase : String
  pub signer_secret : String
  pub metrics_addr : String
  pub max_batch_bytes : ℕ
  pub poll_interval_secs : ℕ
  pub allow_short_threshold : Bool
  pub min_signer_balance_stroops : ℤ
  pub contracts : List ContractConfig

abbrev pub default_max_batch_bytes : ℕ
default_max_batch_bytes = 200_000

abbrev pub default_poll_interval_secs : ℕ
default_poll_interval_secs = 600

abbrev pub default_min_signer_balance : ℤ
default_min_signer_balance = pos 10_000_000

abbrev pub seconds_per_ledger : ℕ
seconds_per_ledger = 5

unfoldable pub ledgers_per_poll : ℕ → ℕ
ledgers_per_poll poll_interval_secs = min (poll_interval_secs / seconds_per_ledger) u32_max

-- One constructor for each message, with the values that it prints.
pub data ConfigError : Type 0 where
  rpc_url_required network_passphrase_required signer_secret_required : ConfigError
  no_contracts contract_id_required negative_floor : ConfigError
  inverted_policy : (contract : ContractConfig) → ConfigError
  short_threshold : (contract : ContractConfig) (elapsed poll_interval_secs : ℕ) → ConfigError

-- `if refused { return Err(…); }`
unfoldable pub refuse_if : Bool → ConfigError → Result ConfigError Unit
refuse_if refused error = if refused then err error else ok tt

unfoldable pub check_policies : List ContractConfig → Result ConfigError Unit
check_policies [] = ok tt
check_policies (c ∷ cs) = do
  refuse_if (str_eq c.contract_id "") contract_id_required
  refuse_if (leb c.extend_to_ledgers c.threshold_ledgers) (inverted_policy c)
  check_policies cs

unfoldable pub check_cadence : ℕ → ℕ → List ContractConfig → Result ConfigError Unit
check_cadence elapsed secs [] = ok tt
check_cadence elapsed secs (c ∷ cs) = do
  refuse_if (ltb c.threshold_ledgers elapsed) (short_threshold c elapsed secs)
  check_cadence elapsed secs cs

-- `if !self.allow_short_threshold { … }`
unfoldable pub check_thresholds : Config → Result ConfigError Unit
unfolding ledgers_per_poll
check_thresholds config =
    if not config.allow_short_threshold
    then check_cadence (ledgers_per_poll config.poll_interval_secs) config.poll_interval_secs
        config.contracts
    else ok tt

unfoldable pub validate : Config → Result ConfigError Unit
validate config = do
  refuse_if (str_eq config.rpc_url "") rpc_url_required
  refuse_if (str_eq config.network_passphrase "") network_passphrase_required
  refuse_if (str_eq config.signer_secret "") signer_secret_required
  refuse_if (is_empty config.contracts) no_contracts
  check_policies config.contracts
  refuse_if (ltb_ℤ config.min_signer_balance_stroops (pos 0)) negative_floor
  check_thresholds config

pub data LoadError : Type 0 where
  cannot_read invalid_config : (cause : String) → LoadError
  rejected : ConfigError → LoadError

abbrev pub override_with : Option String → String → String
override_with none value = value
override_with (some given) value = given

abbrev pub with_environment : Option String → Option String → Config → Config
with_environment rpc_url signer_secret config = record config {
  rpc_url = override_with rpc_url config.rpc_url;
  signer_secret = override_with signer_secret config.signer_secret;
}

-- `load`, with the file's text, the JSON reader, `SOROBAN_RPC_URL` and `SOROBAN_SIGNER_SECRET`.
unfoldable pub load :
    Result String String
    → (String → Result String Config)
    → Option String
    → Option String
    → Result LoadError Config
unfolding validate
load read from_str rpc_url signer_secret = do
  raw ← map_err cannot_read read
  config ← map_err invalid_config (from_str raw)
  let chosen : Config = with_environment rpc_url signer_secret config
  map_err rejected (validate chosen)
  ok chosen
