-- ===== src/Keeper/Examples.antt =====
-- Witnesses of the theorems about the keeper, over a network that times out as often as its world
-- says, and then answers.
use mathlib.Core.List.{Memᴰ, flatten}
use soroban_storage_the_on_c.Prelude.{
  ℕ, zero, suc, ◌+◌, ◌<◌, ◌≡◌, ◌⊎◌, ◌↔◌, refl, false, Option, none, some, List, [], ◌∷◌, String,
  All, arith, ok, err,
}
use soroban_storage_the_on_c.Prelude.Int.{pos}
use soroban_storage_the_on_c.Keeper.Risk.{should_extend, ttl_remaining, BatchEntry, plan_batches}
use soroban_storage_the_on_c.Keeper.Risk.Chunks.{IsBatch, IsGreedy}
use soroban_storage_the_on_c.Keeper.Risk.Batches.{
  flatten-plan_batches, plan_batches-IsBatch, plan_batches-IsGreedy,
}
use soroban_storage_the_on_c.Keeper.Rpc.{Call, EntrySnapshot, submitted, Rpc}
use soroban_storage_the_on_c.Keeper.Retry.{State, default, with_retry, call}
use soroban_storage_the_on_c.Keeper.Retry.Runs.{IsRun, with_retry-IsRun}
use soroban_storage_the_on_c.Keeper.Poll.{WatchConfig, Keeper, poll_watch, poll_once, note_balance}
use soroban_storage_the_on_c.Keeper.Poll.Watch.{Polled, poll_watch-Polled}
use soroban_storage_the_on_c.Keeper.Poll.Once.{Once, poll_once-Once}
use soroban_storage_the_on_c.Keeper.Config.{
  ContractConfig, Config, validate, load, refuse_if, check_policies, check_thresholds,
  check_cadence,
}
use soroban_storage_the_on_c.Keeper.Config.Validated.{IsValid, validate_iff}
use soroban_storage_the_on_c.Keeper.Config.Cadence.{left_alone-lives, load-IsValid}

-- A call that times out while the world is not 0.
abbrev pub unreliable : {A : Type 0} → A → Call ℕ A
unreliable value zero = (ok value, zero)
unreliable value (suc n) = (err "request timeout", n)

abbrev pub snapshots : List EntrySnapshot
snapshots =
    (record { label = "instance"; key_xdr = "AAAA"; live_until_ledger = 1_050; size_bytes = 300 })
    ∷ (record { label = "code"; key_xdr = "BBBB"; live_until_ledger = 9_000; size_bytes = 900 })
    ∷ (record { label = "data"; key_xdr = "CCCC"; live_until_ledger = 1_020; size_bytes = 400 })
    ∷ []

abbrev pub rpc : Rpc ℕ
rpc = record {
  latest_ledger = unreliable 1_000;
  signer_balance_stroops = unreliable (pos 25_000_000);
  fetch_entries = λ keys. unreliable snapshots;
  extend_entries = λ keys extend_to. unreliable (submitted "hash");
}

abbrev pub watched : WatchConfig
watched = record { label = "vault"; threshold_ledgers = 100; extend_to_ledgers = 5_000; keys = [] }

abbrev pub keeper : Keeper ℕ
keeper = record { rpc = rpc; watches = watched ∷ []; max_batch_bytes = 500; retry = default }

abbrev pub start : State ℕ
start = record { world = 2; metrics = []; trace = [] }

abbrev pub entries : List BatchEntry
entries =
    (record { key_xdr = "AAAA"; size_bytes = 300 })
    ∷ (record { key_xdr = "CCCC"; size_bytes = 400 })
    ∷ []

two_batches :
    plan_batches entries 500
    ≡ (record { key_xdr = "AAAA"; size_bytes = 300 } ∷ [])
      ∷ (record { key_xdr = "CCCC"; size_bytes = 400 } ∷ [])
      ∷ []
unfolding plan_batches
two_batches = refl

flatten-plan_batches_example : flatten (plan_batches entries 500) ≡ entries
flatten-plan_batches_example = flatten-plan_batches entries 500

plan_batches-IsBatch_example : All (IsBatch 500) (plan_batches entries 500)
plan_batches-IsBatch_example = plan_batches-IsBatch entries 500 (omega arith)

plan_batches-IsGreedy_example : IsGreedy 500 (plan_batches entries 500)
plan_batches-IsGreedy_example = plan_batches-IsGreedy entries 500

with_retry-IsRun_example :
    IsRun default "vault" rpc.latest_ledger 2 0 start
      (with_retry default "vault" rpc.latest_ledger start).0
      (with_retry default "vault" rpc.latest_ledger start).1
with_retry-IsRun_example = with_retry-IsRun default "vault" rpc.latest_ledger start

poll_watch-Polled_example :
    Polled keeper watched 1_000 start.metrics
      (poll_watch keeper watched 1_000 start).1.metrics
      (with_retry keeper.retry watched.label (keeper.rpc.fetch_entries watched.keys) start).0
      (poll_watch keeper watched 1_000 start).0
poll_watch-Polled_example = poll_watch-Polled keeper watched 1_000 start

poll_once-Once_example :
    let (balance, s1) = call keeper.rpc.signer_balance_stroops start in
    let s2 = (note_balance keeper balance s1).1 in
    Once keeper start.metrics
      (poll_once keeper start).1.metrics
      (with_retry keeper.retry "global" keeper.rpc.latest_ledger s2).0
      (poll_once keeper start).0
poll_once-Once_example = poll_once-Once keeper start

abbrev pub contract : ContractConfig
contract = record {
  contract_id = "CABC";
  threshold_ledgers = 172_800;
  extend_to_ledgers = 518_400;
  data_keys = [];
}

abbrev pub config : Config
config = record {
  rpc_url = "https://rpc";
  network_passphrase = "Test";
  signer_secret = "S";
  metrics_addr = "127.0.0.1:9090";
  max_batch_bytes = 200_000;
  poll_interval_secs = 600;
  allow_short_threshold = false;
  min_signer_balance_stroops = pos 10_000_000;
  contracts = contract ∷ [];
}

config-IsValid : IsValid config
unfolding validate refuse_if check_policies check_thresholds check_cadence
config-IsValid = (validate_iff config).0 refl

validate_iff_example : (validate config ≡ ok tt) ↔ IsValid config
validate_iff_example = validate_iff config

left_alone-lives_example : 0 < ttl_remaining 200_000 (1_000 + 120)
unfolding should_extend validate refuse_if check_policies check_thresholds check_cadence
left_alone-lives_example =
    left_alone-lives config contract 200_000 1_000 120 refl refl (Memᴰ.head refl) refl (omega arith)
      (omega arith)

abbrev pub other_endpoint : Config
other_endpoint = record config { rpc_url = "https://other" }

abbrev pub given_url : Option String
given_url = some "https://other"

abbrev pub no_secret : Option String
no_secret = none

load-IsValid_example :
    IsValid other_endpoint
    × ((given_url ≡ none) ⊎ (given_url ≡ some other_endpoint.rpc_url))
    × ((no_secret ≡ none) ⊎ (no_secret ≡ some other_endpoint.signer_secret))
unfolding load validate refuse_if check_policies check_thresholds check_cadence
load-IsValid_example =
    load-IsValid (ok "{}") (λ raw. ok config) given_url no_secret other_endpoint refl
