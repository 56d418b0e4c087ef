-- ===== src/Keeper/Client/Examples.antt =====
-- Witnesses of the theorems about the client, over a network where the keys are their texts.
use soroban_storage_the_on_c.Prelude.{ℕ, ◌+◌, ◌≡◌, refl, none, some, List, [], ◌∷◌, String, ok}
use soroban_storage_the_on_c.Prelude.Int.{pos}
use soroban_storage_the_on_c.Keeper.Rpc.{WatchKey, submitted}
use soroban_storage_the_on_c.Restore.Planner.{pure, ◌>>=◌}
use soroban_storage_the_on_c.Keeper.Client.{EntryResult, Client, submit_extension, extend_entries}
use soroban_storage_the_on_c.Keeper.Client.Fetched.{IsFetched, snapshots_of-IsFetched}
use soroban_storage_the_on_c.Keeper.Client.Submitted.{IsSubmitted, extend_entries-IsSubmitted}

-- The world counts the transactions that were sent.
abbrev pub client : Client ℕ String String String
client = record {
  get_latest_ledger = pure 1_000;
  get_account = λ account. pure (record { balance = pos 70; seq_num = pos 6 });
  get_ledger_entries = λ keys. pure none;
  simulate = λ probe.
      pure (record {
        failure = none;
        transaction_data = ok probe.resources;
        min_resource_fee = 5_000;
      });
  send_polling = λ transaction signature sent.
      (ok (record { status = "SUCCESS"; tx_hash = some "hash" }), sent + 1);
  verify_network_passphrase = λ passphrase. pure passphrase;
  clock = λ w. 50;
  decode_contract_id = λ text. ok [];
  contract_instance_key = λ id. "instance-key";
  contract_code_key = λ hash. "code-key";
  account_strkey = λ account. "G";
  data_label = λ i. "data";
  encode_ledger_key = λ key. ok key;
  decode_ledger_key = λ text. ok text;
  decode_entry = λ text. ok text;
  entry_length = λ entry. ok 64;
  key_length = λ key. ok 40;
  executable = λ entry. none;
  sign = λ transaction passphrase. ok "signature";
}

abbrev watched : List WatchKey
watched = (record { label = "instance"; key_xdr = "instance-key" }) ∷ []

abbrev response : List EntryResult
response =
    (record { key = "instance-key"; xdr = "AA"; live_until = some 1_200 })
    ∷ (record { key = "other-key"; xdr = "BB"; live_until = none })
    ∷ []

snapshots_of-IsFetched_example : IsFetched client [] "network" watched response
snapshots_of-IsFetched_example =
    snapshots_of-IsFetched client [] "network" watched response (("AA", refl), (("BB", refl), tt))

one_is_sent :
    extend_entries client [] "network" ("instance-key" ∷ []) 500_000 0 ≡ (ok (submitted "hash"), 1)
unfolding extend_entries ◌>>=◌ submit_extension
one_is_sent = refl

extend_entries-IsSubmitted_example :
    IsSubmitted client [] "network" ("instance-key" ∷ []) 500_000 (submitted "hash") 0 1
extend_entries-IsSubmitted_example =
    extend_entries-IsSubmitted client [] "network" ("instance-key" ∷ []) 500_000 0 1
      (submitted "hash") refl one_is_sent
