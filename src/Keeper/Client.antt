-- ===== src/Keeper/Client.antt =====
-- crates/soroban-rent-keeper/src/stellar.rs: the keeper's network, over the RPC client, the codec
-- and the keys of crates/soroban-stellar-common as parameters. Of the XDR types the model has the
-- fields that the keeper sets or reads.
pub mod Fetched
pub mod Sending
pub mod Submitted
pub mod Examples
use soroban_storage_the_on_c.Prelude.{
  ℕ, ◌+◌, ◌%◌, ◌^◌, min, Bool, Option, none, some, List, [], ◌∷◌, ◌++◌, String, str_eq, is_empty,
  leb, ◌==◌, u32_max, i64_max, add_u32, add_u64, if◌then◌else◌, map, Result, ok, err,
}
use soroban_storage_the_on_c.Prelude
use soroban_storage_the_on_c.Prelude.Int.{ℤ, pos, negsuc, ◌+ℤ◌, leb_ℤ}
use soroban_storage_the_on_c.Keeper.Rpc.{
  WatchKey, EntrySnapshot, ExtendOutcome, submitted, no_op, Call,
}
use soroban_storage_the_on_c.Keeper.Config.{ContractConfig}
use soroban_storage_the_on_c.Keeper.Poll.{WatchConfig}
use soroban_storage_the_on_c.Restore.Plan.{TransactionData}
use soroban_storage_the_on_c.Restore.Planner.{pure, lift, ◌>>=◌}

-- An entry of a response: its key, its text, and the ledger up to which it lives, if it has one.
pub record EntryResult : Type 0 where
  pub key : String
  pub xdr : String
  pub live_until : Option ℕ

pub record Account : Type 0 where
  pub balance : ℤ
  pub seq_num : ℤ

-- A transaction with one `ExtendFootprintTtl` operation, no memo, and the two bounds.
pub record ExtendTransaction (LedgerKey : Type 0) : Type 0 where
  pub source_account : List ℕ
  pub fee : ℕ
  pub seq_num : ℤ
  pub min_time : ℕ
  pub max_time : ℕ
  pub min_ledger : ℕ
  pub max_ledger : ℕ
  pub extend_to : ℕ
  pub resources : TransactionData LedgerKey

pub record Simulated (LedgerKey : Type 0) : Type 0 where
  pub failure : Option String
  pub transaction_data : Result String (TransactionData LedgerKey)
  pub min_resource_fee : ℕ

pub record Sent : Type 0 where
  pub status : String
  pub tx_hash : Option String

-- The client and the codec. `executable` reads the entry of a contract's instance: whether it runs
-- Wasm, and of which hash.
pub record Client (W LedgerKey Entry Signature : Type 0) : Type 0 where
  pub get_latest_ledger : Call W ℕ
  pub get_account : String → Call W Account
  pub get_ledger_entries : List LedgerKey → Call W (Option (List EntryResult))
  pub simulate : ExtendTransaction LedgerKey → Call W (Simulated LedgerKey)
  pub send_polling : ExtendTransaction LedgerKey → Signature → Call W Sent
  pub verify_network_passphrase : String → Call W String
  pub clock : W → ℕ
  pub decode_contract_id : String → Result String (List ℕ)
  pub contract_instance_key : List ℕ → LedgerKey
  pub contract_code_key : List ℕ → LedgerKey
  pub account_strkey : List ℕ → String
  pub data_label : ℕ → String
  pub encode_ledger_key : LedgerKey → Result String String
  pub decode_ledger_key : String → Result String LedgerKey
  pub decode_entry : String → Result String Entry
  pub entry_length : Entry → Result String ℕ
  pub key_length : LedgerKey → Result String ℕ
  pub executable : Entry → Option (Option (List ℕ))
  pub sign : ExtendTransaction LedgerKey → String → Result String Signature

-- `unwrap_or_default` of a list.
abbrev pub or_empty : {A : Type 0} → Option (List A) → List A
or_empty none = []
or_empty (some items) = items

-- A length, cast to `u32`, with the value that stands for an error.
abbrev pub length_or : Result String ℕ → ℕ
length_or (err e) = 300
length_or (ok n) = n % 2 ^ 32

-- The label of the last watched key with that text.
abbrev pub label_of : String → String → List WatchKey → String
label_of key found [] = found
label_of key found (k ∷ keys) = label_of key (if str_eq k.key_xdr key then k.label else found) keys

-- `+ 1` on `i64` in the release profile.
abbrev pub next_seq : ℤ → ℤ
next_seq seq = if leb_ℤ (pos i64_max) seq then negsuc i64_max else seq +ℤ pos 1

-- `(min_resource_fee + 100).min(u32::MAX as u64) as u32`
abbrev pub extension_fee : ℕ → ℕ
extension_fee min_resource_fee = min (add_u64 min_resource_fee 100) u32_max

module _ {W LedgerKey Entry Signature : Type 0} (c : Client W LedgerKey Entry Signature)
    (source_account : List ℕ) (network_passphrase : String) where
  unfoldable pub verify_network : Call W Unit
  verify_network = do
    actual ← c.verify_network_passphrase network_passphrase
    if str_eq actual network_passphrase then pure tt else lift (err "network passphrase mismatch")

  unfoldable pub latest_ledger : Call W ℕ
  latest_ledger = c.get_latest_ledger

  unfoldable pub signer_balance_stroops : Call W ℤ
  signer_balance_stroops = do
    entry ← c.get_account (c.account_strkey source_account)
    pure entry.balance

  abbrev pub new_hash : Option (List ℕ) → Option (Option (List ℕ)) → Option (List ℕ)
  new_hash wasm_hash none = wasm_hash
  new_hash wasm_hash (some hash) = hash

  -- The loop over the entries of the instance.
  unfoldable pub wasm_hash_of : Option (List ℕ) → List EntryResult → Result String (Option (List ℕ))
  wasm_hash_of wasm_hash [] = ok wasm_hash
  wasm_hash_of wasm_hash (result ∷ results) =
      Prelude.◌>>=◌ (c.decode_entry result.xdr)
        (λ entry. wasm_hash_of (new_hash wasm_hash (c.executable entry)) results)

  abbrev pub data_keys_from : ℕ → List String → List WatchKey
  data_keys_from i [] = []
  data_keys_from i (key ∷ keys) =
      (record { label = c.data_label i; key_xdr = key }) ∷ data_keys_from (i + 1) keys

  abbrev pub code_key : Option (List ℕ) → Result String WatchKey
  code_key none = err "could not resolve wasm hash from the contract instance"
  code_key (some hash) =
      Prelude.◌>>=◌ (c.encode_ledger_key (c.contract_code_key hash))
        (λ text. ok (record { label = "code"; key_xdr = text }))

  unfoldable pub build_watch : ContractConfig → Call W WatchConfig
  unfolding wasm_hash_of
  build_watch cc = do
    contract_id ← lift (c.decode_contract_id cc.contract_id)
    entries ← c.get_ledger_entries (c.contract_instance_key contract_id ∷ [])
    wasm_hash ← lift (wasm_hash_of none (or_empty entries))
    instance_text ← lift (c.encode_ledger_key (c.contract_instance_key contract_id))
    code ← lift (code_key wasm_hash)
    pure (record {
      label = cc.contract_id;
      threshold_ledgers = cc.threshold_ledgers;
      extend_to_ledgers = cc.extend_to_ledgers;
      keys =
          (record { label = "instance"; key_xdr = instance_text })
          ∷ code
          ∷ data_keys_from 0 cc.data_keys;
    })

  -- The keys' texts, decoded.
  unfoldable pub decode_all : List String → Result String (List LedgerKey)
  decode_all [] = ok []
  decode_all (text ∷ texts) =
      Prelude.◌>>=◌ (c.decode_ledger_key text)
        (λ key. Prelude.◌>>=◌ (decode_all texts) (λ keys. ok (key ∷ keys)))

  abbrev pub snapshot : List WatchKey → EntryResult → ℕ → Entry → EntrySnapshot
  snapshot keys result live_until entry = record {
    label = label_of result.key "entry" keys;
    key_xdr = result.key;
    live_until_ledger = live_until;
    size_bytes = length_or (c.entry_length entry);
  }

  abbrev pub add_snapshot :
      List WatchKey
      → EntryResult
      → Option ℕ
      → Result String (List EntrySnapshot)
      → Result String (List EntrySnapshot)
  add_snapshot keys result none rest = rest
  add_snapshot keys result (some live_until) rest =
      Prelude.◌>>=◌ (c.decode_entry result.xdr)
        (λ entry. Prelude.◌>>=◌ rest (λ more. ok (snapshot keys result live_until entry ∷ more)))

  -- The loop over the response: an entry without a TTL is passed over.
  unfoldable pub snapshots_of :
      List WatchKey → List EntryResult → Result String (List EntrySnapshot)
  snapshots_of keys [] = ok []
  snapshots_of keys (result ∷ results) =
      add_snapshot keys result result.live_until (snapshots_of keys results)

  unfoldable pub fetch_entries : List WatchKey → Call W (List EntrySnapshot)
  unfolding snapshots_of decode_all
  fetch_entries keys = if is_empty keys then pure [] else (do
    ledger_keys ← lift (decode_all (map (λ (k : WatchKey). k.key_xdr) keys))
    response ← c.get_ledger_entries ledger_keys
    lift (snapshots_of keys (or_empty response)))

  abbrev pub build_extend_transaction :
      ℤ → ℕ → ℕ → TransactionData LedgerKey → ℕ → ℕ → ExtendTransaction LedgerKey
  build_extend_transaction seq_num current_ledger extend_to resources fee now = record {
    source_account = source_account;
    fee = fee;
    seq_num = seq_num;
    min_time = 0;
    max_time = add_u64 now 300;
    min_ledger = current_ledger;
    max_ledger = add_u32 current_ledger 200;
    extend_to = extend_to;
    resources = resources;
  }

  abbrev pub read_bytes : List LedgerKey → ℕ
  read_bytes [] = 0
  read_bytes (k ∷ keys) = add_u32 (length_or (c.key_length k)) (read_bytes keys)

  abbrev pub placeholder : List LedgerKey → TransactionData LedgerKey
  placeholder ledger_keys = record {
    footprint = record { read_only = ledger_keys; read_write = [] };
    instructions = 0;
    disk_read_bytes = read_bytes ledger_keys;
    write_bytes = 0;
    resource_fee = pos 0;
  }

  abbrev pub refused : Option String → Result String Unit
  refused none = ok tt
  refused (some error) = err error

  abbrev pub charge_fee : ℕ → TransactionData LedgerKey → TransactionData LedgerKey
  charge_fee min_resource_fee sim_data = record sim_data {
    resource_fee = pos (if leb min_resource_fee i64_max then min_resource_fee else i64_max);
  }

  now : Call W ℕ
  now w = (ok (c.clock w), w)

  abbrev pub outcome_of : Sent → Result String ExtendOutcome
  outcome_of sent =
      if str_eq sent.status "SUCCESS"
      then ok (submitted (elim sent.tx_hash [ some hash ↦ hash | none ↦ "unknown" ]))
      else err sent.status

  -- From the simulation on.
  unfoldable pub submit_extension :
      (seq_num : ℤ) (current_ledger extend_to : ℕ) → Simulated LedgerKey → Call W ExtendOutcome
  unfolding now
  submit_extension seq_num current_ledger extend_to sim = do
    ok_to_go ← lift (refused sim.failure)
    sim_data ← lift sim.transaction_data
    built_at ← now
    let final_tx : ExtendTransaction LedgerKey =
        build_extend_transaction seq_num current_ledger extend_to
          (charge_fee sim.min_resource_fee sim_data) (extension_fee sim.min_resource_fee) built_at
    signature ← lift (c.sign final_tx network_passphrase)
    response ← c.send_polling final_tx signature
    lift (outcome_of response)

  unfoldable pub extend_entries : List String → ℕ → Call W ExtendOutcome
  unfolding decode_all now
  extend_entries keys extend_to = if is_empty keys then pure no_op else (do
    ledger_keys ← lift (decode_all keys)
    current_ledger ← c.get_latest_ledger
    account ← c.get_account (c.account_strkey source_account)
    probed_at ← now
    sim ← c.simulate (
        build_extend_transaction (next_seq account.seq_num) current_ledger extend_to
          (placeholder ledger_keys) 100 probed_at)
    submit_extension (next_seq account.seq_num) current_ledger extend_to sim)
