-- ===== src/Restore/Plan.antt =====
-- crates/soroban-restore-planner/src/plan.rs. The XDR codec, with the functions of
-- crates/soroban-stellar-common that wrap it, is a parameter, the record `Xdr`. Of the XDR types the
-- model has the fields that the planner sets; the conversions of empty lists cannot fail.
use soroban_storage_the_on_c.Prelude.{ℕ, List, [], ◌∷◌, String, Result, ok, ◌>>=◌, add_u32, add_u64}
use soroban_storage_the_on_c.Prelude.Int.{ℤ, pos}

pub record Candidate : Type 0 where
  pub label : String
  pub key_xdr : String

pub record LedgerFootprint (Key : Type 0) : Type 0 where
  pub read_only : List Key
  pub read_write : List Key

pub record TransactionData (Key : Type 0) : Type 0 where
  pub footprint : LedgerFootprint Key
  pub instructions : ℕ
  pub disk_read_bytes : ℕ
  pub write_bytes : ℕ
  pub resource_fee : ℤ

-- `xdr::Transaction`, with one `RestoreFootprint` operation, no memo, and the two bounds.
pub record Transaction (Key : Type 0) : Type 0 where
  pub source_account : List ℕ
  pub fee : ℕ
  pub seq_num : ℤ
  pub min_time : ℕ
  pub max_time : ℕ
  pub min_ledger : ℕ
  pub max_ledger : ℕ
  pub resources : TransactionData Key

pub record Simulation (Key : Type 0) : Type 0 where
  pub transaction_data : TransactionData Key
  pub min_resource_fee : ℕ

pub record PlannedRestore (Key : Type 0) : Type 0 where
  pub current_ledger : ℕ
  pub candidates : List Candidate
  pub archived : List Candidate
  pub min_resource_fee : ℕ
  pub transaction : Transaction Key
  pub unsigned_xdr : String

pub record Xdr (Key : Type 0) : Type 0 where
  pub decode_ledger_key : String → Result String Key
  pub encode_ledger_key : Key → Result String String
  pub vecm : List Key → Result String (List Key)
  pub encode_unsigned : Transaction Key → Result String String
  pub contract_instance_key : List ℕ → Key
  pub contract_code_key : List ℕ → Key
  pub account_strkey : List ℕ → String
  pub data_label : ℕ → String

module _ {Key : Type 0} (xdr : Xdr Key) where
  -- `.map(decode_ledger_key).collect::<Result<Vec<_>, _>>()`
  unfoldable pub decode_keys : List Candidate → Result String (List Key)
  decode_keys [] = ok []
  decode_keys (c ∷ cs) =
      xdr.decode_ledger_key c.key_xdr >>= λ k. decode_keys cs >>= λ ks. ok (k ∷ ks)

  unfoldable pub candidate_footprint : List Candidate → Result String (LedgerFootprint Key)
  unfolding decode_keys
  candidate_footprint candidates = do
    keys ← decode_keys candidates
    read_write ← xdr.vecm keys
    ok (record { read_only = []; read_write = read_write })

  -- `.map(encode_ledger_key).collect()`
  unfoldable pub encode_keys : List Key → Result String (List String)
  encode_keys [] = ok []
  encode_keys (k ∷ ks) =
      xdr.encode_ledger_key k >>= λ text. encode_keys ks >>= λ texts. ok (text ∷ texts)

  unfoldable pub archived_keys : TransactionData Key → Result String (List String)
  unfolding encode_keys
  archived_keys transaction_data = encode_keys transaction_data.footprint.read_write

-- `now` is the time in seconds.
unfoldable pub build_restore_transaction :
    {Key : Type 0} → List ℕ → ℤ → ℕ → TransactionData Key → ℕ → ℕ → Transaction Key
build_restore_transaction source seq_num current_ledger resources fee now = record {
  source_account = source;
  fee = fee;
  seq_num = seq_num;
  min_time = 0;
  max_time = add_u64 now 3_600;
  min_ledger = current_ledger;
  max_ledger = add_u32 current_ledger 1_000;
  resources = resources;
}

unfoldable pub placeholder_resources : {Key : Type 0} → LedgerFootprint Key → TransactionData Key
placeholder_resources footprint = record {
  footprint = footprint;
  instructions = 0;
  disk_read_bytes = 0;
  write_bytes = 0;
  resource_fee = pos 0;
}
