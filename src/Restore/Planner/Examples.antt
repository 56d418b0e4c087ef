-- ===== src/Restore/Planner/Examples.antt =====
-- Witnesses of the theorems about the planner, over a network that restores the second of two
-- entries, and a codec whose keys are their texts.
use soroban_storage_the_on_c.Prelude.{ℕ, ◌≡◌, refl, none, List, [], ◌∷◌, String, ok, arith}
use soroban_storage_the_on_c.Prelude.Int.{pos}
use soroban_storage_the_on_c.Restore.Plan.{
  Candidate, Simulation, PlannedRestore, Xdr, candidate_footprint, archived_keys, decode_keys,
  encode_keys, build_restore_transaction, placeholder_resources,
}
use soroban_storage_the_on_c.Restore.Planner.{
  ◌>>=◌, pure, Planner, total_fee, clamped_fee, plan, candidates, push_code, push_keys, now,
  select_archived,
}
use soroban_storage_the_on_c.Restore.Planner.Planned.{
  IsFee, total_fee-IsFee, IsPlanned, plan-IsPlanned,
}
use soroban_storage_the_on_c.Restore.Planner.Candidates.{IsCandidates, candidates-ok}

abbrev pub xdr : Xdr String
xdr = record {
  decode_ledger_key = λ text. ok text;
  encode_ledger_key = λ key. ok key;
  vecm = λ keys. ok keys;
  encode_unsigned = λ transaction. ok "AAAA";
  contract_instance_key = λ contract_id. "instance-key";
  contract_code_key = λ hash. "code-key";
  account_strkey = λ source. "G";
  data_label = λ i. "data";
}

abbrev pub restores_data : Simulation String
restores_data = record {
  transaction_data = record {
    footprint = record { read_only = []; read_write = "data-key" ∷ [] };
    instructions = 0;
    disk_read_bytes = 10;
    write_bytes = 10;
    resource_fee = pos 0;
  };
  min_resource_fee = 5_000;
}

abbrev pub planner : Planner ℕ String
planner = record {
  rpc = record {
    latest_ledger = pure 1_000;
    account_sequence = λ account. pure (pos 7);
    simulate_restore = λ probe. pure restores_data;
    submit_envelope = λ envelope. pure "hash";
    fetch_wasm_hash = λ contract_id. pure none;
  };
  source = [];
  xdr = xdr;
  clock = λ w. w;
}

abbrev pub two : List Candidate
two =
    (record { label = "instance"; key_xdr = "instance-key" })
    ∷ (record { label = "data"; key_xdr = "data-key" })
    ∷ []

total_fee-IsFee_example : IsFee 5_000 (total_fee 5_000)
total_fee-IsFee_example = total_fee-IsFee 5_000 (omega arith)

abbrev pub planned : PlannedRestore String
unfolding build_restore_transaction
planned = record {
  current_ledger = 1_000;
  candidates = two;
  archived = (record { label = "data"; key_xdr = "data-key" }) ∷ [];
  min_resource_fee = 5_000;
  transaction =
      build_restore_transaction [] (pos 7) 1_000
        (record restores_data.transaction_data { resource_fee = pos 5_000 }) 5_100 9;
  unsigned_xdr = "AAAA";
}

plan_runs : plan planner two 9 ≡ (ok planned, 9)
unfolding plan ◌>>=◌ candidate_footprint decode_keys now select_archived archived_keys encode_keys
    total_fee clamped_fee placeholder_resources build_restore_transaction
plan_runs = refl

plan-IsPlanned_example : IsPlanned planner two 9 9 planned
plan-IsPlanned_example = plan-IsPlanned planner two planned 9 9 plan_runs

candidates_run : candidates planner [] ("data-key" ∷ []) none 9 ≡ (ok two, 9)
unfolding candidates ◌>>=◌ push_code push_keys
candidates_run = refl

candidates-ok_example : IsCandidates planner [] ("data-key" ∷ []) none two 9 9
candidates-ok_example = candidates-ok planner [] ("data-key" ∷ []) none two 9 9 candidates_run
