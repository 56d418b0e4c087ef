-- ===== src/Restore/Planner.antt =====
-- crates/soroban-restore-planner/src/planner.rs, over the network of
-- crates/soroban-restore-planner/src/rpc.rs and the clock.
pub mod Selected
pub mod Planned
pub mod Candidates
pub mod Examples
use soroban_storage_the_on_c.Prelude.{
  ℕ, ◌+◌, min, Bool, Option, none, some, List, [], ◌∷◌, ◌++◌, String, str_eq, any, keep_if, leb,
  u32_max, i64_max, add_u64, if◌then◌else◌, Result, ok, err,
}
use soroban_storage_the_on_c.Prelude
use soroban_storage_the_on_c.Prelude.Int.{ℤ, pos}
use soroban_storage_the_on_c.Restore.Plan.{
  Candidate, TransactionData, Transaction, Simulation, PlannedRestore, Xdr, candidate_footprint,
  archived_keys, build_restore_transaction, placeholder_resources,
}

-- What runs against the network: it changes the world, and returns a value or an error.
abbrev pub Run : Type 0 → Type 0 → Type 0
Run W A = W → Result String A × W

abbrev pub pure : {W A : Type 0} → A → Run W A
pure a w = (ok a, w)

-- What follows the result of a call.
abbrev pub bind_from : {W A B : Type 0} → Result String A × W → (A → Run W B) → Result String B × W
bind_from (err e, w) f = (err e, w)
bind_from (ok a, w) f = f a w

infixl 5 ◌>>=◌
unfoldable pub ◌>>=◌ : {W A B : Type 0} → Run W A → (A → Run W B) → Run W B
◌>>=◌ m f w = bind_from (m w) f

abbrev pub lift : {W A : Type 0} → Result String A → Run W A
lift r w = (r, w)

pub record Rpc (W Key : Type 0) : Type 0 where
  pub latest_ledger : Run W ℕ
  pub account_sequence : String → Run W ℤ
  pub simulate_restore : Transaction Key → Run W (Simulation Key)
  pub submit_envelope : String → Run W String
  pub fetch_wasm_hash : List ℕ → Run W (Option (List ℕ))

-- The planner, with the codec and the clock of the system.
pub record Planner (W Key : Type 0) : Type 0 where
  pub rpc : Rpc W Key
  pub source : List ℕ
  pub xdr : Xdr Key
  pub clock : W → ℕ

-- `(min_resource_fee + 100).min(u32::MAX as u64) as u32`
unfoldable pub total_fee : ℕ → ℕ
total_fee min_resource_fee = min (add_u64 min_resource_fee 100) u32_max

-- `i64::try_from(min_resource_fee).unwrap_or(i64::MAX)`
unfoldable pub clamped_fee : ℕ → ℤ
clamped_fee min_resource_fee =
    pos (if leb min_resource_fee i64_max then min_resource_fee else i64_max)

-- `keys.contains(…)`
abbrev pub holds : List String → Candidate → Bool
holds keys c = any (str_eq c.key_xdr) keys

module _ {W Key : Type 0} (p : Planner W Key) where
  unfoldable pub select_archived : List Candidate → Simulation Key → Result String (List Candidate)
  select_archived candidates simulation =
      Prelude.◌>>=◌ (archived_keys p.xdr simulation.transaction_data)
        (λ keys. ok (keep_if (holds keys) candidates))

  now : Run W ℕ
  now w = (ok (p.clock w), w)

  abbrev pub charged : Simulation Key → TransactionData Key
  charged simulation = record simulation.transaction_data {
    resource_fee = clamped_fee simulation.min_resource_fee;
  }

  unfoldable pub plan : List Candidate → Run W (PlannedRestore Key)
  unfolding now
  plan candidates = do
    current_ledger ← p.rpc.latest_ledger
    sequence ← p.rpc.account_sequence (p.xdr.account_strkey p.source)
    footprint ← lift (candidate_footprint p.xdr candidates)
    probed_at ← now
    simulation ← p.rpc.simulate_restore (
        build_restore_transaction p.source sequence current_ledger (placeholder_resources footprint)
          100 probed_at)
    archived ← lift (select_archived candidates simulation)
    built_at ← now
    let transaction : Transaction Key =
        build_restore_transaction p.source sequence current_ledger (charged simulation)
          (total_fee simulation.min_resource_fee) built_at
    unsigned_xdr ← lift (p.xdr.encode_unsigned transaction)
    pure (record {
      current_ledger = current_ledger;
      candidates = candidates;
      archived = archived;
      min_resource_fee = simulation.min_resource_fee;
      transaction = transaction;
      unsigned_xdr = unsigned_xdr;
    })

  -- `match wasm_hash { Some(hash) => Some(hash), None => fetch … }`
  abbrev pub resolve : List ℕ → Option (List ℕ) → Run W (Option (List ℕ))
  resolve contract_id (some hash) = pure (some hash)
  resolve contract_id none = p.rpc.fetch_wasm_hash contract_id

  -- `if let Some(hash) = resolved { candidates.push(…) }`
  unfoldable pub push_code : List Candidate → Option (List ℕ) → Result String (List Candidate)
  push_code candidates none = ok candidates
  push_code candidates (some hash) =
      Prelude.◌>>=◌ (p.xdr.encode_ledger_key (p.xdr.contract_code_key hash))
        (λ key. ok (candidates ++ (record { label = "code"; key_xdr = key }) ∷ []))

  -- The loop over the explicit keys, from the index `i` on.
  unfoldable pub push_keys : ℕ → List Candidate → List String → Result String (List Candidate)
  push_keys i candidates [] = ok candidates
  push_keys i candidates (key ∷ keys) = Prelude.◌>>=◌ (p.xdr.decode_ledger_key key) (λ decoded.
      push_keys (i + 1) (candidates ++ (record { label = p.xdr.data_label i; key_xdr = key }) ∷ [])
        keys)

  unfoldable pub candidates : List ℕ → List String → Option (List ℕ) → Run W (List Candidate)
  unfolding push_code push_keys
  candidates contract_id keys wasm_hash = do
    instance_key ← lift (p.xdr.encode_ledger_key (p.xdr.contract_instance_key contract_id))
    resolved ← resolve contract_id wasm_hash
    with_code ←
        lift (push_code ((record { label = "instance"; key_xdr = instance_key }) ∷ []) resolved)
    lift (push_keys 0 with_code keys)

  abbrev pub submit : String → Run W String
  submit envelope_base64 = p.rpc.submit_envelope envelope_base64
