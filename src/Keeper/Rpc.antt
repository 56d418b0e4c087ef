-- ===== src/Keeper/Rpc.antt =====
-- crates/soroban-rent-keeper/src/rpc.rs: the network as an interface. Each call changes the world
-- behind it, and returns a value or an error text.
use soroban_storage_the_on_c.Prelude.{ℕ, List, String, Result}
use soroban_storage_the_on_c.Prelude.Int.{ℤ}

pub record WatchKey : Type 0 where
  pub label : String
  pub key_xdr : String

pub record EntrySnapshot : Type 0 where
  pub label : String
  pub key_xdr : String
  pub live_until_ledger : ℕ
  pub size_bytes : ℕ

pub data ExtendOutcome : Type 0 where
  submitted : (tx_hash : String) → ExtendOutcome
  no_op : ExtendOutcome

-- One call of the network in the world `W`.
abbrev pub Call : Type 0 → Type 0 → Type 0
Call W A = W → Result String A × W

pub record Rpc (W : Type 0) : Type 0 where
  pub latest_ledger : Call W ℕ
  pub signer_balance_stroops : Call W ℤ
  pub fetch_entries : List WatchKey → Call W (List EntrySnapshot)
  pub extend_entries : List String → ℕ → Call W ExtendOutcome
