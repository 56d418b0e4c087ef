-- ===== src/Keeper/Metrics.antt =====
-- crates/soroban-rent-keeper/src/metrics.rs: the updates that the keeper makes. The Prometheus
-- vectors are a library's; the model keeps the updates in the order of the calls.
use soroban_storage_the_on_c.Prelude.{ℕ, List, [], ◌∷◌, ◌++◌, String}
use soroban_storage_the_on_c.Prelude.Int.{ℤ}

-- One constructor for each method, with the labels and the value that it sets. `set_last_poll`
-- sets the time of day, which is not modelled.
pub data Update : Type 0 where
  ttl_ledgers : (contract entry : String) → ℕ → Update
  extensions : (contract outcome : String) → Update
  last_poll : (contract : String) → Update
  entries_watched : (contract : String) → ℕ → Update
  retry : (contract : String) → Update
  poll_error : (contract : String) → Update
  signer_balance : ℤ → Update

abbrev pub Metrics : Type 0
Metrics = List Update

abbrev pub set_ttl_gauge : String → String → ℕ → Metrics → Metrics
set_ttl_gauge contract entry ttl m = m ++ ttl_ledgers contract entry ttl ∷ []

abbrev pub inc_extensions : String → String → Metrics → Metrics
inc_extensions contract outcome m = m ++ extensions contract outcome ∷ []

abbrev pub set_last_poll : String → Metrics → Metrics
set_last_poll contract m = m ++ last_poll contract ∷ []

abbrev pub set_entries_watched : String → ℕ → Metrics → Metrics
set_entries_watched contract count m = m ++ entries_watched contract count ∷ []

abbrev pub inc_retry : String → Metrics → Metrics
inc_retry contract m = m ++ retry contract ∷ []

abbrev pub inc_poll_error : String → Metrics → Metrics
inc_poll_error contract m = m ++ poll_error contract ∷ []

abbrev pub set_signer_balance : ℤ → Metrics → Metrics
set_signer_balance stroops m = m ++ signer_balance stroops ∷ []
