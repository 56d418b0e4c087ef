-- ===== src/Keeper.antt =====
-- crates/soroban-rent-keeper: risk classification and batching, configuration, bounded retries,
-- and the poll loop over an RPC interface.
pub mod Risk
pub mod Transient
pub mod Metrics
pub mod Rpc
pub mod Retry
pub mod Poll
pub mod Client
pub mod Config
pub mod Examples
