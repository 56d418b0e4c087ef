-- ===== src/Storage.antt =====
-- crates/soroban-storage: lifecycles, TTL policies, the storage operations that the generated
-- accessors call, and the host's storage as the interface that they call in turn.
pub mod Lifecycle
pub mod Ttl
pub mod Host
pub mod Ops
pub mod Accessor
pub mod Model
