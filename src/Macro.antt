-- ===== src/Macro.antt =====
-- crates/soroban-storage-macros/src/lib.rs: the `storage!` macro, from the tokens of the
-- `#[storage(...)]` attributes to the constants of the generated accessors.
pub mod Tokens
pub mod Options
pub mod Gen
pub mod Fuel
pub mod Merge
pub mod Guarantees
pub mod Examples
