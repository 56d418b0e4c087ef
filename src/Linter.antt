-- ===== src/Linter.antt =====
-- crates/soroban-storage-lints: the static analyser of contract sources.
pub mod Decl
pub mod Words
pub mod Syntax
pub mod Model
pub mod Resolve
pub mod Rules
pub mod Visitor
pub mod Scan
pub mod Run
pub mod Examples
