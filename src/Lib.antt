-- ===== src/Lib.antt =====
-- The soroban-storage workspace, modelled and verified: the storage framework with its TTL
-- policies, the `storage!` macro, the linter, the rent keeper, the restore planner, and the example contract.
--
-- The parts and the files that model them (paths from the repository's root):
-- - crates/soroban-storage/src/lifecycle.rs and ttl.rs: Storage/Lifecycle.antt and Storage/Ttl.antt.
-- - crates/soroban-storage/src/ops.rs: Storage/Ops.antt, one function per operation of the same
--   name. The host's storage is a parameter, the record `Host` of Storage/Host.antt; its documented
--   behaviour is the record `HostLaws` beside it. An operation is a function from an environment to
--   an optional result, `none` for a trap of the host. Storage/Model.antt is a concrete host, which
--   shows that the laws can hold together and on which the witnesses run. Storage/Ops/Laws.antt
--   gives each operation as one equation; its siblings state what callers rely on.
-- - crates/soroban-storage-macros/src/lib.rs: Macro/Options.antt has the parser of an attribute
--   (`StorageOpts::parse`) over the tokens of Macro/Tokens.antt and the merge of an entry's
--   attributes (`merge_opts`), Macro/Gen.antt the generation (`gen_storage`), and
--   Storage/Accessor.antt the methods of a generated accessor.
-- - crates/soroban-storage-lints/src/: Linter/Syntax.antt is the syntax that syn yields, as far as the
--   linter tells it apart. Of parse.rs, Linter/Decl.antt has the attributes of a declaration,
--   Linter/Visitor.antt the walk over a body, Linter/Scan.antt `scan_file`, and Linter/Model.antt
--   what the file model is made of. Of rules.rs, Linter/Words.antt has the naming heuristics,
--   Linter/Resolve.antt the resolution of values and keys, Linter/Rules.antt the six rules and
--   Linter/Rules/RunAll.antt their run. Linter/Run.antt has `lint_source` of lib.rs, and the
--   arguments and the exit code of main.rs. The tables of Unicode are the parameter `Unicode`, the
--   parser and the file system functions. A panic is an error of the run.
-- - crates/soroban-rent-keeper/src/: Keeper/Risk.antt (risk.rs), Keeper/Config.antt (config.rs),
--   Keeper/Rpc.antt (rpc.rs, the network as a parameter), Keeper/Metrics.antt (the updates of
--   metrics.rs), Keeper/Transient.antt (`is_transient` of keeper.rs), Keeper/Retry.antt
--   (`RetryPolicy` and `with_retry`), Keeper/Poll.antt (`poll_watch` and `poll_once`), and
--   Keeper/Client.antt (stellar.rs, over the RPC client and the codec as parameters). A run passes
--   a state on: the network's world, the updates of the metrics in the order in which they were
--   made, and the trace of calls and sleeps in the order in which they happened.
-- - crates/example-contract/src/lib.rs: Vault.antt, one function per entry point, over the accessors.
--   An invocation that traps changes nothing, so an error carries no environment.
--   Vault/History.antt has sequences of invocations, with ledgers that close in between; a temporary
--   entry may then expire, and an archived entry counts with the value that it is restored with.
-- - crates/soroban-restore-planner/src/: Restore/Plan.antt (plan.rs) and Restore/Planner.antt
--   (planner.rs, over the network of rpc.rs); of main.rs, Restore/Command.antt has the loop over the
--   arguments and `plan_contract`, Restore/Hex.antt `decode_hex32`, Restore/Batch.antt the runs on one
--   contract and on a list, and Restore/Main.antt the arguments' checks and the exit codes. The XDR codec, with the functions of
--   crates/soroban-stellar-common that wrap it, is the parameter `Xdr`, and the clock a function.
-- - Prelude.antt and the files below it: what the modules share.
--
-- How they interact: the accessors that the macro generates call the operations with the constants
-- of the entry; the vault calls the accessors; the keeper's poll loop calls the risk functions, the
-- batching and the retries; the linter reads the attributes that the
-- macro parses, and its rules take the walk's calls and the declarations of a file together.
--
-- Bounds and fuel: `parse_loop` of the macro takes one more unit of fuel than there are tokens,
-- which is enough since every round consumes a token. The loop of `with_retry` takes
-- `policy.retries()` as fuel, and when that is used up the loop's own guard returns. Both have
-- theorems below. Integers are numbers with the operations of their width written out; sums of
-- `u32`, `u64` and `i128` wrap, as the release profile has no overflow checks.
--
-- Not modelled: the derive of `Critical`, which emits one fixed impl; the splitting of `storage!`
-- blocks into entries, of source into syntax and of expressions into tokens, which are syn's; the
-- linter's search for files, and the order and the printing of its findings; the Stellar client of
-- the planner, and the constructor and the start-up of the keeper's; the HTTP server for the
-- metrics, what the commands print, and the decoding of keys, which are I/O and calls of libraries.
pub mod Prelude
pub mod Storage
pub mod Macro
pub mod Linter
pub mod Keeper
pub mod Vault
pub mod Restore
