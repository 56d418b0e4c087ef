-- ===== src/Keeper/Poll.antt =====
-- crates/soroban-rent-keeper/src/keeper.rs: the poll of one watch and of all.
pub mod Report
pub mod Tallies
pub mod Watch
pub mod Once
use Prim.Native.String.{◌++◌ as join}
use soroban_storage_the_on_c.Prelude.{
  ℕ, zero, suc, ◌+◌, Bool, true, false, List, [], ◌∷◌, ◌++◌, map, String, length, is_empty,
  if◌then◌else◌, Result, ok, err,
}
use soroban_storage_the_on_c.Prelude.Int.{ℤ}
use soroban_storage_the_on_c.Keeper.Risk.{
  RiskLevel, critical, BatchEntry, ttl_remaining, classify, should_extend, plan_batches,
}
use soroban_storage_the_on_c.Keeper.Metrics.{
  set_ttl_gauge, inc_extensions, set_last_poll, set_entries_watched, inc_poll_error,
  set_signer_balance,
}
use soroban_storage_the_on_c.Keeper.Rpc.{
  WatchKey, EntrySnapshot, ExtendOutcome, submitted, no_op, Rpc,
}
use soroban_storage_the_on_c.Keeper.Retry.{
  State, Run, pure, ◌>>=◌, ◌>>◌, call, record_metric, RetryPolicy, with_retry,
}

pub record WatchConfig : Type 0 where
  pub label : String
  pub threshold_ledgers : ℕ
  pub extend_to_ledgers : ℕ
  pub keys : List WatchKey

pub record PollReport : Type 0 where
  pub watch : String
  pub checked : ℕ
  pub critical : ℕ
  pub extended_batches : ℕ
  pub submitted : ℕ

-- The keeper, but for the metrics, which are in the state.
pub record Keeper (W : Type 0) : Type 0 where
  pub rpc : Rpc W
  pub watches : List WatchConfig
  pub max_batch_bytes : ℕ
  pub retry : RetryPolicy

abbrev pub is_critical : RiskLevel → Bool
is_critical critical = true
is_critical _ = false

-- The variables `critical` and `due` of the loop over the snapshots.
pub record Scan : Type 0 where
  pub critical_count : ℕ
  pub due : List BatchEntry

-- One round of that loop, but for the gauge.
unfoldable pub examine : WatchConfig → ℕ → Scan → EntrySnapshot → Scan
examine watch current_ledger scan snapshot =
    let ttl = ttl_remaining snapshot.live_until_ledger current_ledger in
    let level = classify ttl watch.threshold_ledgers watch.extend_to_ledgers in
    record {
      critical_count = if is_critical level then scan.critical_count + 1 else scan.critical_count;
      due =
          if should_extend ttl watch.threshold_ledgers
          then scan.due
            ++ (record { key_xdr = snapshot.key_xdr; size_bytes = snapshot.size_bytes }) ∷ []
          else scan.due;
    }

abbrev pub report_of : WatchConfig → List EntrySnapshot → ℕ → ℕ × ℕ → PollReport
report_of watch snapshots critical_count (extended_batches, sent) = record {
  watch = watch.label;
  checked = length snapshots;
  critical = critical_count;
  extended_batches = extended_batches;
  submitted = sent;
}

-- The `match` on the outcome of a batch: its label, and what it adds to `submitted`.
abbrev pub outcome_label : Result String ExtendOutcome → String
outcome_label (ok (submitted tx_hash)) = "submitted"
outcome_label (ok no_op) = "noop"
outcome_label (err error) = "error"

abbrev pub count_submitted : Result String ExtendOutcome → ℕ → ℕ
count_submitted (ok (submitted tx_hash)) n = n + 1
count_submitted (ok no_op) n = n
count_submitted (err error) n = n

module _ {W : Type 0} where
  unfoldable pub scan_loop : WatchConfig → ℕ → Scan → List EntrySnapshot → Run W Scan
  scan_loop watch current_ledger scan [] s = pure scan s
  scan_loop watch current_ledger scan (snapshot ∷ snapshots) s =
      let ttl = ttl_remaining snapshot.live_until_ledger current_ledger in
      scan_loop watch current_ledger (examine watch current_ledger scan snapshot) snapshots
        (record_metric (set_ttl_gauge watch.label snapshot.label ttl) s).1

  module _ (k : Keeper W) where
    -- The loop over the batches, with `extended_batches` and `submitted`.
    unfoldable pub extend_loop : WatchConfig → ℕ × ℕ → List (List BatchEntry) → Run W (ℕ × ℕ)
    extend_loop watch counts [] s = pure counts s
    extend_loop watch (extended_batches, sent) (batch ∷ batches) s =
        let keys = map (λ e. e.key_xdr) batch in
        let (outcome, s') =
          with_retry k.retry watch.label (k.rpc.extend_entries keys watch.extend_to_ledgers) s in
        extend_loop watch (extended_batches + 1, count_submitted outcome sent) batches
          (record_metric (inc_extensions watch.label (outcome_label outcome)) s').1

    -- `if due.is_empty() { return … }`, and the batches.
    abbrev pub conclude_scan :
        WatchConfig → List EntrySnapshot → Scan → Run W (Result String PollReport)
    conclude_scan watch snapshots scan =
        if is_empty scan.due
        then (record_metric (inc_extensions watch.label "noop")
            >> pure (ok (report_of watch snapshots scan.critical_count (0, 0))))
        else (extend_loop watch (0, 0) (plan_batches scan.due k.max_batch_bytes) >>= λ counts.
            pure (ok (report_of watch snapshots scan.critical_count counts)))

    -- From the snapshots on.
    unfoldable pub poll_snapshots :
        WatchConfig → ℕ → List EntrySnapshot → Run W (Result String PollReport)
    unfolding scan_loop extend_loop
    poll_snapshots watch current_ledger snapshots = do
      record_metric (set_entries_watched watch.label (length snapshots))
      scan ← scan_loop watch current_ledger (record { critical_count = 0; due = [] }) snapshots
      record_metric (set_last_poll watch.label)
      conclude_scan watch snapshots scan

    -- `?` on the fetch.
    abbrev pub after_fetch :
        WatchConfig → ℕ → Result String (List EntrySnapshot) → Run W (Result String PollReport)
    after_fetch watch current_ledger (err error) = pure (err error)
    after_fetch watch current_ledger (ok snapshots) = poll_snapshots watch current_ledger snapshots

    unfoldable pub poll_watch : WatchConfig → ℕ → Run W (Result String PollReport)
    unfolding poll_snapshots
    poll_watch watch current_ledger = do
      fetched ← with_retry k.retry watch.label (k.rpc.fetch_entries watch.keys)
      after_fetch watch current_ledger fetched

    abbrev pub conclude : WatchConfig → Result String PollReport → Run W (Result String PollReport)
    conclude watch (ok report) = pure (ok report)
    conclude watch (err error) = do
      record_metric (inc_poll_error watch.label)
      pure (err (join watch.label (join ": " error)))

    -- The loop over the watches.
    unfoldable pub poll_loop : ℕ → List WatchConfig → Run W (List (Result String PollReport))
    poll_loop current [] = pure []
    poll_loop current (watch ∷ watches) = poll_watch watch current >>= conclude watch >>= λ report.
        poll_loop current watches >>= λ reports. pure (report ∷ reports)

    abbrev pub after_ledger : Result String ℕ → Run W (List (Result String PollReport))
    after_ledger (ok current) = poll_loop current k.watches
    after_ledger (err error) = do
      record_metric (inc_poll_error "global")
      pure (err (join "latest_ledger: " error) ∷ [])

    abbrev pub note_balance : Result String ℤ → Run W Unit
    note_balance (ok balance) = record_metric (set_signer_balance balance)
    note_balance (err error) = pure tt

    unfoldable pub poll_once : Run W (List (Result String PollReport))
    unfolding poll_loop poll_watch
    poll_once = do
      balance ← call k.rpc.signer_balance_stroops
      note_balance balance
      current ← with_retry k.retry "global" k.rpc.latest_ledger
      after_ledger current
