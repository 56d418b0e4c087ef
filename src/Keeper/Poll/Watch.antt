-- ===== src/Keeper/Poll/Watch.antt =====
-- What a poll of one watch returns, in crates/soroban-rent-keeper/src/keeper.rs.
use soroban_storage_the_on_c.Prelude.{
  ℕ, ◌+◌, ◌≤◌, ◌≡◌, refl, ap, sym, List, [], ◌∷◌, ◌++◌, String, length, Result, ok, err, arith,
}
use soroban_storage_the_on_c.Keeper.Risk.{BatchEntry, plan_batches, plan_loop}
use soroban_storage_the_on_c.Keeper.Metrics.{Metrics, extensions, entries_watched, last_poll}
use soroban_storage_the_on_c.Keeper.Rpc.{EntrySnapshot}
use soroban_storage_the_on_c.Keeper.Retry.{State, with_retry}
use soroban_storage_the_on_c.Keeper.Poll.{
  WatchConfig, PollReport, Keeper, scan_loop, conclude_scan, poll_snapshots, after_fetch,
  poll_watch,
}
use soroban_storage_the_on_c.Keeper.Poll.Tallies.{Adds, Adds-push, Adds-trans, with_retry-Adds}
use soroban_storage_the_on_c.Keeper.Poll.Report.{
  due_of, scan_loop-IsScanned, extend_loop-IsExtended,
}

plan_batches-nil : (most : ℕ) → plan_batches [] most ≡ []
unfolding plan_batches plan_loop
plan_batches-nil most = refl

-- What is added first may be nothing.
Adds-after_none :
    {m m' m'' : Metrics} {n sent total : ℕ}
    → Adds m m' 0 0 0
    → Adds m' m'' n sent 0
    → total ≡ 0 + sent
    → Adds m m'' n total 0
Adds-after_none h k q = omega arith

module _ {W : Type 0} (k : Keeper W) (watch : WatchConfig) where
  -- The number of extension updates: one for every batch, or one "noop" if there is none.
  abbrev pub extension_count : List BatchEntry → ℕ
  extension_count [] = 1
  extension_count (e ∷ es) = length (plan_batches (e ∷ es) k.max_batch_bytes)

  -- A report that agrees with the snapshots, and with the updates from `m` to `m'`.
  pub record IsReported (current : ℕ) (snapshots : List EntrySnapshot) (m m' : Metrics)
      (report : PollReport) : Type 0 where
    pub label : report.watch ≡ watch.label
    pub checked : report.checked ≡ length snapshots
    pub critical : report.critical ≡ length (due_of watch current snapshots)
    pub batches :
        report.extended_batches
        ≡ length (plan_batches (due_of watch current snapshots) k.max_batch_bytes)
    pub submitted : report.submitted ≤ report.extended_batches
    pub adds : Adds m m' (extension_count (due_of watch current snapshots)) report.submitted 0

  pub data Polled (current : ℕ) (m m' : Metrics)
      : Result String (List EntrySnapshot) → Result String PollReport → Type 0 where
    failed : (e : String) → Adds m m' 0 0 0 → Polled current m m' (err e) (err e)
    polled :
        (snapshots : List EntrySnapshot) (report : PollReport)
        → IsReported current snapshots m m' report
        → Polled current m m' (ok snapshots) (ok report)

  by_due :
      (current : ℕ) (snapshots : List EntrySnapshot) (m : Metrics) (count : ℕ)
      (due : List BatchEntry) (s : State W)
      → count ≡ length (due_of watch current snapshots)
      → due ≡ due_of watch current snapshots
      → Adds m s.metrics 0 0 0
      → let (r, s') =
          conclude_scan k watch snapshots (record { critical_count = count; due = due }) s in
        Polled current m s'.metrics (ok snapshots) r
  by_due current snapshots m count [] s counted collected before = polled snapshots _ (record {
    label = refl;
    checked = refl;
    critical = counted;
    batches = rw (sym collected) (sym (ap length (plan_batches-nil k.max_batch_bytes)));
    submitted = omega arith;
    adds =
        rw (sym collected)
          (Adds-trans before (Adds-push s.metrics (extensions watch.label "noop")));
  })
  by_due current snapshots m count (e ∷ es) s counted collected before =
      let run = extend_loop-IsExtended k watch (0, 0) (plan_batches (e ∷ es) k.max_batch_bytes) s in
      polled snapshots _ (record {
        label = refl;
        checked = refl;
        critical = counted;
        batches = rw (sym collected) (omega (arith, run.extended));
        submitted = omega (arith, run.extended, run.submissions, run.bounded);
        adds = rw (sym collected) (Adds-after_none before run.adds run.submissions);
      })

  poll_snapshots-Polled :
      (current : ℕ) (snapshots : List EntrySnapshot) (m : Metrics) (s : State W)
      → Adds m s.metrics 0 0 0
      → let (r, s') = poll_snapshots k watch current snapshots s in
        Polled current m s'.metrics (ok snapshots) r
  unfolding poll_snapshots
  poll_snapshots-Polled current snapshots m s before =
      let gauge = entries_watched watch.label (length snapshots) in
      let s1 = record s { metrics = s.metrics ++ gauge ∷ [] } in
      let (scanned, adds) =
        scan_loop-IsScanned watch current (record { critical_count = 0; due = [] }) snapshots s1 in
      let (scan, s2) =
        scan_loop watch current (record { critical_count = 0; due = [] }) snapshots s1 in
      by_due current snapshots m scan.critical_count scan.due
        (record s2 { metrics = s2.metrics ++ last_poll watch.label ∷ [] })
        (omega (arith, scanned.counted)) scanned.collected
        (Adds-trans before (
          Adds-trans (Adds-push s.metrics gauge)
            (Adds-trans adds (Adds-push s2.metrics (last_poll watch.label)))))

  after_fetch-Polled :
      (current : ℕ) (fetched : Result String (List EntrySnapshot)) (m : Metrics) (s : State W)
      → Adds m s.metrics 0 0 0
      → let (r, s') = after_fetch k watch current fetched s in Polled current m s'.metrics fetched r
  after_fetch-Polled current (err e) m s before = failed e before
  after_fetch-Polled current (ok snapshots) m s before =
      poll_snapshots-Polled current snapshots m s before

  -- A poll of a watch fails with the error of its fetch, retries included, and only then, and counts
  -- no extension, no submission and no poll error. Otherwise its report counts the snapshots, those
  -- at or below the threshold and their batches; it reports at most one submission per batch, and
  -- the metrics it leaves agree with it: one extension update per batch (one in all if there is no
  -- batch), as many submissions as reported, and no poll error.
  pub poll_watch-Polled :
      (current : ℕ) (s : State W)
      → Polled current s.metrics
          (poll_watch k watch current s).1.metrics
          (with_retry k.retry watch.label (k.rpc.fetch_entries watch.keys) s).0
          (poll_watch k watch current s).0
  unfolding poll_watch
  poll_watch-Polled current s =
      after_fetch-Polled current _ s.metrics _
        (with_retry-Adds k.retry watch.label (k.rpc.fetch_entries watch.keys) s)
