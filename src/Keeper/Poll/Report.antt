-- ===== src/Keeper/Poll/Report.antt =====
-- What a poll of one watch reports, and how its report agrees with the metrics.
use mathlib.Core.List.{append_assoc, append-nil}
use soroban_storage_the_on_c.Prelude.{
  ℕ, ◌+◌, ◌-◌, ◌≤◌, ◌≡◌, inl, inr, refl, ap, sym, ◌∙◌, List, [], ◌∷◌, ◌++◌, map, leb, ltb, length,
  length-append, if◌then◌else◌, arith, Bool-cases,
}
use soroban_storage_the_on_c.Keeper.Risk.{BatchEntry, ttl_remaining, classify, should_extend}
use soroban_storage_the_on_c.Keeper.Metrics.{ttl_ledgers, extensions}
use soroban_storage_the_on_c.Keeper.Rpc.{EntrySnapshot}
use soroban_storage_the_on_c.Keeper.Retry.{State, with_retry}
use soroban_storage_the_on_c.Keeper.Poll.{
  WatchConfig, Keeper, Scan, examine, scan_loop, extend_loop, outcome_label, count_submitted,
}
use soroban_storage_the_on_c.Keeper.Poll.Tallies.{
  Adds, Adds-push, Adds-none, Adds-trans, Adds-batch, with_retry-Adds, outcome-Adds,
}

-- The entries at or below the threshold, in the order of their snapshots.
abbrev pub due_of : WatchConfig → ℕ → List EntrySnapshot → List BatchEntry
due_of watch current [] = []
due_of watch current (snapshot ∷ snapshots) =
    let rest = due_of watch current snapshots in
    if leb (snapshot.live_until_ledger - current) watch.threshold_ledgers
    then (record { key_xdr = snapshot.key_xdr; size_bytes = snapshot.size_bytes }) ∷ rest
    else rest

pub record IsScanned (watch : WatchConfig) (current : ℕ) (scan : Scan)
    (snapshots : List EntrySnapshot) (result : Scan) : Type 0 where
  pub counted :
      result.critical_count ≡ scan.critical_count + length (due_of watch current snapshots)
  pub collected : result.due ≡ scan.due ++ due_of watch current snapshots

due_of-cons :
    (watch : WatchConfig) (current : ℕ) (snapshot : EntrySnapshot) (rest : List EntrySnapshot)
    → due_of watch current (snapshot ∷ rest)
      ≡ due_of watch current (snapshot ∷ []) ++ due_of watch current rest
due_of-cons watch current snapshot rest =
    elim (Bool-cases (leb (snapshot.live_until_ledger - current) watch.threshold_ledgers)) [
      | inl due ↦ rw due refl
      | inr fresh ↦ rw fresh refl
    ]

examine-counted :
    (watch : WatchConfig) (current : ℕ) (scan : Scan) (snapshot : EntrySnapshot)
    → (examine watch current scan snapshot).critical_count
      ≡ scan.critical_count + length (due_of watch current (snapshot ∷ []))
unfolding examine classify should_extend
examine-counted watch current scan snapshot =
    elim (Bool-cases (leb (snapshot.live_until_ledger - current) watch.threshold_ledgers)) [
      | inl due ↦ rw due refl
      | inr fresh ↦
          rw fresh
            (elim (Bool-cases
              (ltb (snapshot.live_until_ledger - current) watch.extend_to_ledgers)) [
                | inl near ↦ rw near (omega arith)
                | inr far ↦ rw far (omega arith)
              ])
    ]

examine-collected :
    (watch : WatchConfig) (current : ℕ) (scan : Scan) (snapshot : EntrySnapshot)
    → (examine watch current scan snapshot).due ≡ scan.due ++ due_of watch current (snapshot ∷ [])
unfolding examine should_extend
examine-collected watch current scan snapshot =
    elim (Bool-cases (leb (snapshot.live_until_ledger - current) watch.threshold_ledgers)) [
      | inl due ↦ rw due refl
      | inr fresh ↦ rw fresh (sym (append-nil scan.due))
    ]

module _ {W : Type 0} where
  pub scan_loop-IsScanned :
      (watch : WatchConfig) (current : ℕ) (scan : Scan) (snapshots : List EntrySnapshot)
      (s : State W)
      → IsScanned watch current scan snapshots (scan_loop watch current scan snapshots s).0
        × Adds s.metrics (scan_loop watch current scan snapshots s).1.metrics 0 0 0
  unfolding scan_loop
  scan_loop-IsScanned watch current scan [] s =
      (record { counted = omega arith; collected = sym (append-nil scan.due) }, Adds-none s.metrics)
  scan_loop-IsScanned watch current scan (snapshot ∷ snapshots) s =
      let ttl = ttl_remaining snapshot.live_until_ledger current in
      let gauge = ttl_ledgers watch.label snapshot.label ttl in
      let (more, adds) =
        scan_loop-IsScanned watch current (examine watch current scan snapshot) snapshots
          (record s { metrics = s.metrics ++ gauge ∷ [] }) in
      (
        record {
          counted = omega (
            arith,
            more.counted,
            examine-counted watch current scan snapshot,
            ap length (due_of-cons watch current snapshot snapshots),
            length-append (due_of watch current (snapshot ∷ [])) (due_of watch current snapshots),
          );
          collected =
              more.collected
              ∙ ap (λ d. d ++ due_of watch current snapshots)
                  (examine-collected watch current scan snapshot)
              ∙ append_assoc scan.due (due_of watch current (snapshot ∷ [])) _
              ∙ ap (λ d. scan.due ++ d) (sym (due_of-cons watch current snapshot snapshots));
        },
        Adds-trans (Adds-push s.metrics gauge) adds,
      )

  module _ (k : Keeper W) (watch : WatchConfig) where
    pub record IsExtended (counts : ℕ × ℕ) (batches : List (List BatchEntry)) (s : State W)
        (result : ℕ × ℕ) (s' : State W) : Type 0 where
      pub sent : ℕ
      pub bounded : sent ≤ length batches
      pub extended : result.0 ≡ counts.0 + length batches
      pub submissions : result.1 ≡ counts.1 + sent
      pub adds : Adds s.metrics s'.metrics (length batches) sent 0

    pub extend_loop-IsExtended :
        (counts : ℕ × ℕ) (batches : List (List BatchEntry)) (s : State W)
        → let (result, s') = extend_loop k watch counts batches s in
          IsExtended counts batches s result s'
    unfolding extend_loop
    extend_loop-IsExtended counts [] s = record {
      sent = 0;
      bounded = omega arith;
      extended = omega arith;
      submissions = omega arith;
      adds = Adds-none s.metrics;
    }
    extend_loop-IsExtended (done, sent) (batch ∷ batches) s =
        let op = k.rpc.extend_entries (map (λ e. e.key_xdr) batch) watch.extend_to_ledgers in
        let (outcome, s') = with_retry k.retry watch.label op s in
        let u = extensions watch.label (outcome_label outcome) in
        let (n, one, few, counted) = outcome-Adds s'.metrics watch.label outcome sent in
        let more =
          extend_loop-IsExtended (done + 1, count_submitted outcome sent) batches
            (record s' { metrics = s'.metrics ++ u ∷ [] }) in
        record {
          sent = n + more.sent;
          bounded = omega (arith, few, more.bounded);
          extended = omega (arith, more.extended);
          submissions = omega (arith, counted, more.submissions);
          adds = Adds-batch (with_retry-Adds k.retry watch.label op s) one more.adds;
        }
