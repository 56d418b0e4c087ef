-- ===== src/Keeper/Poll/Once.antt =====
-- What `poll_once` of crates/soroban-rent-keeper/src/keeper.rs returns.
use Prim.Native.String.{◌++◌ as join}
use soroban_storage_the_on_c.Prelude.{
  ℕ, ◌+◌, ◌≡◌, refl, List, [], ◌∷◌, String, Result, ok, err, arith,
}
use soroban_storage_the_on_c.Prelude.Int.{ℤ}
use soroban_storage_the_on_c.Keeper.Metrics.{Metrics, poll_error, signer_balance}
use soroban_storage_the_on_c.Keeper.Rpc.{EntrySnapshot}
use soroban_storage_the_on_c.Keeper.Retry.{State, with_retry, call}
use soroban_storage_the_on_c.Keeper.Poll.{
  WatchConfig, PollReport, Keeper, poll_watch, conclude, poll_loop, after_ledger, note_balance,
  poll_once,
}
use soroban_storage_the_on_c.Keeper.Poll.Tallies.{
  Adds, Adds-push, Adds-none, Adds-trans, with_retry-Adds, tally, is_submission, is_poll_error,
}
use soroban_storage_the_on_c.Keeper.Poll.Watch.{Polled, failed, polled, poll_watch-Polled}

-- The transactions that the reports count, and the results that are errors.
abbrev pub sent_in : List (Result String PollReport) → ℕ
sent_in [] = 0
sent_in (ok report ∷ rs) = report.submitted + sent_in rs
sent_in (err e ∷ rs) = sent_in rs

abbrev pub errors_in : List (Result String PollReport) → ℕ
errors_in [] = 0
errors_in (ok report ∷ rs) = errors_in rs
errors_in (err e ∷ rs) = 1 + errors_in rs

-- The metrics changed from `m` to `m'` as the results tell.
pub record IsTold (m m' : Metrics) (results : List (Result String PollReport)) : Type 0 where
  pub submissions : tally is_submission m' ≡ tally is_submission m + sent_in results
  pub errors : tally is_poll_error m' ≡ tally is_poll_error m + errors_in results

-- The result of a watch names the watch.
abbrev pub Names : WatchConfig → Result String PollReport → Type 0
Names watch (ok report) = report.watch ≡ watch.label
Names watch (err e) = (cause : String) × (e ≡ join watch.label (join ": " cause))

-- One result for each watch, in their order.
abbrev pub Answers : List WatchConfig → List (Result String PollReport) → Type 0
Answers [] [] = Unit
Answers (w ∷ ws) (r ∷ rs) = Names w r × Answers ws rs
Answers _ _ = ⊥

IsTold-cons :
    {m m' m'' : Metrics} {r : Result String PollReport} {rs : List (Result String PollReport)}
    → IsTold m m' (r ∷ [])
    → IsTold m' m'' rs
    → IsTold m m'' (r ∷ rs)
IsTold-cons {r = ok report} h k = omega arith
IsTold-cons {r = err e} h k = omega arith

module _ {W : Type 0} (k : Keeper W) where
  conclude-IsTold :
      (watch : WatchConfig) (current : ℕ) (fetched : Result String (List EntrySnapshot))
      (r : Result String PollReport) (m : Metrics) (s : State W)
      → Polled k watch current m s.metrics fetched r
      → let (r', s') = conclude k watch r s in Names watch r' × IsTold m s'.metrics (r' ∷ [])
  conclude-IsTold watch current _ _ m s (failed e none) =
      ((e, refl), omega (arith, none, Adds-push s.metrics (poll_error watch.label)))
  conclude-IsTold watch current _ _ m s (polled snapshots report h) =
      (h.label, omega (arith, h.adds))

  poll_loop-IsTold :
      (current : ℕ) (watches : List WatchConfig) (s : State W)
      → let (rs, s') = poll_loop k current watches s in
        Answers watches rs × IsTold s.metrics s'.metrics rs
  unfolding poll_loop
  poll_loop-IsTold current [] s = (tt, omega arith)
  poll_loop-IsTold current (watch ∷ watches) s =
      let (r, s1) = poll_watch k watch current s in
      let (_, s2) = conclude k watch r s1 in
      let (names, told) =
        conclude-IsTold watch current _ r s.metrics s1 (poll_watch-Polled k watch current s) in
      let (answers, more) = poll_loop-IsTold current watches s2 in
      ((names, answers), IsTold-cons told more)

  -- What the poll returns for an answer to the question for the ledger.
  pub data Once (m m' : Metrics) : Result String ℕ → List (Result String PollReport) → Type 0 where
    no_ledger :
        (e : String)
        → IsTold m m' (err (join "latest_ledger: " e) ∷ [])
        → Once m m' (err e) (err (join "latest_ledger: " e) ∷ [])
    each_watch :
        (current : ℕ) (results : List (Result String PollReport))
        → Answers k.watches results
        → IsTold m m' results
        → Once m m' (ok current) results

  after_ledger-Once :
      (m : Metrics) (ledger : Result String ℕ) (s : State W)
      → Adds m s.metrics 0 0 0
      → let (rs, s') = after_ledger k ledger s in Once m s'.metrics ledger rs
  after_ledger-Once m (ok current) s none =
      let (answers, told) = poll_loop-IsTold current k.watches s in
      each_watch current _ answers (omega (arith, none, told))
  after_ledger-Once m (err e) s none =
      no_ledger e (omega (arith, none, Adds-push s.metrics (poll_error "global")))

  note_balance-Adds :
      (balance : Result String ℤ) (s : State W)
      → Adds s.metrics (note_balance k balance s).1.metrics 0 0 0
  note_balance-Adds (ok balance) s = Adds-push s.metrics (signer_balance balance)
  note_balance-Adds (err e) s = Adds-none s.metrics

  -- A poll returns one result per watch, in the order of the watches and naming them, or the
  -- single error that the ledger could not be read, when the call for it failed. The metrics agree
  -- with the results: the updates add as many poll errors as there are errors among the results,
  -- and as many submissions as the reports count in all.
  pub poll_once-Once :
      (s : State W)
      → let (balance, s1) = call k.rpc.signer_balance_stroops s in
        let s2 = (note_balance k balance s1).1 in
        Once s.metrics
          (poll_once k s).1.metrics
          (with_retry k.retry "global" k.rpc.latest_ledger s2).0
          (poll_once k s).0
  unfolding poll_once
  poll_once-Once s =
      let (balance, s1) = call k.rpc.signer_balance_stroops s in
      let s2 = (note_balance k balance s1).1 in
      after_ledger-Once s.metrics _ _ (
        Adds-trans (note_balance-Adds balance s1)
          (with_retry-Adds k.retry "global" k.rpc.latest_ledger s2))
