-- ===== src/Keeper/Poll/Tallies.antt =====
-- The updates of the metrics that a poll makes, counted by kind.
use soroban_storage_the_on_c.Prelude.{
  ℕ, zero, suc, ◌+◌, ◌≤◌, ◌≡◌, refl, ap, Bool, true, false, [], ◌∷◌, ◌++◌, String, str_eq, arith,
  Result, ok, err,
}
use soroban_storage_the_on_c.Keeper.Metrics.{Update, extensions, retry, poll_error, Metrics}
use soroban_storage_the_on_c.Keeper.Rpc.{Call, ExtendOutcome, submitted, no_op}
use soroban_storage_the_on_c.Keeper.Retry.{State, RetryPolicy, with_retry}
use soroban_storage_the_on_c.Keeper.Retry.Runs.{retry_updates, with_retry-IsRun}
use soroban_storage_the_on_c.Keeper.Poll.{outcome_label, count_submitted}

abbrev pub is_extension : Update → Bool
is_extension (extensions contract outcome) = true
is_extension _ = false

abbrev pub is_submission : Update → Bool
is_submission (extensions contract outcome) = str_eq outcome "submitted"
is_submission _ = false

abbrev pub is_poll_error : Update → Bool
is_poll_error (poll_error contract) = true
is_poll_error _ = false

-- How many updates are of a kind.
abbrev pub bit : Bool → ℕ
bit true = 1
bit false = 0

abbrev pub tally : (Update → Bool) → Metrics → ℕ
tally p [] = 0
tally p (u ∷ us) = bit (p u) + tally p us

pub tally-append :
    (p : Update → Bool) (us vs : Metrics) → tally p (us ++ vs) ≡ tally p us + tally p vs
tally-append p [] vs = omega arith
tally-append p (u ∷ us) vs = omega (arith, tally-append p us vs)

-- From `m` to `m'` so many extensions, submissions and poll errors were counted.
pub record Adds (m m' : Metrics) (sent submissions errors : ℕ) : Type 0 where
  pub extension_updates : tally is_extension m' ≡ tally is_extension m + sent
  pub submission_updates : tally is_submission m' ≡ tally is_submission m + submissions
  pub error_updates : tally is_poll_error m' ≡ tally is_poll_error m + errors

pub Adds-push :
    (m : Metrics) (u : Update)
    → Adds m (m ++ u ∷ []) (bit (is_extension u)) (bit (is_submission u)) (bit (is_poll_error u))
Adds-push m u = record {
  extension_updates = omega (arith, tally-append is_extension m (u ∷ []));
  submission_updates = omega (arith, tally-append is_submission m (u ∷ []));
  error_updates = omega (arith, tally-append is_poll_error m (u ∷ []));
}

pub Adds-none : (m : Metrics) → Adds m m 0 0 0
Adds-none m = omega arith

pub Adds-trans :
    {m m' m'' : Metrics} {a b c a' b' c' : ℕ}
    → Adds m m' a b c
    → Adds m' m'' a' b' c'
    → Adds m m'' (a + a') (b + b') (c + c')
Adds-trans h k = omega arith

-- A batch: its call, its update, and the batches after it.
pub Adds-batch :
    {m m' m'' m3 : Metrics} {rest n more : ℕ}
    → Adds m m' 0 0 0
    → Adds m' m'' 1 n 0
    → Adds m'' m3 rest more 0
    → Adds m m3 (suc rest) (n + more) 0
Adds-batch h j k = omega arith

retry_updates-tally :
    {W T : Type 0} (policy : RetryPolicy) (contract : String) (op : Call W T) (p : Update → Bool)
    (n : ℕ)
    → p (retry contract) ≡ false
    → tally p (retry_updates policy contract op n) ≡ 0
retry_updates-tally policy contract op p zero h = refl
retry_updates-tally policy contract op p (suc n) h =
    rw h (ap (λ t. 0 + t) (retry_updates-tally policy contract op p n h))

-- A call with retries counts none of these.
pub with_retry-Adds :
    {W T : Type 0} (policy : RetryPolicy) (contract : String) (op : Call W T) (s : State W)
    → Adds s.metrics (with_retry policy contract op s).1.metrics 0 0 0
with_retry-Adds policy contract op s =
    let run = with_retry-IsRun policy contract op s in
    rw run.metrics (record {
      extension_updates = omega (
        arith,
        tally-append is_extension s.metrics (retry_updates policy contract op run.retried),
        retry_updates-tally policy contract op is_extension run.retried refl,
      );
      submission_updates = omega (
        arith,
        tally-append is_submission s.metrics (retry_updates policy contract op run.retried),
        retry_updates-tally policy contract op is_submission run.retried refl,
      );
      error_updates = omega (
        arith,
        tally-append is_poll_error s.metrics (retry_updates policy contract op run.retried),
        retry_updates-tally policy contract op is_poll_error run.retried refl,
      );
    })

-- The update for the outcome of a batch counts as a submission exactly if the outcome was counted.
pub outcome-Adds :
    (m : Metrics) (contract : String) (outcome : Result String ExtendOutcome) (sent : ℕ)
    → (n : ℕ) × Adds m (m ++ extensions contract (outcome_label outcome) ∷ []) 1 n 0
      × (n ≤ 1)
      × (count_submitted outcome sent ≡ sent + n)
outcome-Adds m contract (ok (submitted h)) sent =
    (1, Adds-push m (extensions contract "submitted"), omega arith, refl)
outcome-Adds m contract (ok no_op) sent =
    (0, Adds-push m (extensions contract "noop"), omega arith, omega arith)
outcome-Adds m contract (err e) sent =
    (0, Adds-push m (extensions contract "error"), omega arith, omega arith)
