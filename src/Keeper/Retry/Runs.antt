-- ===== src/Keeper/Retry/Runs.antt =====
-- What a call of `with_retry` in crates/soroban-rent-keeper/src/keeper.rs does, from its first
-- attempt to the result that it returns.
use mathlib.Core.List.{append_assoc, append-nil}
use soroban_storage_the_on_c.Prelude.{
  ℕ, zero, suc, ◌+◌, ◌-◌, ◌*◌, ◌^◌, min, ◌≤◌, ◌≡◌, ◌⊎◌, inl, inr, refl, sym, ap, ◌∙◌, true, false,
  List, [], ◌∷◌, ◌++◌, String, lt→leb_false, le→leb, Result, ok, err, Bool-cases, arith,
}
use soroban_storage_the_on_c.Keeper.Metrics.{Update, retry}
use soroban_storage_the_on_c.Keeper.Transient.{is_transient}
use soroban_storage_the_on_c.Keeper.Rpc.{Call}
use soroban_storage_the_on_c.Keeper.Retry.{
  Event, asked, slept, duration_max, State, RetryPolicy, retries, delay_for, after_call, retry_loop,
  with_retry, pure,
}

module _ {W T : Type 0} (policy : RetryPolicy) (contract : String) (op : Call W T) where
  -- The world after `n` calls, and the answer of the call after those.
  abbrev pub world_after : ℕ → W → W
  world_after zero w = w
  world_after (suc n) w = world_after n (op w).1

  abbrev pub answer : ℕ → W → Result String T
  answer n w = (op (world_after n w)).0

  -- The first `n` calls fail with errors that look transient.
  abbrev pub AllTransient : ℕ → W → Type 0
  AllTransient zero w = Unit
  AllTransient (suc n) w =
      ((e : String) × ((op w).0 ≡ err e) × (is_transient e ≡ true)) × AllTransient n (op w).1

  -- The metric updates of `n` retries.
  abbrev pub retry_updates : ℕ → List Update
  retry_updates zero = []
  retry_updates (suc n) = retry contract ∷ retry_updates n

  -- The pause after that many retries: the base delay, doubled as often but ten times at most, and
  -- no longer than the longest delay of the policy.
  abbrev pub backoff : ℕ → ℕ
  backoff before = min (min (policy.base_delay * 2 ^ min before 10) duration_max) policy.max_delay

  -- A call, and `n` times a pause and another call.
  abbrev pub events : ℕ → ℕ → List Event
  events before zero = asked ∷ []
  events before (suc n) = asked ∷ slept (backoff before) ∷ events (before + 1) n

  delay_for-eq : (before : ℕ) → delay_for policy (before + 1) ≡ backoff before
  unfolding delay_for
  delay_for-eq before = let back : before + 1 - 1 ≡ before = omega arith in rw back refl

  -- A result that ends the loop after `n` of `limit` retries: a value, a permanent error, or the
  -- error of the last retry.
  abbrev pub Ends : ℕ → ℕ → Result String T → Type 0
  Ends limit n (ok value) = Unit
  Ends limit n (err e) = (is_transient e ≡ false) ⊎ (n ≡ limit)

  -- From the state `s`, with at most `limit` retries, the call returns `r` in the state `s'`.
  pub record IsRun (limit attempt : ℕ) (s : State W) (r : Result String T) (s' : State W)
      : Type 0 where
    pub retried : ℕ
    pub bounded : retried ≤ limit
    pub failures : AllTransient retried s.world
    pub result : r ≡ answer retried s.world
    pub ends : Ends limit retried r
    pub world : s'.world ≡ world_after (suc retried) s.world
    pub metrics : s'.metrics ≡ s.metrics ++ retry_updates retried
    pub trace : s'.trace ≡ s.trace ++ events attempt retried

  -- The state after one call, and after the pause that follows it.
  abbrev called : State W → State W
  called s = record s { world = (op s.world).1; trace = s.trace ++ asked ∷ [] }

  abbrev paused : ℕ → State W → State W
  paused attempt s = record s {
    world = (op s.world).1;
    metrics = s.metrics ++ retry contract ∷ [];
    trace = (s.trace ++ asked ∷ []) ++ slept (delay_for policy (attempt + 1)) ∷ [];
  }

  one_call :
      (limit attempt : ℕ) (s : State W) (r : Result String T)
      → r ≡ answer 0 s.world
      → Ends limit 0 r
      → IsRun limit attempt s r (called s)
  one_call limit attempt s r q ends = record {
    retried = 0;
    bounded = omega arith;
    failures = tt;
    result = q;
    ends = ends;
    world = refl;
    metrics = sym (append-nil s.metrics);
    trace = refl;
  }

  Ends-suc : (limit n : ℕ) (r : Result String T) → Ends limit n r → Ends (suc limit) (suc n) r
  Ends-suc limit n (ok value) h = tt
  Ends-suc limit n (err e) (inl permanent) = inl permanent
  Ends-suc limit n (err e) (inr last) = inr (ap suc last)

  one_more :
      (limit attempt : ℕ) (s : State W) (e : String) (r : Result String T) (s' : State W)
      → (op s.world).0 ≡ err e
      → is_transient e ≡ true
      → IsRun limit (attempt + 1) (paused attempt s) r s'
      → IsRun (suc limit) attempt s r s'
  one_more limit attempt s e r s' q transient run = record {
    retried = suc run.retried;
    bounded = omega (arith, run.bounded);
    failures = ((e, q, transient), run.failures);
    result = run.result;
    ends = Ends-suc limit run.retried r run.ends;
    world = run.world;
    metrics = run.metrics ∙ append_assoc s.metrics (retry contract ∷ []) _;
    trace =
        run.trace
        ∙ append_assoc (s.trace ++ asked ∷ []) _ _
        ∙ append_assoc s.trace (asked ∷ []) _
        ∙ ap (λ d. s.trace ++ asked ∷ slept d ∷ events (attempt + 1) run.retried)
            (delay_for-eq attempt);
  }

  after_call-last :
      (attempt : ℕ) (s : State W) (r : Result String T)
      → (op s.world).0 ≡ r
      → attempt ≡ retries policy
      → let (r', s') = after_call policy contract (pure r) attempt r (called s) in
        IsRun 0 attempt s r' s'
  after_call-last attempt s (ok value) q h = one_call 0 attempt s (ok value) (sym q) tt
  after_call-last attempt s (err e) q h =
      rw (le→leb (retries policy) attempt (omega arith))
        (one_call 0 attempt s (err e) (sym q) (inr refl))

  after_call-IsRun :
      (left attempt : ℕ) (s : State W) (r : Result String T)
      (again : State W → Result String T × State W)
      → (op s.world).0 ≡ r
      → attempt + suc left ≡ retries policy
      → IsRun left
          (attempt + 1)
          (paused attempt s)
          (again (paused attempt s)).0
          (again (paused attempt s)).1
      → let (r', s') = after_call policy contract again attempt r (called s) in
        IsRun (suc left) attempt s r' s'
  after_call-IsRun left attempt s (ok value) again q h run =
      one_call (suc left) attempt s (ok value) (sym q) tt
  after_call-IsRun left attempt s (err e) again q h run =
      rw (lt→leb_false (retries policy) attempt (omega arith)) (elim (Bool-cases (is_transient e)) [
        | inl transient ↦ rw transient (one_more left attempt s e _ _ q transient run)
        | inr permanent ↦
            rw permanent (one_call (suc left) attempt s (err e) (sym q) (inl permanent))
      ])

  retry_loop-IsRun :
      (left attempt : ℕ) (s : State W)
      → attempt + left ≡ retries policy
      → IsRun left attempt s
          (retry_loop policy contract op left attempt s).0
          (retry_loop policy contract op left attempt s).1
  unfolding retry_loop
  retry_loop-IsRun zero attempt s h = after_call-last attempt s (op s.world).0 refl (omega arith)
  retry_loop-IsRun (suc left) attempt s h =
      after_call-IsRun left attempt s (op s.world).0
        (retry_loop policy contract op left (attempt + 1)) refl h
        (retry_loop-IsRun left (attempt + 1) (paused attempt s) (omega arith))

  -- `with_retry` calls the operation once, and again after each answer that looks transient, one
  -- time less than `max_attempts` at most; it returns the answer of the last call, which is a
  -- value, a permanent error, or the error of the last retry allowed. Each retry is counted once in
  -- the metrics. Between a call that failed and the next one it sleeps once, for the base delay
  -- doubled for every retry before, ten times at most, and no longer than `max_delay`.
  pub with_retry-IsRun :
      (s : State W)
      → IsRun
          (policy.max_attempts - 1)
          0
          s
          (with_retry policy contract op s).0
          (with_retry policy contract op s).1
  unfolding with_retry retries
  with_retry-IsRun s = retry_loop-IsRun (retries policy) 0 s (omega arith)
