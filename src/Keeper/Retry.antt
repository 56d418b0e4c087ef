-- ===== src/Keeper/Retry.antt =====
-- crates/soroban-rent-keeper/src/keeper.rs: the retry policy and `with_retry`, over the keeper's
-- effects: calls of the network, updates of the metrics, and sleeps.
pub mod Backoff
pub mod Runs
use soroban_storage_the_on_c.Prelude.{
  ℕ, zero, suc, ◌-◌, ◌+◌, ◌*◌, ◌^◌, min, Bool, true, false, not, ◌||◌, List, [], ◌∷◌, ◌++◌, String,
  leb, if◌then◌else◌, Result, ok, err,
}
use soroban_storage_the_on_c.Keeper.Metrics.{Metrics, inc_retry}
use soroban_storage_the_on_c.Keeper.Transient.{is_transient}
use soroban_storage_the_on_c.Keeper.Rpc.{Call}

-- What the keeper did, in order: it asked the network, or slept for a delay.
pub data Event : Type 0 where
  asked : Event
  slept : ℕ → Event

-- What the keeper acts on: the network's world and the metrics, with the events so far.
pub record State (W : Type 0) : Type 0 where
  pub world : W
  pub metrics : Metrics
  pub trace : List Event

abbrev pub Run : Type 0 → Type 0 → Type 0
Run W A = State W → A × State W

abbrev pub pure : {W A : Type 0} → A → Run W A
pure a s = (a, s)

infixl 5 ◌>>=◌ ◌>>◌
abbrev pub ◌>>=◌ : {W A B : Type 0} → Run W A → (A → Run W B) → Run W B
◌>>=◌ m f s = let (a, s') = m s in f a s'

abbrev pub ◌>>◌ : {W B : Type 0} → Run W Unit → Run W B → Run W B
m >> k = m >>= λ _. k

abbrev pub call : {W A : Type 0} → Call W A → Run W (Result String A)
call op s =
    let (r, world') = op s.world in (r, record s { world = world'; trace = s.trace ++ asked ∷ [] })

abbrev pub record_metric : {W : Type 0} → (Metrics → Metrics) → Run W Unit
record_metric f s = (tt, record s { metrics = f s.metrics })

abbrev pub sleep : {W : Type 0} → ℕ → Run W Unit
sleep delay s = (tt, record s { trace = s.trace ++ slept delay ∷ [] })

-- Durations are numbers of nanoseconds, and `duration_max` is `Duration::MAX`.
abbrev pub duration_max : ℕ
duration_max = 2 ^ 64 * 1_000_000_000 - 1

pub record RetryPolicy : Type 0 where
  pub max_attempts : ℕ
  pub base_delay : ℕ
  pub max_delay : ℕ

-- `RetryPolicy::default`.
abbrev pub default : RetryPolicy
default = record { max_attempts = 3; base_delay = 200_000_000; max_delay = 5_000_000_000 }

unfoldable pub retries : RetryPolicy → ℕ
retries policy = policy.max_attempts - 1

unfoldable pub delay_for : RetryPolicy → ℕ → ℕ
delay_for policy attempt =
    let shift = min (attempt - 1) 10 in
    min (min (policy.base_delay * 2 ^ shift) duration_max) policy.max_delay

-- The `match` on the answer of a call, with the next rounds of the loop.
abbrev pub after_call :
    {W T : Type 0}
    → RetryPolicy
    → String
    → Run W (Result String T)
    → (attempt : ℕ) → Result String T
    → Run W (Result String T)
after_call policy contract again attempt (ok value) = pure (ok value)
after_call policy contract again attempt (err error) =
    if leb (retries policy) attempt || not (is_transient error)
    then pure (err error)
    else (record_metric (inc_retry contract) >> sleep (delay_for policy (attempt + 1)) >> again)

-- The loop of `with_retry`, on fuel. With `retries` as the fuel it never runs out: when none is
-- left, `attempt >= policy.retries()`, and the last argument of `after_call` is not used.
unfoldable pub retry_loop :
    {W T : Type 0} → RetryPolicy → String → Call W T → (left attempt : ℕ) → Run W (Result String T)
retry_loop policy contract op zero attempt s =
    let (r, s') = call op s in after_call policy contract (pure r) attempt r s'
retry_loop policy contract op (suc left) attempt s =
    let (r, s') = call op s in
    after_call policy contract (retry_loop policy contract op left (attempt + 1)) attempt r s'

unfoldable pub with_retry :
    {W T : Type 0} → RetryPolicy → String → Call W T → Run W (Result String T)
unfolding retry_loop
with_retry policy contract op = retry_loop policy contract op (retries policy) 0
