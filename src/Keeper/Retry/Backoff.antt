-- ===== src/Keeper/Retry/Backoff.antt =====
-- The delays of `RetryPolicy` in crates/soroban-rent-keeper/src/keeper.rs.
use native.Mathlib.Nat.{pow-suc, pow-le-pow_right, mul_assoc, mul-le-mul_left}
use native.Mathlib.Numerals.{add-one}
use soroban_storage_the_on_c.Prelude.{ℕ, zero, suc, ◌+◌, ◌*◌, ◌^◌, ◌≤◌, ◌<◌, min, ◌≡◌, ap, arith}
use soroban_storage_the_on_c.Keeper.Retry.{RetryPolicy, delay_for, duration_max}

-- The delay with the shift as a variable.
delay_at : RetryPolicy → ℕ → ℕ
delay_at policy shift = min (min (policy.base_delay * 2 ^ shift) duration_max) policy.max_delay

delay_at-suc :
    (policy : RetryPolicy) (n : ℕ)
    → policy.base_delay * 1024 ≤ duration_max
    → n ≤ 9
    → delay_at policy (suc n) ≡ min (2 * delay_at policy n) policy.max_delay
unfolding delay_at
delay_at-suc policy n h small = omega (
  arith,
  ap (λ (t : ℕ). policy.base_delay * t) (pow-suc 2 n),
  mul_assoc policy.base_delay (2 ^ n) 2,
  mul-le-mul_left policy.base_delay (pow-le-pow_right {n = 2} (omega arith) small),
)

delay_for-suc :
    (policy : RetryPolicy) (n : ℕ) → delay_for policy (suc n) ≡ delay_at policy (min n 10)
unfolding delay_for delay_at
delay_for-suc policy n =
    ap (λ (t : ℕ). min (min (policy.base_delay * 2 ^ min t 10) duration_max) policy.max_delay)
      (omega arith)

delay_for-le : (policy : RetryPolicy) (n : ℕ) → delay_for policy n ≤ policy.max_delay
unfolding delay_for
delay_for-le policy n = omega arith

-- Where ten doublings of the base delay stay within `Duration::MAX`, every delay of the second to
-- the eleventh retry is twice the one before it, up to the maximum of the policy; from then on
-- the delay stays the same. No delay is above the maximum.
pub delay_for-doubles :
    (policy : RetryPolicy) (attempt : ℕ)
    → policy.base_delay * 1024 ≤ duration_max
    → 0 < attempt
    → (delay_for policy attempt ≤ policy.max_delay)
      × (attempt ≤ 10
          → delay_for policy (attempt + 1) ≡ min (2 * delay_for policy attempt) policy.max_delay)
      × (10 < attempt → delay_for policy (attempt + 1) ≡ delay_for policy attempt)
delay_for-doubles policy zero h pos = absurd (omega arith)
delay_for-doubles policy (suc n) h pos = (
  delay_for-le policy (suc n),
  λ small.
      rw (add-one (suc n), delay_for-suc policy (suc n), delay_for-suc policy n)
        (let low : min n 10 ≡ n = omega arith in
          let high : min (suc n) 10 ≡ suc n = omega arith in
          rw (low, high) (delay_at-suc policy n h (omega arith))),
  λ large.
      rw (add-one (suc n), delay_for-suc policy (suc n), delay_for-suc policy n)
        (ap (delay_at policy) (omega arith)),
)
