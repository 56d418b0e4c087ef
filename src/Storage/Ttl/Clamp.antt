-- ===== src/Storage/Ttl/Clamp.antt =====
-- What clamping does to a TTL policy.
use soroban_storage_the_on_c.Prelude.{◌≤◌, ◌<◌, ◌≡◌, ◌↔◌, arith}
use soroban_storage_the_on_c.Storage.Lifecycle.{Lifecycle, temporary, persistent, instance}
use soroban_storage_the_on_c.Storage.Ttl.{TtlPolicy, max_ttl, clamped_for, default_policy}

-- The host takes a policy only if its threshold is at most its target.
pub record IsUsable (lc : Lifecycle) (policy : TtlPolicy) : Type 0 where
  pub ordered : policy.threshold_ledgers ≤ policy.extend_to_ledgers
  pub reachable : policy.threshold_ledgers ≤ max_ttl lc

pub clamped_for-le_max :
    (policy : TtlPolicy) (lc : Lifecycle) → (clamped_for policy lc).extend_to_ledgers ≤ max_ttl lc
unfolding clamped_for
clamped_for-le_max policy lc = ground arith

-- Clamping an ordered policy keeps the threshold, and leaves the policy ordered exactly if the
-- threshold is at most the maximum of the lifecycle.
pub clamped_for-ordered_iff :
    (policy : TtlPolicy) (lc : Lifecycle)
    → policy.threshold_ledgers ≤ policy.extend_to_ledgers
    → ((clamped_for policy lc).threshold_ledgers ≡ policy.threshold_ledgers)
      × (((clamped_for policy lc).threshold_ledgers ≤ (clamped_for policy lc).extend_to_ledgers)
          ↔ (policy.threshold_ledgers ≤ max_ttl lc))
unfolding clamped_for
clamped_for-ordered_iff policy lc h = ground arith

pub clamped_for-IsUsable :
    (policy : TtlPolicy) (lc : Lifecycle)
    → IsUsable lc policy
    → (clamped_for policy lc).threshold_ledgers ≤ (clamped_for policy lc).extend_to_ledgers
unfolding clamped_for
clamped_for-IsUsable policy lc u = ground arith

pub clamped_for-above :
    (policy : TtlPolicy) (lc : Lifecycle)
    → max_ttl lc < policy.threshold_ledgers
    → policy.threshold_ledgers ≤ policy.extend_to_ledgers
    → (clamped_for policy lc).extend_to_ledgers < (clamped_for policy lc).threshold_ledgers
unfolding clamped_for
clamped_for-above policy lc above ordered = ground arith

-- The default policy of every lifecycle is usable with it, and clamping leaves it as it is.
pub default_policy-IsUsable :
    (lc : Lifecycle)
    → IsUsable lc (default_policy lc) × (clamped_for (default_policy lc) lc ≡ default_policy lc)
unfolding default_policy clamped_for
default_policy-IsUsable temporary =
    (record { ordered = omega arith; reachable = omega arith }, ground arith)
default_policy-IsUsable persistent =
    (record { ordered = omega arith; reachable = omega arith }, ground arith)
default_policy-IsUsable instance =
    (record { ordered = omega arith; reachable = omega arith }, ground arith)
