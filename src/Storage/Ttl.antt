-- ===== src/Storage/Ttl.antt =====
-- crates/soroban-storage/src/ttl.rs.
pub mod Clamp
use soroban_storage_the_on_c.Prelude.{ℕ, ◌*◌, ◌%◌, ◌^◌, ltb, if◌then◌else◌}
use soroban_storage_the_on_c.Storage.Lifecycle.{Lifecycle, temporary, persistent, instance}

abbrev pub ledgers_per_day : ℕ
ledgers_per_day = 17280

abbrev pub min_persistent_ttl : ℕ
min_persistent_ttl = 4095

abbrev pub max_persistent_ttl : ℕ
max_persistent_ttl = 6311390

abbrev pub max_temp_ttl : ℕ
max_temp_ttl = 3110400

pub record TtlPolicy : Type 0 where
  pub threshold_ledgers : ℕ
  pub extend_to_ledgers : ℕ

abbrev pub new : ℕ → ℕ → TtlPolicy
new threshold extend_to = record { threshold_ledgers = threshold; extend_to_ledgers = extend_to }

-- The products are taken in `u32`.
unfoldable pub days : ℕ → ℕ → TtlPolicy
days threshold_days extend_days =
    new (threshold_days * ledgers_per_day % 2 ^ 32) (extend_days * ledgers_per_day % 2 ^ 32)

-- The `max` of `clamped_for`.
abbrev pub max_ttl : Lifecycle → ℕ
max_ttl temporary = max_temp_ttl
max_ttl persistent = max_persistent_ttl
max_ttl instance = max_persistent_ttl

unfoldable pub clamped_for : TtlPolicy → Lifecycle → TtlPolicy
clamped_for policy lc =
    let limit = max_ttl lc in
    let extend_to =
      if ltb limit policy.extend_to_ledgers then limit else policy.extend_to_ledgers in
    record { threshold_ledgers = policy.threshold_ledgers; extend_to_ledgers = extend_to }

-- `TtlPolicy::default`.
unfoldable pub default : TtlPolicy
unfolding days
default = days 7 30

unfoldable pub default_policy : Lifecycle → TtlPolicy
default_policy temporary = new ledgers_per_day (30 * ledgers_per_day)
default_policy persistent = new (7 * ledgers_per_day) (30 * ledgers_per_day)
default_policy instance = new (7 * ledgers_per_day) (30 * ledgers_per_day)
