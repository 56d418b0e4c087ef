-- ===== src/Keeper/Risk/Levels.antt =====
-- What the classification of crates/soroban-rent-keeper/src/risk.rs says of an entry.
use soroban_storage_the_on_c.Prelude.{ℕ, ◌≤◌, ◌<◌, ◌≡◌, ◌↔◌, true, arith}
use soroban_storage_the_on_c.Prelude.Int.{pos, ◌≤ℤ◌}
use soroban_storage_the_on_c.Keeper.Risk.{
  safe, watch, critical, classify, should_extend, ledgers_until_critical,
}

-- The three levels divide the TTLs: critical up to the threshold, watch above it and below the
-- target, safe above the threshold and from the target on.
pub classify_iff :
    (ttl threshold extend_to : ℕ)
    → ((classify ttl threshold extend_to ≡ critical) ↔ (ttl ≤ threshold))
      × ((classify ttl threshold extend_to ≡ watch) ↔ ((threshold < ttl) × (ttl < extend_to)))
      × ((classify ttl threshold extend_to ≡ safe) ↔ ((threshold < ttl) × (extend_to ≤ ttl)))
unfolding classify
classify_iff ttl threshold extend_to = ground arith

-- The keeper extends exactly the entries that it counts as critical, which are those whose signed
-- distance to the threshold is not positive.
pub should_extend_iff :
    (ttl threshold extend_to : ℕ)
    → ((should_extend ttl threshold ≡ true) ↔ (classify ttl threshold extend_to ≡ critical))
      × ((should_extend ttl threshold ≡ true) ↔ (ledgers_until_critical ttl threshold ≤ℤ pos 0))
unfolding classify should_extend ledgers_until_critical
should_extend_iff ttl threshold extend_to = ground arith
