-- ===== src/Keeper/Risk.antt =====
-- crates/soroban-rent-keeper/src/risk.rs.
pub mod Levels
pub mod Chunks
pub mod Batches
use soroban_storage_the_on_c.Prelude.{
  ℕ, ◌-◌, Bool, true, false, not, ◌&&◌, List, [], ◌∷◌, ◌++◌, String, ltb, leb, is_empty,
  saturating_add, if◌then◌else◌,
}
use soroban_storage_the_on_c.Prelude.Int.{ℤ, pos, ◌-ℤ◌, leb_ℤ}

pub data RiskLevel : Type 0 where
  safe watch critical : RiskLevel

abbrev pub as_str : RiskLevel → String
as_str safe = "safe"
as_str watch = "watch"
as_str critical = "critical"

-- `saturating_sub` on `u32`.
abbrev pub ttl_remaining : ℕ → ℕ → ℕ
ttl_remaining live_until_ledger current_ledger = live_until_ledger - current_ledger

unfoldable pub classify : ℕ → ℕ → ℕ → RiskLevel
classify ttl threshold_ledgers extend_to_ledgers =
    if leb ttl threshold_ledgers
    then critical
    else if ltb ttl extend_to_ledgers
    then watch
    else safe

unfoldable pub should_extend : ℕ → ℕ → Bool
should_extend ttl threshold_ledgers = leb ttl threshold_ledgers

unfoldable pub ledgers_until_critical : ℕ → ℕ → ℤ
unfolding ◌-ℤ◌
ledgers_until_critical ttl threshold_ledgers = pos ttl -ℤ pos threshold_ledgers

unfoldable pub signer_balance_is_sufficient : ℤ → ℤ → Bool
signer_balance_is_sufficient balance_stroops floor_stroops = leb_ℤ floor_stroops balance_stroops

pub record BatchEntry : Type 0 where
  pub key_xdr : String
  pub size_bytes : ℕ

-- The variables of the loop of `plan_batches`.
pub record Planning : Type 0 where
  pub batches : List (List BatchEntry)
  pub current : List BatchEntry
  pub current_bytes : ℕ

-- `if !current.is_empty() && … { batches.push(take(&mut current)); current_bytes = 0; }`
abbrev pub flush : ℕ → Planning → BatchEntry → Planning
flush max_batch_bytes p entry =
    if not (is_empty p.current)
      && ltb max_batch_bytes (saturating_add p.current_bytes entry.size_bytes)
    then record { batches = p.batches ++ p.current ∷ []; current = []; current_bytes = 0 }
    else p

abbrev pub push : Planning → BatchEntry → Planning
push p entry = record p {
  current = p.current ++ entry ∷ [];
  current_bytes = saturating_add p.current_bytes entry.size_bytes;
}

unfoldable pub plan_loop : ℕ → Planning → List BatchEntry → Planning
plan_loop max_batch_bytes p [] = p
plan_loop max_batch_bytes p (entry ∷ entries) =
    plan_loop max_batch_bytes (push (flush max_batch_bytes p entry) entry) entries

abbrev pub finish : Planning → List (List BatchEntry)
finish p = if not (is_empty p.current) then p.batches ++ p.current ∷ [] else p.batches

unfoldable pub plan_batches : List BatchEntry → ℕ → List (List BatchEntry)
unfolding plan_loop
plan_batches entries max_batch_bytes =
    finish
      (plan_loop max_batch_bytes (record { batches = []; current = []; current_bytes = 0 }) entries)
