-- ===== src/Keeper/Risk/Batches.antt =====
-- What `plan_batches` of crates/soroban-rent-keeper/src/risk.rs yields.
use mathlib.Core.List.{flatten}
use soroban_storage_the_on_c.Prelude.{ℕ, ◌<◌, ◌≡◌, refl, inl, List, [], All, u32_max, arith}
use soroban_storage_the_on_c.Keeper.Risk.{BatchEntry, plan_batches}
use soroban_storage_the_on_c.Keeper.Risk.Chunks.{
  chunks, plan_loop-eq-chunks, flatten-chunks, IsBatch, chunks-IsBatch, IsGreedy, chunks-IsGreedy,
}

pub plan_batches-eq-chunks :
    (entries : List BatchEntry) (most : ℕ) → plan_batches entries most ≡ chunks most [] 0 entries
unfolding plan_batches
plan_batches-eq-chunks entries most = plan_loop-eq-chunks most _ entries

-- Batching keeps every entry, once and in its order: the batches, joined, are the entries.
pub flatten-plan_batches :
    (entries : List BatchEntry) (most : ℕ) → flatten (plan_batches entries most) ≡ entries
flatten-plan_batches entries most = rw plan_batches-eq-chunks (flatten-chunks most 0 [] entries)

-- Under a cap below `u32::MAX`, every batch is non-empty, and holds a single entry or has a total
-- size, summed without saturation, of at most the cap.
pub plan_batches-IsBatch :
    (entries : List BatchEntry) (most : ℕ)
    → most < u32_max
    → All (IsBatch most) (plan_batches entries most)
plan_batches-IsBatch entries most small =
    rw plan_batches-eq-chunks
      (chunks-IsBatch most 0 [] entries small (record { counted = omega arith; batch = inl refl }))

-- Batching is greedy: no batch could have taken the first entry of the batch after it without
-- passing the cap.
pub plan_batches-IsGreedy :
    (entries : List BatchEntry) (most : ℕ) → IsGreedy most (plan_batches entries most)
plan_batches-IsGreedy entries most =
    rw plan_batches-eq-chunks (chunks-IsGreedy most 0 [] entries (omega arith))
