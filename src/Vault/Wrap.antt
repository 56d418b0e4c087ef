-- ===== src/Vault/Wrap.antt =====
-- The sums and differences of `i128` in crates/example-contract/src/lib.rs.
use soroban_storage_the_on_c.Prelude.{◌≡◌, arith}
use soroban_storage_the_on_c.Prelude.Int.{
  ℤ, pos, negsuc, ◌+ℤ◌, ◌-ℤ◌, ◌≤ℤ◌, ◌<ℤ◌, +ℤ_parts, -ℤ_parts, eq_of_parts,
}
use soroban_storage_the_on_c.Vault.{i128_max, i128_count, wrap_i128, add_i128, sub_i128}

-- The values of `i128`.
pub record IsI128 (a : ℤ) : Type 0 where
  pub least : negsuc i128_max ≤ℤ a
  pub most : a ≤ℤ pos i128_max

pub wrap_inside : (a : ℤ) → IsI128 a → wrap_i128 a ≡ a
unfolding wrap_i128
wrap_inside a inside = ground (arith, inside.least, inside.most)

pub wrap_above : (a : ℤ) → pos i128_max <ℤ a → wrap_i128 a ≡ a -ℤ pos i128_count
unfolding wrap_i128
wrap_above a above = ground (arith, above)

-- A difference that stays in the range.
pub sub_covered :
    (b a : ℤ)
    → b ≤ℤ pos i128_max
    → pos 0 <ℤ a
    → a ≤ℤ b
    → (pos 0 ≤ℤ sub_i128 b a) × (sub_i128 b a +ℤ a ≡ b)
sub_covered b a small positive covered =
    let inside : IsI128 (b -ℤ a) = omega (arith, -ℤ_parts b a) in
    rw (wrap_inside (b -ℤ a) inside) (
      omega (arith, -ℤ_parts b a),
      eq_of_parts _ _ (omega (arith, -ℤ_parts b a, +ℤ_parts (b -ℤ a) a)),
    )

-- A sum of a value and a positive one: it is exact, or it wraps around to a negative value.
pub add_inside :
    (b a : ℤ) → IsI128 b → pos 0 <ℤ a → (b +ℤ a) ≤ℤ pos i128_max → add_i128 b a ≡ b +ℤ a
add_inside b a inside positive fits = wrap_inside (b +ℤ a) (omega (arith, +ℤ_parts b a, inside))

pub add_above : (b a : ℤ) → IsI128 b → IsI128 a → pos i128_max <ℤ (b +ℤ a) → add_i128 b a <ℤ pos 0
add_above b a inside inside' over =
    rw (wrap_above (b +ℤ a) over) (omega (arith, -ℤ_parts (b +ℤ a) (pos i128_count), +ℤ_parts b a))
