-- ===== src/Storage/Lifecycle.antt =====
-- crates/soroban-storage/src/lifecycle.rs.
use soroban_storage_the_on_c.Prelude.{Bool, true, false, not, String, ◌≡◌, arith}

pub data Lifecycle : Type 0 where
  temporary persistent instance : Lifecycle

abbrev pub as_str : Lifecycle → String
as_str temporary = "temporary"
as_str persistent = "persistent"
as_str instance = "instance"

abbrev pub is_temporary : Lifecycle → Bool
is_temporary temporary = true
is_temporary persistent = false
is_temporary instance = false

unfoldable pub is_restorable : Lifecycle → Bool
is_restorable lc = not (is_temporary lc)

unfoldable pub accepts_critical : Lifecycle → Bool
accepts_critical lc = not (is_temporary lc)

-- The derived `PartialEq`.
abbrev pub same_lifecycle : Lifecycle → Lifecycle → Bool
same_lifecycle temporary temporary = true
same_lifecycle persistent persistent = true
same_lifecycle instance instance = true
same_lifecycle _ _ = false

pub same_lifecycle→eq : (a b : Lifecycle) → same_lifecycle a b ≡ true → a ≡ b
same_lifecycle→eq a b h = ground arith

pub same_lifecycle_refl : (a : Lifecycle) → same_lifecycle a a ≡ true
same_lifecycle_refl a = ground arith
