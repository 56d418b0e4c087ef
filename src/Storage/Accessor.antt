-- ===== src/Storage/Accessor.antt =====
-- crates/soroban-storage-macros/src/lib.rs, the accessor struct that `storage!` generates for an
-- entry: its constants, and its methods, each a call of crates/soroban-storage/src/ops.rs.
use soroban_storage_the_on_c.Prelude.{ℕ, Bool, Option}
use soroban_storage_the_on_c.Storage.Lifecycle.{Lifecycle}
use soroban_storage_the_on_c.Storage.Ttl.{TtlPolicy}
use soroban_storage_the_on_c.Storage.Host.{Host}
use soroban_storage_the_on_c.Storage.Ops
use soroban_storage_the_on_c.Storage.Ops.{Action}

-- The associated constants `LIFECYCLE`, `CRITICAL`, `AUTO_BUMP` and `POLICY`.
pub record Consts : Type 0 where
  pub lifecycle : Lifecycle
  pub critical : Bool
  pub auto_bump : Bool
  pub policy : TtlPolicy

-- The methods, at the key that `Self::key` built from the arguments.
module _ {Env Key : Type 0} {Value : Key → Type 0} (h : Host Env Key Value) (c : Consts) where
  abbrev pub has : Key → Action Env Bool
  has k = Ops.has h c.lifecycle k

  abbrev pub get : (k : Key) → Action Env (Option (Value k))
  get k = Ops.get h c.lifecycle k c.policy c.auto_bump

  abbrev pub set : (k : Key) → Value k → Action Env Unit
  set k v = Ops.set h c.lifecycle k v c.policy c.auto_bump

  abbrev pub set_ttl : (k : Key) → Value k → ℕ → Action Env Unit
  set_ttl k v ttl_ledgers = Ops.set_ttl h c.lifecycle k v ttl_ledgers

  abbrev pub update : (k : Key) → (Option (Value k) → Value k) → Action Env (Value k)
  update k f = Ops.update h c.lifecycle k f c.policy c.auto_bump

  abbrev pub remove : Key → Action Env Unit
  remove k = Ops.remove h c.lifecycle k

  abbrev pub bump : Key → Action Env Unit
  bump k = Ops.bump h c.lifecycle k c.policy

  abbrev pub extend_ttl : Key → ℕ → Action Env Unit
  extend_ttl k ttl_ledgers = Ops.extend_ttl h c.lifecycle k ttl_ledgers
