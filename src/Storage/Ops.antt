-- ===== src/Storage/Ops.antt =====
-- crates/soroban-storage/src/ops.rs: every function dispatches on the lifecycle and calls the
-- host. `none` stands for a trap of the host, which ends the invocation.
pub mod Laws
pub mod RoundTrip
pub mod Lifetime
pub mod Examples
use soroban_storage_the_on_c.Prelude.{ℕ, Bool, true, false, ◌&&◌, Option, none, some, if◌then◌else◌}
use soroban_storage_the_on_c.Storage.Lifecycle.{Lifecycle, temporary, persistent, instance}
use soroban_storage_the_on_c.Storage.Ttl.{TtlPolicy, clamped_for}
use soroban_storage_the_on_c.Storage.Host.{Host, is_some}

-- What runs in a contract: it changes the environment, or traps.
abbrev pub Action : Type 0 → Type 0 → Type 0
Action Env A = Env → Option (A × Env)

abbrev pub pure : {Env A : Type 0} → A → Action Env A
pure a e = some (a, e)

abbrev pub trap : {Env A : Type 0} → Action Env A
trap e = none

infixl 5 ◌>>=◌ ◌>>◌
abbrev pub ◌>>=◌ : {Env A B : Type 0} → Action Env A → (A → Action Env B) → Action Env B
◌>>=◌ m f e = elim (m e) [ none ↦ none | some (a, e') ↦ f a e' ]

abbrev pub ◌>>◌ : {Env A B : Type 0} → Action Env A → Action Env B → Action Env B
m >> k = m >>= λ _. k

-- A host call that only reads, that only writes, and that may trap.
abbrev pub reads : {Env A : Type 0} → (Env → A) → Action Env A
reads f e = some (f e, e)

abbrev pub writes : {Env : Type 0} → (Env → Env) → Action Env Unit
writes f e = some (tt, f e)

abbrev pub tries : {Env : Type 0} → (Env → Option Env) → Action Env Unit
tries f e = elim (f e) [ none ↦ none | some e' ↦ some (tt, e') ]

module _ {Env Key : Type 0} {Value : Key → Type 0} (h : Host Env Key Value) where
  unfoldable pub has : Lifecycle → Key → Action Env Bool
  has persistent k = reads (h.persistent_storage.has k)
  has temporary k = reads (h.temporary_storage.has k)
  has instance k = reads (h.instance_storage.has k)

  unfoldable pub extend_ttl : Lifecycle → Key → ℕ → Action Env Unit
  extend_ttl persistent k ttl_ledgers =
      tries (h.persistent_storage.extend_ttl k ttl_ledgers ttl_ledgers)
  extend_ttl temporary k ttl_ledgers =
      tries (h.temporary_storage.extend_ttl k ttl_ledgers ttl_ledgers)
  extend_ttl instance k ttl_ledgers = tries (h.instance_storage.extend_ttl ttl_ledgers ttl_ledgers)

  bump_clamped : Lifecycle → Key → TtlPolicy → Action Env Unit
  bump_clamped persistent k policy =
      tries (h.persistent_storage.extend_ttl k policy.threshold_ledgers policy.extend_to_ledgers)
  bump_clamped temporary k policy =
      tries (h.temporary_storage.extend_ttl k policy.threshold_ledgers policy.extend_to_ledgers)
  bump_clamped instance k policy =
      tries (h.instance_storage.extend_ttl policy.threshold_ledgers policy.extend_to_ledgers)

  unfoldable pub bump : Lifecycle → Key → TtlPolicy → Action Env Unit
  unfolding bump_clamped
  bump lc k policy = bump_clamped lc k (clamped_for policy lc)

  -- The `match` that reads.
  get_value : Lifecycle → (k : Key) → Action Env (Option (Value k))
  get_value persistent k = reads (h.persistent_storage.get k)
  get_value temporary k = reads (h.temporary_storage.get k)
  get_value instance k = reads (h.instance_storage.get k)

  unfoldable pub get : Lifecycle → (k : Key) → TtlPolicy → Bool → Action Env (Option (Value k))
  unfolding get_value
  get lc k policy auto_bump = do
    value ← get_value lc k
    if is_some value && auto_bump then bump lc k policy else pure tt
    pure value

  -- The `match` that writes, in `set` and in `set_ttl`.
  set_value : Lifecycle → (k : Key) → Value k → Action Env Unit
  set_value persistent k v = writes (h.persistent_storage.set k v)
  set_value temporary k v = writes (h.temporary_storage.set k v)
  set_value instance k v = writes (h.instance_storage.set k v)

  unfoldable pub set : Lifecycle → (k : Key) → Value k → TtlPolicy → Bool → Action Env Unit
  unfolding set_value
  set lc k v policy auto_bump = do set_value lc k v; if auto_bump then bump lc k policy else pure tt

  unfoldable pub set_ttl : Lifecycle → (k : Key) → Value k → ℕ → Action Env Unit
  unfolding set_value
  set_ttl lc k v ttl_ledgers = do set_value lc k v; extend_ttl lc k ttl_ledgers

  update_value : Lifecycle → (k : Key) → (Option (Value k) → Value k) → Action Env (Value k)
  update_value persistent k f e = some (h.persistent_storage.update k f e)
  update_value temporary k f e = some (h.temporary_storage.update k f e)
  update_value instance k f e = some (h.instance_storage.update k f e)

  unfoldable pub update :
      Lifecycle → (k : Key) → (Option (Value k) → Value k) → TtlPolicy → Bool → Action Env (Value k)
  unfolding update_value
  update lc k f policy auto_bump = do
    value ← update_value lc k f
    if auto_bump then bump lc k policy else pure tt
    pure value

  unfoldable pub remove : Lifecycle → Key → Action Env Unit
  remove persistent k = writes (h.persistent_storage.remove k)
  remove temporary k = writes (h.temporary_storage.remove k)
  remove instance k = writes (h.instance_storage.remove k)
