-- ===== src/Storage/Host.antt =====
-- The storage of the Soroban host, which crates/soroban-storage/src/ops.rs calls through
-- `env.storage()`: a parameter, with the documented behaviour that the operations rely on.
-- A key fixes the type of its value, as an entry of `storage!` does, so the SDK's conversions
-- to and from `Val` do not show.
use soroban_storage_the_on_c.Prelude.{
  ℕ, ◌≤◌, ◌<◌, ◌≡◌, ◌≢◌, ◌⊎◌, Bool, Option, none, some, ltb, if◌then◌else◌,
}
use soroban_storage_the_on_c.Storage.Lifecycle.{Lifecycle, temporary, persistent, instance}

-- `env.storage().persistent()` and `.temporary()`. The host traps by `none`.
pub record KeyedStorage (Env Key : Type 0) (Value : Key → Type 0) : Type 0 where
  pub has : Key → Env → Bool
  pub get : (k : Key) → Env → Option (Value k)
  pub set : (k : Key) → Value k → Env → Env
  pub update : (k : Key) → (Option (Value k) → Value k) → Env → Value k × Env
  pub remove : Key → Env → Env
  pub extend_ttl : Key → ℕ → ℕ → Env → Option Env

-- `env.storage().instance()`: its entries share one TTL, so `extend_ttl` takes no key.
pub record InstanceStorage (Env Key : Type 0) (Value : Key → Type 0) : Type 0 where
  pub has : Key → Env → Bool
  pub get : (k : Key) → Env → Option (Value k)
  pub set : (k : Key) → Value k → Env → Env
  pub update : (k : Key) → (Option (Value k) → Value k) → Env → Value k × Env
  pub remove : Key → Env → Env
  pub extend_ttl : ℕ → ℕ → Env → Option Env

pub record Host (Env Key : Type 0) (Value : Key → Type 0) : Type 0 where
  pub persistent_storage : KeyedStorage Env Key Value
  pub temporary_storage : KeyedStorage Env Key Value
  pub instance_storage : InstanceStorage Env Key Value

abbrev pub is_some {ℓ} : {A : Type ℓ} → Option A → Bool
is_some none = Bool.false
is_some (some a) = Bool.true

-- The host's storage read by lifecycle. The laws below are stated with these.
module _ {Env Key : Type 0} {Value : Key → Type 0} (h : Host Env Key Value) where
  abbrev pub has_at : Lifecycle → Key → Env → Bool
  has_at temporary = h.temporary_storage.has
  has_at persistent = h.persistent_storage.has
  has_at instance = h.instance_storage.has

  abbrev pub get_at : Lifecycle → (k : Key) → Env → Option (Value k)
  get_at temporary = h.temporary_storage.get
  get_at persistent = h.persistent_storage.get
  get_at instance = h.instance_storage.get

  abbrev pub set_at : Lifecycle → (k : Key) → Value k → Env → Env
  set_at temporary = h.temporary_storage.set
  set_at persistent = h.persistent_storage.set
  set_at instance = h.instance_storage.set

  abbrev pub update_at : Lifecycle → (k : Key) → (Option (Value k) → Value k) → Env → Value k × Env
  update_at temporary = h.temporary_storage.update
  update_at persistent = h.persistent_storage.update
  update_at instance = h.instance_storage.update

  abbrev pub remove_at : Lifecycle → Key → Env → Env
  remove_at temporary = h.temporary_storage.remove
  remove_at persistent = h.persistent_storage.remove
  remove_at instance = h.instance_storage.remove

  abbrev pub extend_at : Lifecycle → Key → ℕ → ℕ → Env → Option Env
  extend_at temporary = h.temporary_storage.extend_ttl
  extend_at persistent = h.persistent_storage.extend_ttl
  extend_at instance = λ k. h.instance_storage.extend_ttl

  -- The documented behaviour. `ttl` is the number of ledgers that an entry still lives, and
  -- `longest` the network's limit on it.
  pub record HostLaws : Type 0 where
    pub ttl : Lifecycle → Key → Env → ℕ
    pub longest : Lifecycle → ℕ
    pub has-get : (lc : Lifecycle) (k : Key) (e : Env) → has_at lc k e ≡ is_some (get_at lc k e)
    pub get-set_self :
        (lc : Lifecycle) (k : Key) (v : Value k) (e : Env) → get_at lc k (set_at lc k v e) ≡ some v
    pub get-set_ne :
        (lc mc : Lifecycle) (k j : Key) (v : Value k) (e : Env)
        → (lc ≢ mc) ⊎ (k ≢ j)
        → get_at mc j (set_at lc k v e) ≡ get_at mc j e
    pub get-remove_self :
        (lc : Lifecycle) (k : Key) (e : Env) → get_at lc k (remove_at lc k e) ≡ none
    pub get-remove_ne :
        (lc mc : Lifecycle) (k j : Key) (e : Env)
        → (lc ≢ mc) ⊎ (k ≢ j)
        → get_at mc j (remove_at lc k e) ≡ get_at mc j e
    pub update_lem :
        (lc : Lifecycle) (k : Key) (f : Option (Value k) → Value k) (e : Env)
        → update_at lc k f e ≡ (f (get_at lc k e), set_at lc k (f (get_at lc k e)) e)
    -- A write keeps the TTL of an entry that is there.
    pub ttl-set :
        (lc : Lifecycle) (k : Key) (v : Value k) (e : Env)
        → get_at lc k e ≢ none
        → ttl lc k (set_at lc k v e) ≡ ttl lc k e
    -- The host refuses a threshold above the target.
    pub extend_inverted :
        (lc : Lifecycle) (k : Key) (threshold extend_to : ℕ) (e : Env)
        → extend_to < threshold
        → extend_at lc k threshold extend_to e ≡ none
    -- It refuses an entry that is not there; the instance always is.
    pub extend_missing :
        (lc : Lifecycle) (k : Key) (threshold extend_to : ℕ) (e : Env)
        → lc ≢ instance
        → get_at lc k e ≡ none
        → extend_at lc k threshold extend_to e ≡ none
    -- Within the limits it extends exactly if the TTL is below the threshold.
    pub extended : Lifecycle → Key → ℕ → ℕ → Env → Env
    pub extend_lem :
        (lc : Lifecycle) (k : Key) (threshold extend_to : ℕ) (e : Env)
        → threshold ≤ extend_to
        → extend_to ≤ longest lc
        → (lc ≡ instance) ⊎ (get_at lc k e ≢ none)
        → extend_at lc k threshold extend_to e ≡ some (extended lc k threshold extend_to e)
    pub ttl-extended :
        (lc : Lifecycle) (k : Key) (threshold extend_to : ℕ) (e : Env)
        → threshold ≤ extend_to
        → extend_to ≤ longest lc
        → (lc ≡ instance) ⊎ (get_at lc k e ≢ none)
        → ttl lc k (extended lc k threshold extend_to e)
          ≡ (if ltb (ttl lc k e) threshold then extend_to else ttl lc k e)
    pub get-extended :
        (lc mc : Lifecycle) (k j : Key) (threshold extend_to : ℕ) (e : Env)
        → get_at mc j (extended lc k threshold extend_to e) ≡ get_at mc j e
