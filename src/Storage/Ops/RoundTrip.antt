-- ===== src/Storage/Ops/RoundTrip.antt =====
-- What is read after a write, through crates/soroban-storage/src/ops.rs.
use mathlib.Core.Option.{Option}
use soroban_storage_the_on_c.Prelude.{◌≡◌, ◌≢◌, ◌⊎◌, ap, ◌∙◌, Bool, false, none, some}
use soroban_storage_the_on_c.Storage.Lifecycle.{Lifecycle}
use soroban_storage_the_on_c.Storage.Ttl.{TtlPolicy}
use soroban_storage_the_on_c.Storage.Host.{Host, HostLaws, get_at, set_at, remove_at, is_some}
use soroban_storage_the_on_c.Storage.Ops.{has, get, set, update, remove, ◌>>=◌, ◌>>◌}
use soroban_storage_the_on_c.Storage.Ops.Laws.{
  CanBump, bumped, get-bumped, get-eq, set-eq, update-eq, get-missing, remove-eq, has-eq,
}

module _ {Env Key : Type 0} {Value : Key → Type 0} (h : Host Env Key Value) where
  -- No place but `(lc, k)` holds another value in `e'` than in `e`.
  abbrev pub OnlyAt : Lifecycle → Key → Env → Env → Type 0
  OnlyAt lc k e e' =
      (mc : Lifecycle) (j : Key) → (lc ≢ mc) ⊎ (k ≢ j) → get_at h mc j e' ≡ get_at h mc j e

  module _ (laws : HostLaws h) (lc : Lifecycle) (k : Key) (policy : TtlPolicy) (b : Bool)
      (c : CanBump h laws lc policy) where
    -- With a usable policy, bumping or not, `set` does not trap; then `get` under the same
    -- lifecycle and key returns the value, and every other lifecycle and key holds what it held.
    pub get-set :
        (v : Value k) (e : Env)
        → (e' : Env) × ((set h lc k v policy b >> get h lc k policy b) e ≡ some (some v, e'))
          × OnlyAt lc k e e'
    get-set v e = (
      bumped h laws b lc k policy (bumped h laws b lc k policy (set_at h lc k v e)),
      rw (set-eq h laws lc k policy c b v e, ◌>>=◌)
          (get-eq h laws lc k policy c b v _
            (get-bumped h laws b lc lc k k policy _ ∙ laws.get-set_self lc k v e)),
      λ mc j other.
          get-bumped h laws b lc mc k j policy _
          ∙ get-bumped h laws b lc mc k j policy _
          ∙ laws.get-set_ne lc mc k j v e other,
    )

    -- `update` applies the function to what `get` would return, stores and returns the result,
    -- and changes no other lifecycle or key.
    pub get-update :
        (f : Option (Value k) → Value k) (e : Env)
        → let v = f (get_at h lc k e) in
          (e' : Env) × (update h lc k f policy b e ≡ some (v, e'))
          × (get_at h lc k e' ≡ some v)
          × OnlyAt lc k e e'
    get-update f e =
        let v = f (get_at h lc k e) in
        (
          bumped h laws b lc k policy (set_at h lc k v e),
          update-eq h laws lc k policy c b f e,
          get-bumped h laws b lc lc k k policy _ ∙ laws.get-set_self lc k v e,
          λ mc j other.
              get-bumped h laws b lc mc k j policy _ ∙ laws.get-set_ne lc mc k j v e other,
        )

  -- After `remove` the entry is neither there for `has` nor for `get`, which does not trap and
  -- bumps nothing, whatever the policy; every other lifecycle and key holds what it held.
  pub get-remove :
      (laws : HostLaws h) (lc : Lifecycle) (k : Key) (policy : TtlPolicy) (b : Bool) (e : Env)
      → (e' : Env) × ((remove h lc k >> get h lc k policy b) e ≡ some (none, e'))
        × (has h lc k e' ≡ some (false, e'))
        × OnlyAt lc k e e'
  get-remove laws lc k policy b e =
      let e' = remove_at h lc k e in
      (
        e',
        rw (remove-eq h lc k e, ◌>>=◌)
            (get-missing h lc k policy b e' (laws.get-remove_self lc k e)),
        has-eq h lc k e'
            ∙ ap (λ x. some (x, e'))
                (laws.has-get lc k e' ∙ ap is_some (laws.get-remove_self lc k e)),
        λ mc j other. laws.get-remove_ne lc mc k j e other,
      )
