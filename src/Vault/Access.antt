-- ===== src/Vault/Access.antt =====
-- The accessors of crates/example-contract/src/lib.rs on a host with the documented behaviour and
-- limits no lower than those of crates/soroban-storage/src/ttl.rs.
use soroban_storage_the_on_c.Prelude.{
  ◌≤◌, ◌≡◌, ◌∙◌, inr, refl, sym, ap, Option, none, some, ok, arith,
}
use soroban_storage_the_on_c.Storage.Lifecycle.{Lifecycle, temporary, persistent, instance}
use soroban_storage_the_on_c.Storage.Ttl.{max_ttl, days}
use soroban_storage_the_on_c.Storage.Ttl.Clamp.{default_policy-IsUsable}
use soroban_storage_the_on_c.Storage.Host.{Host, HostLaws, get_at, set_at, remove_at}
use soroban_storage_the_on_c.Storage.Ops.{Action}
use soroban_storage_the_on_c.Storage.Ops.Laws.{
  CanBump, bumped, get-bumped, get-eq, get-missing, set-eq, update-eq, remove-eq, set_ttl-eq,
}
use soroban_storage_the_on_c.Storage.Ops.RoundTrip.{OnlyAt}
use soroban_storage_the_on_c.Storage.Accessor
use soroban_storage_the_on_c.Storage.Accessor.{Consts}
use soroban_storage_the_on_c.Vault.{
  Key, Value, balance_consts, nonce_consts, admin_consts, grant_consts, stored, grant_ttl,
}

pub stored-some :
    {Env A : Type 0} (action : Action Env A) (e : Env) (r : A × Env)
    → action e ≡ some r
    → stored action e ≡ ok r
stored-some action e r q = rw (q, stored) refl

module _ {Env Address : Type 0} (h : Host Env (Key Address) (Value Address)) where
  -- The same values everywhere.
  abbrev pub Same : Env → Env → Type 0
  Same e e' = (lc : Lifecycle) (k : Key Address) → get_at h lc k e' ≡ get_at h lc k e

  -- A write of the one value.
  abbrev pub Puts : Consts → (k : Key Address) → Value Address k → Env → Env → Type 0
  Puts c k v e e' = (get_at h c.lifecycle k e' ≡ some v) × OnlyAt h c.lifecycle k e e'

  module _ (laws : HostLaws h) (c : Consts) (can : CanBump h laws c.lifecycle c.policy) where
    got :
        (k : Key Address) (e : Env) (o : Option (Value Address k))
        → get_at h c.lifecycle k e ≡ o
        → (e' : Env) × (stored (Accessor.get h c k) e ≡ ok (get_at h c.lifecycle k e, e'))
          × Same e e'
    got k e none q = (
      e,
      stored-some (Accessor.get h c k) e _ (
          get-missing h c.lifecycle k c.policy c.auto_bump e q
          ∙ ap (λ (o : Option (Value Address k)). some (o, e)) (sym q)),
      λ lc j. refl,
    )
    got k e (some v) q = (
      bumped h laws c.auto_bump c.lifecycle k c.policy e,
      stored-some (Accessor.get h c k) e _ (
          get-eq h laws c.lifecycle k c.policy can c.auto_bump v e q
          ∙ ap
              (λ (o : Option (Value Address k)).
                some (o, bumped h laws c.auto_bump c.lifecycle k c.policy e))
              (sym q)),
      λ lc j. get-bumped h laws c.auto_bump c.lifecycle lc k j c.policy e,
    )

    -- A read returns the value that is there, and changes no value.
    pub stored-get :
        (k : Key Address) (e : Env)
        → (e' : Env) × (stored (Accessor.get h c k) e ≡ ok (get_at h c.lifecycle k e, e'))
          × Same e e'
    stored-get k e = got k e (get_at h c.lifecycle k e) refl

    bumped-Puts :
        (k : Key Address) (v : Value Address k) (e : Env)
        → Puts c k v e
            (bumped h laws c.auto_bump c.lifecycle k c.policy (set_at h c.lifecycle k v e))
    bumped-Puts k v e = (
      get-bumped h laws c.auto_bump c.lifecycle c.lifecycle k k c.policy _
          ∙ laws.get-set_self c.lifecycle k v e,
      λ mc j other.
          get-bumped h laws c.auto_bump c.lifecycle mc k j c.policy _
          ∙ laws.get-set_ne c.lifecycle mc k j v e other,
    )

    pub stored-set :
        (k : Key Address) (v : Value Address k) (e : Env)
        → (e' : Env) × (stored (Accessor.set h c k v) e ≡ ok (tt, e')) × Puts c k v e e'
    stored-set k v e = (
      bumped h laws c.auto_bump c.lifecycle k c.policy (set_at h c.lifecycle k v e),
      stored-some (Accessor.set h c k v) e _
          (set-eq h laws c.lifecycle k c.policy can c.auto_bump v e),
      bumped-Puts k v e,
    )

    pub stored-update :
        (k : Key Address) (f : Option (Value Address k) → Value Address k) (e : Env)
        → let v = f (get_at h c.lifecycle k e) in
          (e' : Env) × (stored (Accessor.update h c k f) e ≡ ok (v, e')) × Puts c k v e e'
    stored-update k f e =
        let v = f (get_at h c.lifecycle k e) in
        (
          bumped h laws c.auto_bump c.lifecycle k c.policy (set_at h c.lifecycle k v e),
          stored-some (Accessor.update h c k f) e _
              (update-eq h laws c.lifecycle k c.policy can c.auto_bump f e),
          bumped-Puts k v e,
        )

  module _ (laws : HostLaws h) where
    -- Limits no lower than those that `clamped_for` clamps to.
    abbrev pub Roomy : Type 0
    Roomy = (lc : Lifecycle) → max_ttl lc ≤ laws.longest lc

    pub balance-CanBump : Roomy → CanBump h laws persistent balance_consts.policy
    unfolding days
    balance-CanBump roomy = record {
      usable = record { ordered = omega arith; reachable = omega arith };
      allowed = roomy persistent;
    }

    pub nonce-CanBump : Roomy → CanBump h laws temporary nonce_consts.policy
    nonce-CanBump roomy = record {
      usable = (default_policy-IsUsable temporary).0;
      allowed = roomy temporary;
    }

    pub admin-CanBump : Roomy → CanBump h laws instance admin_consts.policy
    admin-CanBump roomy = record {
      usable = (default_policy-IsUsable instance).0;
      allowed = roomy instance;
    }

    pub grant-CanBump : Roomy → CanBump h laws persistent grant_consts.policy
    grant-CanBump roomy = record {
      usable = (default_policy-IsUsable persistent).0;
      allowed = roomy persistent;
    }

    pub stored-set_ttl :
        (k : Key Address) (v : Value Address k) (e : Env)
        → Roomy
        → (e' : Env) × (stored (Accessor.set_ttl h grant_consts k v grant_ttl) e ≡ ok (tt, e'))
          × (grant_ttl ≤ laws.ttl persistent k e')
          × Puts grant_consts k v e e'
    stored-set_ttl k v e roomy = (
      laws.extended persistent k grant_ttl grant_ttl (set_at h persistent k v e),
      stored-some (Accessor.set_ttl h grant_consts k v grant_ttl) e _
          (set_ttl-eq h laws persistent k v grant_ttl e (omega (arith, roomy persistent))),
      rw
          (laws.ttl-extended persistent k grant_ttl grant_ttl (set_at h persistent k v e)
            (omega arith) (omega (arith, roomy persistent))
            (inr (λ q. cc (laws.get-set_self persistent k v e))))
          (ground arith),
      (
        laws.get-extended persistent persistent k k grant_ttl grant_ttl _
            ∙ laws.get-set_self persistent k v e,
        λ mc j other.
            laws.get-extended persistent mc k j grant_ttl grant_ttl _
            ∙ laws.get-set_ne persistent mc k j v e other,
      ),
    )

    pub stored-remove :
        (k : Key Address) (e : Env)
        → (e' : Env) × (stored (Accessor.remove h grant_consts k) e ≡ ok (tt, e'))
          × (get_at h persistent k e' ≡ none)
          × OnlyAt h persistent k e e'
    stored-remove k e = (
      remove_at h persistent k e,
      stored-some (Accessor.remove h grant_consts k) e _ (remove-eq h persistent k e),
      laws.get-remove_self persistent k e,
      λ mc j other. laws.get-remove_ne persistent mc k j e other,
    )
