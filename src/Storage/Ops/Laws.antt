-- ===== src/Storage/Ops/Laws.antt =====
-- What the storage operations compute, on a host with the documented behaviour: each operation
-- as one equation, for the proofs about their callers.
use soroban_storage_the_on_c.Prelude.{
  ℕ, ◌≤◌, ◌≡◌, ◌≢◌, ◌⊎◌, refl, ap, inr, Bool, true, false, Option, none, some, if◌then◌else◌,
}
use native.Mathlib.Nat.{le_trans, le_refl}
use soroban_storage_the_on_c.Storage.Lifecycle.{Lifecycle, temporary, persistent, instance}
use soroban_storage_the_on_c.Storage.Ttl.{TtlPolicy, max_ttl, clamped_for}
use soroban_storage_the_on_c.Storage.Ttl.Clamp.{IsUsable, clamped_for-le_max, clamped_for-IsUsable}
use soroban_storage_the_on_c.Storage.Host.{
  Host, HostLaws, has_at, get_at, set_at, update_at, remove_at, extend_at,
}
use soroban_storage_the_on_c.Storage.Ops.{
  Action, tries, pure, ◌>>=◌, has, get, set, set_ttl, update, remove, bump, extend_ttl,
}

module _ {Env Key : Type 0} {Value : Key → Type 0} (h : Host Env Key Value) where
  -- The operations, with the dispatch on the lifecycle resolved.
  pub bump_at :
      (lc : Lifecycle) (k : Key) (policy : TtlPolicy) (e : Env)
      → bump h lc k policy e
        ≡ tries
            (extend_at h lc k
              (clamped_for policy lc).threshold_ledgers
              (clamped_for policy lc).extend_to_ledgers)
            e
  unfolding bump
  bump_at temporary k policy e = refl
  bump_at persistent k policy e = refl
  bump_at instance k policy e = refl

  pub extend_ttl_at :
      (lc : Lifecycle) (k : Key) (n : ℕ) (e : Env)
      → extend_ttl h lc k n e ≡ tries (extend_at h lc k n n) e
  unfolding extend_ttl
  extend_ttl_at temporary k n e = refl
  extend_ttl_at persistent k n e = refl
  extend_ttl_at instance k n e = refl

  pub has-eq : (lc : Lifecycle) (k : Key) (e : Env) → has h lc k e ≡ some (has_at h lc k e, e)
  unfolding has
  has-eq temporary k e = refl
  has-eq persistent k e = refl
  has-eq instance k e = refl

  pub remove-eq :
      (lc : Lifecycle) (k : Key) (e : Env) → remove h lc k e ≡ some (tt, remove_at h lc k e)
  unfolding remove
  remove-eq temporary k e = refl
  remove-eq persistent k e = refl
  remove-eq instance k e = refl

  -- A missing entry is read as `None`, and neither bumped nor changed.
  pub get-missing :
      (lc : Lifecycle) (k : Key) (policy : TtlPolicy) (auto_bump : Bool) (e : Env)
      → get_at h lc k e ≡ none
      → get h lc k policy auto_bump e ≡ some (none, e)
  unfolding get
  get-missing temporary k policy b e p = rw p
  get-missing persistent k policy b e p = rw p
  get-missing instance k policy b e p = rw p

  -- The bump at the end of an operation.
  abbrev pub maybe_bump : Bool → Lifecycle → Key → TtlPolicy → Action Env Unit
  maybe_bump auto_bump lc k policy = if auto_bump then bump h lc k policy else pure tt

  get_present :
      (lc : Lifecycle) (k : Key) (policy : TtlPolicy) (auto_bump : Bool) (v : Value k) (e e' : Env)
      → get_at h lc k e ≡ some v
      → maybe_bump auto_bump lc k policy e ≡ some (tt, e')
      → get h lc k policy auto_bump e ≡ some (some v, e')
  unfolding get
  get_present temporary k policy b v e e' p q = rw (p, q, ◌>>=◌) (ap (λ o. some (o, e')) p)
  get_present persistent k policy b v e e' p q = rw (p, q, ◌>>=◌) (ap (λ o. some (o, e')) p)
  get_present instance k policy b v e e' p q = rw (p, q, ◌>>=◌) (ap (λ o. some (o, e')) p)

  set_then :
      (lc : Lifecycle) (k : Key) (policy : TtlPolicy) (auto_bump : Bool) (v : Value k) (e e' : Env)
      → maybe_bump auto_bump lc k policy (set_at h lc k v e) ≡ some (tt, e')
      → set h lc k v policy auto_bump e ≡ some (tt, e')
  unfolding set
  set_then temporary k policy b v e e' q = q
  set_then persistent k policy b v e e' q = q
  set_then instance k policy b v e e' q = q

  pub set_trap :
      (lc : Lifecycle) (k : Key) (policy : TtlPolicy) (v : Value k) (e : Env)
      → bump h lc k policy (set_at h lc k v e) ≡ none
      → set h lc k v policy true e ≡ none
  unfolding set
  set_trap temporary k policy v e q = q
  set_trap persistent k policy v e q = q
  set_trap instance k policy v e q = q

  set_ttl_then :
      (lc : Lifecycle) (k : Key) (v : Value k) (n : ℕ) (e : Env)
      → set_ttl h lc k v n e ≡ tries (extend_at h lc k n n) (set_at h lc k v e)
  unfolding set_ttl
  set_ttl_then temporary k v n e = extend_ttl_at temporary k n (set_at h temporary k v e)
  set_ttl_then persistent k v n e = extend_ttl_at persistent k n (set_at h persistent k v e)
  set_ttl_then instance k v n e = extend_ttl_at instance k n (set_at h instance k v e)

  update_then :
      (lc : Lifecycle) (k : Key) (policy : TtlPolicy) (auto_bump : Bool) (v : Value k)
      (f : Option (Value k) → Value k) (e e₁ e₂ : Env)
      → update_at h lc k f e ≡ (v, e₁)
      → maybe_bump auto_bump lc k policy e₁ ≡ some (tt, e₂)
      → update h lc k f policy auto_bump e ≡ some (v, e₂)
  unfolding update
  update_then temporary k policy b v f e e₁ e₂ p q = rw (p, q, ◌>>=◌) (ap (λ r. some (r.0, e₂)) p)
  update_then persistent k policy b v f e e₁ e₂ p q = rw (p, q, ◌>>=◌) (ap (λ r. some (r.0, e₂)) p)
  update_then instance k policy b v f e e₁ e₂ p q = rw (p, q, ◌>>=◌) (ap (λ r. some (r.0, e₂)) p)

  module _ (laws : HostLaws h) where
    open laws use {longest, get-set_self, get-extended, extended, extend_lem, update_lem}

    -- The environment after a bump that the host accepts.
    abbrev pub bumped : Bool → Lifecycle → Key → TtlPolicy → Env → Env
    bumped false lc k policy e = e
    bumped true lc k policy e =
        let clamped = clamped_for policy lc in
        extended lc k clamped.threshold_ledgers clamped.extend_to_ledgers e

    -- An entry that can be bumped: it is there, the policy is usable, and the network's limit is
    -- no less than the limit of `clamped_for`.
    pub record CanBump (lc : Lifecycle) (policy : TtlPolicy) : Type 0 where
      pub usable : IsUsable lc policy
      pub allowed : max_ttl lc ≤ longest lc

    -- Bumping changes no value.
    pub get-bumped :
        (b : Bool) (lc mc : Lifecycle) (k j : Key) (policy : TtlPolicy) (e : Env)
        → get_at h mc j (bumped b lc k policy e) ≡ get_at h mc j e
    get-bumped true lc mc k j policy e = get-extended lc mc k j _ _ e
    get-bumped false lc mc k j policy e = refl

    module _ (lc : Lifecycle) (k : Key) (policy : TtlPolicy) (c : CanBump lc policy) where
      pub bump-eq :
          (e : Env)
          → (lc ≡ instance) ⊎ (get_at h lc k e ≢ none)
          → bump h lc k policy e ≡ some (tt, bumped true lc k policy e)
      bump-eq e present = rw bump_at (
          rw
            (
              extend_lem lc k _ _ e (clamped_for-IsUsable policy lc c.usable)
                  (le_trans (clamped_for-le_max policy lc) c.allowed) present,
              tries,
            )
            refl)

      maybe_bump-eq :
          (b : Bool) (e : Env)
          → get_at h lc k e ≢ none
          → maybe_bump b lc k policy e ≡ some (tt, bumped b lc k policy e)
      maybe_bump-eq true e present = bump-eq e (inr present)
      maybe_bump-eq false e present = refl

      pub get-eq :
          (b : Bool) (v : Value k) (e : Env)
          → get_at h lc k e ≡ some v
          → get h lc k policy b e ≡ some (some v, bumped b lc k policy e)
      get-eq b v e p = get_present lc k policy b v e _ p (maybe_bump-eq b e (λ q. cc))

      written : (v : Value k) (e : Env) → get_at h lc k (set_at h lc k v e) ≢ none
      written v e q = cc (get-set_self lc k v e)

      pub set-eq :
          (b : Bool) (v : Value k) (e : Env)
          → set h lc k v policy b e ≡ some (tt, bumped b lc k policy (set_at h lc k v e))
      set-eq b v e = set_then lc k policy b v e _ (maybe_bump-eq b _ (written v e))

      pub update-eq :
          (b : Bool) (f : Option (Value k) → Value k) (e : Env)
          → let v = f (get_at h lc k e) in
            update h lc k f policy b e ≡ some (v, bumped b lc k policy (set_at h lc k v e))
      update-eq b f e =
          update_then lc k policy b _ f e _ _ (update_lem lc k f e)
            (maybe_bump-eq b _ (written _ e))

    pub set_ttl-eq :
        (lc : Lifecycle) (k : Key) (v : Value k) (n : ℕ) (e : Env)
        → n ≤ longest lc
        → set_ttl h lc k v n e ≡ some (tt, extended lc k n n (set_at h lc k v e))
    set_ttl-eq lc k v n e fits = rw set_ttl_then (
        rw
          (
            extend_lem lc k n n (set_at h lc k v e) (le_refl n) fits
                (inr (λ q. cc (get-set_self lc k v e))),
            tries,
          )
          refl)
