-- ===== src/Storage/Ops/Lifetime.antt =====
-- What the operations of crates/soroban-storage/src/ops.rs do to the TTL of an entry.
use native.Mathlib.Nat.{le_trans, le_refl}
use soroban_storage_the_on_c.Prelude.{
  ℕ, ◌≤◌, ◌<◌, max, ◌≡◌, ◌≢◌, ◌⊎◌, ◌↔◌, refl, inr, ◌∙◌, true, none, some, arith, ltb, if◌then◌else◌,
}
use soroban_storage_the_on_c.Storage.Lifecycle.{Lifecycle, instance}
use soroban_storage_the_on_c.Storage.Ttl.{TtlPolicy, max_ttl, clamped_for}
use soroban_storage_the_on_c.Storage.Ttl.Clamp.{
  clamped_for-IsUsable, clamped_for-le_max, clamped_for-above,
}
use soroban_storage_the_on_c.Storage.Host.{Host, HostLaws, get_at, set_at}
use soroban_storage_the_on_c.Storage.Ops.{tries, get, set, set_ttl, bump, extend_ttl}
use soroban_storage_the_on_c.Storage.Ops.Laws.{
  CanBump, bumped, bump_at, set_trap, get-eq, set_ttl-eq, extend_ttl_at,
}

-- The policy's promise on a TTL `n` that becomes `m`.
abbrev pub Bumps : Lifecycle → TtlPolicy → ℕ → ℕ → Type 0
Bumps lc policy n m =
    (m ≡ (if ltb n policy.threshold_ledgers then (clamped_for policy lc).extend_to_ledgers else n))
    × (policy.threshold_ledgers ≤ m)
    × (n ≤ m)

Bumps-clamped :
    (lc : Lifecycle) (policy : TtlPolicy) (n : ℕ)
    → policy.threshold_ledgers ≤ (clamped_for policy lc).extend_to_ledgers
    → Bumps lc policy n
        (if ltb n policy.threshold_ledgers then (clamped_for policy lc).extend_to_ledgers else n)
Bumps-clamped lc policy n h = ground arith

module _ {Env Key : Type 0} {Value : Key → Type 0} (h : Host Env Key Value) (laws : HostLaws h)
    (lc : Lifecycle) (k : Key) where
  open laws use {ttl, longest}

  module _ (policy : TtlPolicy) (c : CanBump h laws lc policy) where
    ttl-bumped :
        (e : Env)
        → (lc ≡ instance) ⊎ (get_at h lc k e ≢ none)
        → Bumps lc policy (ttl lc k e) (ttl lc k (bumped h laws true lc k policy e))
    unfolding clamped_for
    ttl-bumped e present =
        rw
          (laws.ttl-extended lc k _ _ e (clamped_for-IsUsable policy lc c.usable)
            (le_trans (clamped_for-le_max policy lc) c.allowed) present)
          (Bumps-clamped lc policy (ttl lc k e) (clamped_for-IsUsable policy lc c.usable))

    -- With a usable policy, `get` of an entry that is there, with auto-bump on, does not trap. The
    -- entry's TTL becomes the clamped target if it was below the threshold and stays otherwise,
    -- so it ends no lower than the threshold and than before.
    pub get-Bumps :
        (v : Value k) (e : Env)
        → get_at h lc k e ≡ some v
        → (e' : Env) × (get h lc k policy true e ≡ some (some v, e'))
          × Bumps lc policy (ttl lc k e) (ttl lc k e')
    get-Bumps v e p = (
      bumped h laws true lc k policy e,
      get-eq h laws lc k policy c true v e p,
      ttl-bumped e (inr (λ q. cc)),
    )

  -- `extend_ttl` of an entry that is there (or in instance storage), to a length within the
  -- network's limit, does not trap, and leaves the TTL at the larger of the two; no value changes.
  pub extend_ttl-eq-max :
      (n : ℕ) (e : Env)
      → n ≤ longest lc
      → (lc ≡ instance) ⊎ (get_at h lc k e ≢ none)
      → (e' : Env) × (extend_ttl h lc k n e ≡ some (tt, e'))
        × (ttl lc k e' ≡ max (ttl lc k e) n)
        × ((mc : Lifecycle) (j : Key) → get_at h mc j e' ≡ get_at h mc j e)
  extend_ttl-eq-max n e fits present = (
    laws.extended lc k n n e,
    rw extend_ttl_at (rw (laws.extend_lem lc k n n e (le_refl n) fits present, tries) refl),
    laws.ttl-extended lc k n n e (le_refl n) fits present ∙ ground arith,
    λ mc j. laws.get-extended lc mc k j n n e,
  )

  -- `set_ttl` over an entry that is there, to a length within the network's limit, stores the
  -- value and leaves the TTL at the larger of the old TTL and that length. So the TTL is the
  -- length asked for exactly if the old TTL was no longer.
  pub set_ttl-keeps_longer :
      (v : Value k) (n : ℕ) (e : Env)
      → n ≤ longest lc
      → get_at h lc k e ≢ none
      → (e' : Env) × (set_ttl h lc k v n e ≡ some (tt, e'))
        × (get_at h lc k e' ≡ some v)
        × (ttl lc k e' ≡ max (ttl lc k e) n)
        × ((ttl lc k e' ≡ n) ↔ (ttl lc k e ≤ n))
  set_ttl-keeps_longer v n e fits present =
      let written : get_at h lc k (set_at h lc k v e) ≢ none =
        λ q. cc (laws.get-set_self lc k v e) in
      let e' = laws.extended lc k n n (set_at h lc k v e) in
      let longer : ttl lc k e' ≡ max (ttl lc k e) n =
        laws.ttl-extended lc k n n (set_at h lc k v e) (le_refl n) fits (inr written)
        ∙ ground (arith, laws.ttl-set lc k v e present) in
      (
        e',
        set_ttl-eq h laws lc k v n e fits,
        laws.get-extended lc lc k k n n _ ∙ laws.get-set_self lc k v e,
        longer,
        (λ q. omega (arith, longer), λ q. omega (arith, longer)),
      )

  -- A policy whose threshold is above the limit of `clamped_for` for the lifecycle, but not above
  -- its own target, makes `bump` trap, and so every `set` that bumps, for any key and value.
  pub set-traps_above_max :
      (policy : TtlPolicy) (v : Value k) (e : Env)
      → max_ttl lc < policy.threshold_ledgers
      → policy.threshold_ledgers ≤ policy.extend_to_ledgers
      → (bump h lc k policy e ≡ none) × (set h lc k v policy true e ≡ none)
  set-traps_above_max policy v e above ordered =
      (inverted e, set_trap h lc k policy v e (inverted _))
    where
      low : (clamped_for policy lc).extend_to_ledgers < (clamped_for policy lc).threshold_ledgers
      low = clamped_for-above policy lc above ordered

      inverted : (e' : Env) → bump h lc k policy e' ≡ none
      inverted e' = rw bump_at (rw (laws.extend_inverted lc k _ _ e' low, tries) refl)
