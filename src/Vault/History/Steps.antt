-- ===== src/Vault/History/Steps.antt =====
-- One successful invocation of crates/example-contract/src/lib.rs moves one user.
use mathlib.Core.Path.{subst}
use soroban_storage_the_on_c.Prelude.{
  ℕ, ◌≡◌, ◌⊎◌, inl, inr, refl, ap, Bool, Result, ok, err, arith, Option-cases,
}
use soroban_storage_the_on_c.Prelude.Int.{ℤ, pos, pos_part, neg_part, ◌+ℤ◌, ◌≤ℤ◌, +ℤ_parts}
use soroban_storage_the_on_c.Storage.Host.{Host, HostLaws, get_at}
use soroban_storage_the_on_c.Storage.Lifecycle.{persistent, instance}
use soroban_storage_the_on_c.Storage.Ops.Laws.{has-eq}
use soroban_storage_the_on_c.Storage.Accessor
use soroban_storage_the_on_c.Vault.{
  Key, balance_key, grant_key, admin_key, Value, balance_consts, grant_consts, admin_consts, ◌>>=◌,
  Trap, uninitialized, i128_max, balance, has_grant, admin,
}
use soroban_storage_the_on_c.Vault.Wrap.{IsI128}
use soroban_storage_the_on_c.Vault.Access.{
  Roomy, stored-get, balance-CanBump, admin-CanBump, stored-some,
}
use soroban_storage_the_on_c.Vault.Balances.{
  balance_of, grant_of, Withdrawn, withdraw-Withdrawn, Deposited, deposit-Deposited,
}
use soroban_storage_the_on_c.Vault.Claims.{Claimed, claim-Claimed}
use soroban_storage_the_on_c.Vault.Grants.{Granted, grant-Granted}
use soroban_storage_the_on_c.Vault.Nonces.{Consumed, consume_nonce-Consumed}
use soroban_storage_the_on_c.Vault.History.{
  Step, deposits, withdraws, asks_balance, asks_admin, grants, asks_grant, claims, consumes, passes,
  IsSound, Passed,
}
use soroban_storage_the_on_c.Vault.History.Effects.{
  Moved, Same-Moved, balance-Moved, grant-Moved, nonce-Moved, claim-Moved,
}

module _ {Env Address : Type 0} (h : Host Env (Key Address) (Value Address))
    (authorized : Address → Env → Bool) where
  module _ (e e' : Env) (sound : IsSound h e) (u : Address) where
    withdraw-Moved :
        (amount : ℤ) (r : Result Trap (Unit × Env))
        → Withdrawn h authorized u amount e r
        → r ≡ ok (tt, e')
        → Moved h authorized u e e'
    withdraw-Moved amount _ (Withdrawn.denied d) q = cc
    withdraw-Moved amount _ (Withdrawn.not_positive d l) q = cc
    withdraw-Moved amount _ (Withdrawn.too_little d p l) q = cc
    withdraw-Moved amount _ (Withdrawn.withdrawn e'' a positive least sum only) q =
        let same : e'' ≡ e' = cc in
        subst (Moved h authorized u e) same (
          balance-Moved h authorized u e e'' sound least
            (omega (
              arith,
              sound.balance_most u,
              ap pos_part sum,
              ap neg_part sum,
              +ℤ_parts (balance_of h u e'') amount,
            ))
            only)

    deposit-Moved :
        (amount : ℤ) (r : Result Trap (Unit × Env))
        → Deposited h authorized u amount e r
        → (balance_of h u e +ℤ amount) ≤ℤ pos i128_max
        → r ≡ ok (tt, e')
        → Moved h authorized u e e'
    deposit-Moved amount _ (Deposited.not_positive l) fits q = cc
    deposit-Moved amount _ (Deposited.overflowed e'' over _ _) fits q = absurd (omega arith)
    deposit-Moved amount _ (Deposited.added e'' positive _ sum only) fits q =
        let same : e'' ≡ e' = cc in
        subst (Moved h authorized u e) same (
          balance-Moved h authorized u e e'' sound
            (rw sum (omega (arith, sound.balance_least u, +ℤ_parts (balance_of h u e) amount)))
            (rw sum fits) only)

    grant-Moved_after :
        (laws : HostLaws h) (amount : ℤ) (r : Result Trap (Unit × Env))
        → Granted h laws authorized u amount e r
        → IsI128 amount
        → r ≡ ok (tt, e')
        → Moved h authorized u e e'
    grant-Moved_after laws amount _ (Granted.no_admin _) inside q = cc
    grant-Moved_after laws amount _ (Granted.denied _ _ _ _) inside q = cc
    grant-Moved_after laws amount _ (Granted.not_positive _ _ _ _ _) inside q = cc
    grant-Moved_after laws amount _ (Granted.granted _ _ e'' _ _ positive written _ only) inside q =
        let same : e'' ≡ e' = cc in
        subst (Moved h authorized u e) same (
          grant-Moved h authorized u e e'' sound amount (omega (arith, positive)) inside.most
            written only)

    claim-Moved_after :
        (amount : ℤ) (r : Result Trap (ℤ × Env))
        → Claimed h authorized u e r
        → IsI128 (balance_of h u e +ℤ grant_of h u e)
        → r ≡ ok (amount, e')
        → Moved h authorized u e e'
    claim-Moved_after amount _ (Claimed.denied _) inside q = cc
    claim-Moved_after amount _ (Claimed.nothing _ _) inside q = cc
    claim-Moved_after amount _ (Claimed.claimed e'' _ _ gone sum only) inside q =
        let same : e'' ≡ e' = cc in
        subst (Moved h authorized u e) same
          (claim-Moved h authorized u e e'' sound inside gone sum only)

    consume_nonce-Moved :
        (nonce : ℕ) (r : Result Trap (Unit × Env))
        → Consumed h authorized u nonce e r
        → r ≡ ok (tt, e')
        → Moved h authorized u e e'
    consume_nonce-Moved nonce _ (Consumed.denied _) q = cc
    consume_nonce-Moved nonce _ (Consumed.stale _ _) q = cc
    consume_nonce-Moved nonce _ (Consumed.consumed e'' _ below now only) q =
        let same : e'' ≡ e' = cc in
        subst (Moved h authorized u e) same
          (nonce-Moved h authorized u e e'' sound (omega (arith, below, now)) only)

    balance-Moved_after :
        (laws : HostLaws h) (found : ℤ)
        → Roomy h laws
        → balance h authorized u e ≡ ok (found, e')
        → Moved h authorized u e e'
    unfolding balance
    balance-Moved_after laws found roomy q =
        let (e1, q1, kept) =
          stored-get h laws balance_consts (balance-CanBump h laws roomy) (balance_key u) e in
        let q' : balance h authorized u e ≡ ok (balance_of h u e, e1) = rw (q1, ◌>>=◌) refl in
        let same : e1 ≡ e' = cc in
        subst (Moved h authorized u e) same (Same-Moved h authorized u e e1 sound kept)

    has_grant-Moved :
        (found : Bool) → has_grant h authorized u e ≡ ok (found, e') → Moved h authorized u e e'
    unfolding has_grant
    has_grant-Moved found q =
        let q' =
          stored-some (Accessor.has h grant_consts (grant_key u)) e _
            (has-eq h persistent (grant_key u) e) in
        let same : e ≡ e' = cc in
        subst (Moved h authorized u e) same (Same-Moved h authorized u e e sound (λ lc k. refl))

    admin-Moved :
        (laws : HostLaws h) (owner : Address)
        → Roomy h laws
        → admin h authorized e ≡ ok (owner, e')
        → Moved h authorized u e e'
    unfolding admin
    admin-Moved laws owner roomy q =
        let (e1, q1, kept) =
          stored-get h laws admin_consts (admin-CanBump h laws roomy) admin_key e in
        elim (Option-cases (get_at h instance admin_key e)) [
          | inl absent ↦
              let q' : admin h authorized e ≡ err uninitialized = rw (q1, ◌>>=◌, absent) refl in
              absurd (cc)
          | inr (found, present) ↦
              let q' : admin h authorized e ≡ ok (found, e1) = rw (q1, ◌>>=◌, present) refl in
              let same : e1 ≡ e' = cc in
              subst (Moved h authorized u e) same (Same-Moved h authorized u e e1 sound kept)
        ]

  -- An invocation is about one user, if about any.
  pub Step-Moved :
      (kept : Key Address → Type 0) (laws : HostLaws h) (e e' : Env)
      → Roomy h laws
      → IsSound h e
      → Step h authorized kept e e'
      → ((u : Address) × Moved h authorized u e e') ⊎ Passed h kept e e'
  Step-Moved kept laws e e' roomy sound (deposits u amount inside fits q) =
      let inside' : IsI128 (balance_of h u e) = record {
        least = omega (arith, sound.balance_least u);
        most = sound.balance_most u;
      } in
      inl (
        u,
        deposit-Moved e e' sound u amount _
            (deposit-Deposited h authorized u amount e laws roomy inside' inside) fits q,
      )
  Step-Moved kept laws e e' roomy sound (withdraws u amount q) = inl (
    u,
    withdraw-Moved e e' sound u amount _
        (withdraw-Withdrawn h authorized u amount e laws roomy (sound.balance_most u)) q,
  )
  Step-Moved kept laws e e' roomy sound (asks_balance u found q) =
      inl (u, balance-Moved_after e e' sound u laws found roomy q)
  Step-Moved kept laws e e' roomy sound (grants u amount inside q) = inl (
    u,
    grant-Moved_after e e' sound u laws amount _ (grant-Granted h laws authorized u amount e roomy)
        inside q,
  )
  Step-Moved kept laws e e' roomy sound (asks_grant u found q) =
      inl (u, has_grant-Moved e e' sound u found q)
  Step-Moved kept laws e e' roomy sound (claims u amount inside q) = inl (
    u,
    claim-Moved_after e e' sound u amount _ (claim-Claimed h authorized u e laws roomy inside)
        inside q,
  )
  Step-Moved kept laws e e' roomy sound (consumes u nonce q) = inl (
    u,
    consume_nonce-Moved e e' sound u nonce _
        (consume_nonce-Consumed h authorized u nonce e laws roomy) q,
  )
  Step-Moved kept laws e e' roomy sound (asks_admin owner q) =
      inl (owner, admin-Moved e e' sound owner laws owner roomy q)
  Step-Moved kept laws e e' roomy sound (passes passed) = inr passed
