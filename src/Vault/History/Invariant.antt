-- ===== src/Vault/History/Invariant.antt =====
-- What every sequence of invocations of crates/example-contract/src/lib.rs keeps.
use soroban_storage_the_on_c.Prelude.{ℕ, ◌≤◌, ◌≡◌, sym, inl, inr, Bool, true, ok, err, arith}
use soroban_storage_the_on_c.Storage.Host.{Host, HostLaws}
use soroban_storage_the_on_c.Vault.{
  Key, balance_key, grant_key, nonce_key, Value, consume_nonce, vault_error, stale_nonce,
}
use soroban_storage_the_on_c.Vault.Access.{Roomy}
use soroban_storage_the_on_c.Vault.Nonces.{
  nonce_of, consume_nonce-Consumed, nonce_after, stale_result,
}
use soroban_storage_the_on_c.Vault.History.{consumes, Reach, here, next, IsSound, Passed}
use soroban_storage_the_on_c.Vault.History.Steps.{Step-Moved}
use soroban_storage_the_on_c.Vault.History.Effects.{Moved, other_balance, other_grant, other_nonce}

module _ {Env Address : Type 0} (h : Host Env (Key Address) (Value Address))
    (authorized : Address → Env → Bool) where
  module _ (same_address : Discrete Address) where
    Moved-IsSound :
        (u : Address) (e e' : Env) → IsSound h e → Moved h authorized u e e' → IsSound h e'
    Moved-IsSound u e e' sound m = record {
      balance_least = λ v. elim (same_address u v) [
        | yes q ↦ rw (sym q) m.balance_least
        | no ne ↦ rw (other_balance h authorized u v ne e e' m) (sound.balance_least v)
      ];
      balance_most = λ v. elim (same_address u v) [
        | yes q ↦ rw (sym q) m.balance_most
        | no ne ↦ rw (other_balance h authorized u v ne e e' m) (sound.balance_most v)
      ];
      grant_least = λ v. elim (same_address u v) [
        | yes q ↦ rw (sym q) m.grant_least
        | no ne ↦ rw (other_grant h authorized u v ne e e' m) (sound.grant_least v)
      ];
      grant_most = λ v. elim (same_address u v) [
        | yes q ↦ rw (sym q) m.grant_most
        | no ne ↦ rw (other_grant h authorized u v ne e e' m) (sound.grant_most v)
      ];
    }

    Moved-nonce :
        (u v : Address) (e e' : Env)
        → Moved h authorized u e e'
        → nonce_of h authorized v e ≤ nonce_of h authorized v e'
    Moved-nonce u v e e' m = elim (same_address u v) [
      | yes q ↦ rw (sym q) m.nonce_grows
      | no ne ↦ let q = other_nonce h authorized u v ne e e' m in omega (arith, q)
    ]

    Passed-IsSound :
        (kept : Key Address → Type 0) (e e' : Env) → IsSound h e → Passed h kept e e' → IsSound h e'
    Passed-IsSound kept e e' sound p = record {
      balance_least = λ v. rw (p.persistent_same (balance_key v)) (sound.balance_least v);
      balance_most = λ v. rw (p.persistent_same (balance_key v)) (sound.balance_most v);
      grant_least = λ v. rw (p.persistent_same (grant_key v)) (sound.grant_least v);
      grant_most = λ v. rw (p.persistent_same (grant_key v)) (sound.grant_most v);
    }

    Passed-nonce :
        (kept : Key Address → Type 0) (v : Address) (e e' : Env)
        → kept (nonce_key v)
        → Passed h kept e e'
        → nonce_of h authorized v e ≤ nonce_of h authorized v e'
    Passed-nonce kept v e e' keeps p = elim (p.temporary_same (nonce_key v)) [
      | inl same ↦ rw same (omega arith)
      | inr (gone, lost) ↦ absurd (lost keeps)
    ]

    -- No sequence of successful invocations of the vault, its constructor aside, takes anybody's
    -- balance or pending grant below 0 or above the range of `i128`, if it starts where nobody's is,
    -- and no deposit and no claim of it takes a balance out of that range; ledgers may close in
    -- between, with any temporary entries expiring.
    pub Reach-IsSound :
        (kept : Key Address → Type 0) (laws : HostLaws h) (e e' : Env)
        → Roomy h laws
        → IsSound h e
        → Reach h authorized kept e e'
        → IsSound h e'
    Reach-IsSound kept laws e _ roomy sound here = sound
    Reach-IsSound kept laws e e' roomy sound (next {e' = mid} path step) =
        let sound' = Reach-IsSound kept laws e mid roomy sound path in
        elim (Step-Moved h authorized kept laws mid e' roomy sound' step) [
          | inl (u, m) ↦ Moved-IsSound u mid e' sound' m
          | inr passed ↦ Passed-IsSound kept mid e' sound' passed
        ]

    nonce_grows :
        (kept : Key Address → Type 0) (laws : HostLaws h) (e e' : Env) (user : Address)
        → Roomy h laws
        → IsSound h e
        → kept (nonce_key user)
        → Reach h authorized kept e e'
        → nonce_of h authorized user e ≤ nonce_of h authorized user e'
    nonce_grows kept laws e _ user roomy sound keeps here = omega arith
    nonce_grows kept laws e e' user roomy sound keeps (next {e' = mid} path step) =
        let sound' = Reach-IsSound kept laws e mid roomy sound path in
        let before = nonce_grows kept laws e mid user roomy sound keeps path in
        elim (Step-Moved h authorized kept laws mid e' roomy sound' step) [
          | inl (u, m) ↦ omega (arith, before, Moved-nonce u user mid e' m)
          | inr passed ↦ omega (arith, before, Passed-nonce kept user mid e' keeps passed)
        ]

    -- No replay: after a nonce was consumed where nobody's balance or grant is out of range, and
    -- after any further successful invocations, the constructor aside, in which no deposit and no
    -- claim takes a balance out of the range of `i128`, and ledgers that close in between without
    -- expiring the user's nonce, an authorized call with that nonce or a lower one reports a stale
    -- nonce.
    pub consume_nonce-Reach :
        (kept : Key Address → Type 0) (laws : HostLaws h) (user : Address) (nonce again : ℕ)
        (e e1 e2 : Env)
        → Roomy h laws
        → IsSound h e
        → consume_nonce h authorized user nonce e ≡ ok (tt, e1)
        → kept (nonce_key user)
        → Reach h authorized kept e1 e2
        → authorized user e2 ≡ true
        → again ≤ nonce
        → consume_nonce h authorized user again e2 ≡ err (vault_error stale_nonce)
    consume_nonce-Reach kept laws user nonce again e e1 e2 roomy sound first keeps path auth low =
        let now =
          nonce_after h authorized user nonce e e1 _
            (consume_nonce-Consumed h authorized user nonce e laws roomy) first in
        let sound' =
          Reach-IsSound kept laws e e1 roomy sound (next here (consumes user nonce first)) in
        let grows = nonce_grows kept laws e1 e2 user roomy sound' keeps path in
        stale_result h authorized user again e2 _
          (consume_nonce-Consumed h authorized user again e2 laws roomy) auth
          (omega (arith, now, grows, low))
