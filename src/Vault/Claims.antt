-- ===== src/Vault/Claims.antt =====
-- What `claim` of crates/example-contract/src/lib.rs does to a grant and a balance.
use soroban_storage_the_on_c.Prelude.{
  ◌≡◌, ◌≢◌, ◌⊎◌, ◌∙◌, inl, inr, ap, Bool, true, false, Option, none, Result, ok, err, Bool-cases,
}
use soroban_storage_the_on_c.Prelude.Int.{ℤ, pos, ◌+ℤ◌}
use soroban_storage_the_on_c.Storage.Lifecycle.{Lifecycle, persistent}
use soroban_storage_the_on_c.Storage.Host.{Host, HostLaws, get_at}
use soroban_storage_the_on_c.Vault.{
  Key, balance_key, grant_key, Value, balance_consts, grant_consts, unwrap_or, Trap, vault_error,
  unauthorized, nothing_to_claim, ◌>>=◌, ◌>>◌, add_i128, claim, is_zero,
}
use soroban_storage_the_on_c.Vault.Wrap.{IsI128, wrap_inside}
use soroban_storage_the_on_c.Vault.Access.{
  Roomy, stored-get, stored-update, stored-remove, balance-CanBump, grant-CanBump,
}
use soroban_storage_the_on_c.Vault.Balances.{balance_of, grant_of}

module _ {Env Address : Type 0} (h : Host Env (Key Address) (Value Address))
    (authorized : Address → Env → Bool) (user : Address) (e : Env) where
  -- The ways in which `claim` ends.
  pub data Claimed : Result Trap (ℤ × Env) → Type 0 where
    denied : authorized user e ≡ false → Claimed (err unauthorized)
    nothing :
        authorized user e ≡ true
        → is_zero (grant_of h user e) ≡ true
        → Claimed (err (vault_error nothing_to_claim))
    claimed :
        (e' : Env)
        → authorized user e ≡ true
        → is_zero (grant_of h user e) ≡ false
        → get_at h persistent (grant_key user) e' ≡ none
        → balance_of h user e' ≡ balance_of h user e +ℤ grant_of h user e
        → ((lc : Lifecycle) (k : Key Address)
            → (persistent ≢ lc) ⊎ ((grant_key user ≢ k) × (balance_key user ≢ k))
            → get_at h lc k e' ≡ get_at h lc k e)
        → Claimed (ok (grant_of h user e, e'))

  moved :
      (laws : HostLaws h)
      → Roomy h laws
      → IsI128 (balance_of h user e +ℤ grant_of h user e)
      → authorized user e ≡ true
      → is_zero (grant_of h user e) ≡ false
      → Claimed (claim h authorized user e)
  unfolding claim
  moved laws roomy inside auth some_grant =
      let (e1, q1, same) =
        stored-get h laws grant_consts (grant-CanBump h laws roomy) (grant_key user) e in
      let (e2, q2, removed, only) = stored-remove h laws (grant_key user) e1 in
      let (e3, q3, (written, only')) =
        stored-update h laws balance_consts (balance-CanBump h laws roomy) (balance_key user)
          (λ bal. add_i128 (unwrap_or bal (pos 0)) (grant_of h user e)) e2 in
      let apart : grant_key user ≢ balance_key user = λ q. cc in
      let apart' : balance_key user ≢ grant_key user = λ q. cc in
      let before : balance_of h user e2 ≡ balance_of h user e =
        ap (λ (o : Option ℤ). unwrap_or o (pos 0))
          (only persistent (balance_key user) (inr apart) ∙ same persistent (balance_key user)) in
      rw (auth, ◌>>=◌, q1, ◌>>◌, some_grant, q2, q3)
        (claimed e3 auth some_grant (only' persistent (grant_key user) (inr apart') ∙ removed)
          (ap (λ (o : Option ℤ). unwrap_or o (pos 0)) written
            ∙ ap (λ b. add_i128 b (grant_of h user e)) before
            ∙ wrap_inside _ inside)
          (λ lc k other. elim other [
            | inl lc_ne ↦ only' lc k (inl lc_ne) ∙ only lc k (inl lc_ne) ∙ same lc k
            | inr (k_ne, k_ne') ↦ only' lc k (inr k_ne') ∙ only lc k (inr k_ne) ∙ same lc k
          ]))

  -- `claim` traps unless the user authorized it, and reports a grant of 0 or none. Where the sum
  -- of the balance and the grant is in the range of `i128`, it succeeds in every other case: it
  -- returns the grant, which is gone, so that it cannot be claimed again, the balance is more by
  -- exactly the grant, and no other value changes.
  pub claim-Claimed :
      (laws : HostLaws h)
      → Roomy h laws
      → IsI128 (balance_of h user e +ℤ grant_of h user e)
      → Claimed (claim h authorized user e)
  unfolding claim
  claim-Claimed laws roomy inside =
      let (e1, q1, same) =
        stored-get h laws grant_consts (grant-CanBump h laws roomy) (grant_key user) e in
      elim (Bool-cases (authorized user e)) [
        | inr missing ↦ rw (missing, ◌>>=◌) (denied missing)
        | inl auth ↦ elim (Bool-cases (is_zero (grant_of h user e))) [
          | inl empty ↦ rw (auth, ◌>>=◌, q1, ◌>>◌, empty) (nothing auth empty)
          | inr some_grant ↦ moved laws roomy inside auth some_grant
        ]
      ]
