-- ===== src/Vault/Nonces.antt =====
-- Replay protection by `consume_nonce` of crates/example-contract/src/lib.rs.
use soroban_storage_the_on_c.Prelude.{
  ℕ, ◌≤◌, ◌<◌, ◌≡◌, ◌∙◌, inl, inr, refl, sym, ap, Bool, true, false, Option, Result, ok, err, arith,
  Bool-cases, leb,
}
use soroban_storage_the_on_c.Storage.Lifecycle.{temporary}
use soroban_storage_the_on_c.Storage.Host.{Host, HostLaws, get_at}
use soroban_storage_the_on_c.Storage.Ops.RoundTrip.{OnlyAt}
use soroban_storage_the_on_c.Vault.{
  Key, nonce_key, Value, nonce_consts, unwrap_or, Trap, vault_error, unauthorized, stale_nonce,
  ◌>>=◌, ◌>>◌, consume_nonce,
}
use soroban_storage_the_on_c.Vault.Access.{Roomy, stored-get, stored-set, nonce-CanBump}

module _ {Env Address : Type 0} (h : Host Env (Key Address) (Value Address))
    (authorized : Address → Env → Bool) where
  -- The last nonce of a user that the host still has, 0 if there is none.
  abbrev pub nonce_of : Address → Env → ℕ
  nonce_of user e = unwrap_or (get_at h temporary (nonce_key user) e) 0

  -- The ways in which `consume_nonce` ends.
  pub data Consumed (user : Address) (nonce : ℕ) (e : Env) : Result Trap (Unit × Env) → Type 0 where
    denied : authorized user e ≡ false → Consumed user nonce e (err unauthorized)
    stale :
        authorized user e ≡ true
        → nonce ≤ nonce_of user e
        → Consumed user nonce e (err (vault_error stale_nonce))
    consumed :
        (e' : Env)
        → authorized user e ≡ true
        → nonce_of user e < nonce
        → nonce_of user e' ≡ nonce
        → OnlyAt h temporary (nonce_key user) e e'
        → Consumed user nonce e (ok (tt, e'))

  -- `consume_nonce` traps unless the user authorized it, reports a nonce that is not above the
  -- last one that the host still has, and in every other case succeeds: the nonce is the last one
  -- from then on, and no other value changes.
  pub consume_nonce-Consumed :
      (user : Address) (nonce : ℕ) (e : Env) (laws : HostLaws h)
      → Roomy h laws
      → Consumed user nonce e (consume_nonce h authorized user nonce e)
  unfolding consume_nonce
  consume_nonce-Consumed user nonce e laws roomy =
      let (e1, q1, same) =
        stored-get h laws nonce_consts (nonce-CanBump h laws roomy) (nonce_key user) e in
      let (e2, q2, (written, only)) =
        stored-set h laws nonce_consts (nonce-CanBump h laws roomy) (nonce_key user) nonce e1 in
      elim (Bool-cases (authorized user e)) [
        | inr missing ↦ rw (missing, ◌>>=◌) (denied missing)
        | inl auth ↦ elim (Bool-cases (leb nonce (nonce_of user e))) [
          | inl old ↦ rw (auth, ◌>>=◌, q1, ◌>>◌, old) (stale auth (ground (arith, old)))
          | inr new ↦
              rw (auth, ◌>>=◌, q1, ◌>>◌, new, q2)
                (consumed e2 auth (ground (arith, new))
                  (ap (λ (o : Option ℕ). unwrap_or o 0) written)
                  (λ lc k other. only lc k other ∙ same lc k))
        ]
      ]

  pub nonce_after :
      (user : Address) (nonce : ℕ) (e e' : Env) (r : Result Trap (Unit × Env))
      → Consumed user nonce e r
      → r ≡ ok (tt, e')
      → nonce_of user e' ≡ nonce
  nonce_after user nonce e e' _ (denied d) q = absurd (cc)
  nonce_after user nonce e e' _ (stale a s) q = absurd (cc)
  nonce_after user nonce e e' _ (consumed e'' a below now only) q =
      let same : e'' ≡ e' = cc in ap (nonce_of user) (sym same) ∙ now

  pub stale_result :
      (user : Address) (nonce : ℕ) (e : Env) (r : Result Trap (Unit × Env))
      → Consumed user nonce e r
      → authorized user e ≡ true
      → nonce ≤ nonce_of user e
      → r ≡ err (vault_error stale_nonce)
  stale_result user nonce e _ (denied d) auth old = absurd (cc)
  stale_result user nonce e _ (stale a s) auth old = refl
  stale_result user nonce e _ (consumed e' a below now only) auth old = absurd (omega arith)
