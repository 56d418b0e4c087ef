-- ===== src/Vault/Grants.antt =====
-- Who may grant, in crates/example-contract/src/lib.rs, and what a grant does.
use soroban_storage_the_on_c.Prelude.{
  ◌≤◌, ◌*◌, ◌≡◌, ◌∙◌, ap, Option, inl, inr, Bool, true, false, none, some, Result, ok, err, arith,
  Bool-cases, Option-cases,
}
use soroban_storage_the_on_c.Prelude.Int.{ℤ, pos, ◌≤ℤ◌, ◌<ℤ◌, leb_ℤ}
use soroban_storage_the_on_c.Storage.Lifecycle.{persistent, instance}
use soroban_storage_the_on_c.Storage.Host.{Host, HostLaws, get_at}
use soroban_storage_the_on_c.Storage.Ops.RoundTrip.{OnlyAt}
use soroban_storage_the_on_c.Storage.Accessor
use soroban_storage_the_on_c.Vault.{
  Key, admin_key, grant_key, Value, admin_consts, Trap, vault_error, unauthorized, uninitialized,
  non_positive_amount, ◌>>=◌, ◌>>◌, stored, grant,
}
use soroban_storage_the_on_c.Vault.Access.{Roomy, stored-get, stored-set_ttl, admin-CanBump}

module _ {Env Address : Type 0} (h : Host Env (Key Address) (Value Address)) (laws : HostLaws h)
    (authorized : Address → Env → Bool) (user : Address) (amount : ℤ) (e : Env) where
  -- The administrator is recorded, and read; the read may extend the instance, and ends in `e'`.
  abbrev pub Recorded : Address → Env → Type 0
  Recorded owner e' =
      (get_at h instance admin_key e ≡ some owner)
      × (stored (Accessor.get h admin_consts admin_key) e ≡ ok (some owner, e'))

  -- The ways in which `grant` ends. The host is asked for the authorization after the read of the
  -- administrator, and the amount is looked at after that.
  pub data Granted : Result Trap (Unit × Env) → Type 0 where
    no_admin : get_at h instance admin_key e ≡ none → Granted (err uninitialized)
    denied :
        (owner : Address) (e' : Env)
        → Recorded owner e'
        → authorized owner e' ≡ false
        → Granted (err unauthorized)
    not_positive :
        (owner : Address) (e' : Env)
        → Recorded owner e'
        → authorized owner e' ≡ true
        → amount ≤ℤ pos 0
        → Granted (err (vault_error non_positive_amount))
    granted :
        (owner : Address) (e' e'' : Env)
        → Recorded owner e'
        → authorized owner e' ≡ true
        → pos 0 <ℤ amount
        → get_at h persistent (grant_key user) e'' ≡ some amount
        → 14 * 17_280 ≤ laws.ttl persistent (grant_key user) e''
        → OnlyAt h persistent (grant_key user) e e''
        → Granted (ok (tt, e''))

  -- `grant` traps where no administrator was recorded, and then where the recorded one did not
  -- authorize it; with that authorization it reports an amount that is not positive. In every other
  -- case it succeeds: the grant is stored for the user, lives for fourteen days of 17,280 ledgers at
  -- least, and no other value changes.
  pub grant-Granted : Roomy h laws → Granted (grant h authorized user amount e)
  unfolding grant
  grant-Granted roomy =
      let (e1, q1, same) =
        stored-get h laws admin_consts (admin-CanBump h laws roomy) admin_key e in
      let (e2, q2, lives, (written, only)) =
        stored-set_ttl h laws (grant_key user) amount e1 roomy in
      elim (Option-cases (get_at h instance admin_key e)) [
        | inl absent ↦ rw (q1, ◌>>=◌, absent) (no_admin absent)
        | inr (owner, found) ↦
            let recorded : Recorded owner e1 =
              (found, q1 ∙ ap (λ (o : Option Address). ok (o, e1)) found) in
            elim (Bool-cases (authorized owner e1)) [
              | inr missing ↦ rw (q1, ◌>>=◌, found, missing) (denied owner e1 recorded missing)
              | inl auth ↦ elim (Bool-cases (leb_ℤ amount (pos 0))) [
                | inl low ↦
                    rw (q1, ◌>>=◌, found, auth, low, ◌>>◌)
                      (not_positive owner e1 recorded auth (ground (arith, low)))
                | inr high ↦
                    rw (q1, ◌>>=◌, found, auth, high, ◌>>◌, q2)
                      (granted owner e1 e2 recorded auth (ground (arith, high)) written lives
                        (λ lc k other. only lc k other ∙ same lc k))
              ]
            ]
      ]
