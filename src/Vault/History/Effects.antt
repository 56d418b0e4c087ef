-- ===== src/Vault/History/Effects.antt =====
-- What a successful invocation of crates/example-contract/src/lib.rs leaves in the entries, of the
-- user that it is about and of every other user.
use soroban_storage_the_on_c.Prelude.{
  ℕ, ◌≤◌, ◌≡◌, ◌≢◌, ◌⊎◌, inr, ap, Bool, Option, none, some, arith,
}
use soroban_storage_the_on_c.Prelude.Int.{ℤ, pos, ◌+ℤ◌, ◌≤ℤ◌, +ℤ_parts}
use soroban_storage_the_on_c.Storage.Lifecycle.{Lifecycle, temporary, persistent}
use soroban_storage_the_on_c.Storage.Host.{Host, get_at}
use soroban_storage_the_on_c.Storage.Ops.RoundTrip.{OnlyAt}
use soroban_storage_the_on_c.Vault.{
  Key, balance_key, grant_key, nonce_key, Value, unwrap_or, i128_max,
}
use soroban_storage_the_on_c.Vault.Wrap.{IsI128}
use soroban_storage_the_on_c.Vault.Access.{Same}
use soroban_storage_the_on_c.Vault.Balances.{balance_of, grant_of}
use soroban_storage_the_on_c.Vault.Nonces.{nonce_of}
use soroban_storage_the_on_c.Vault.History.{IsSound}

module _ {Env Address : Type 0} (h : Host Env (Key Address) (Value Address))
    (authorized : Address → Env → Bool) where
  -- One user's entries are sound afterwards, the nonce is no lower, and no other user's changed.
  pub record Moved (u : Address) (e e' : Env) : Type 0 where
    pub balance_least : pos 0 ≤ℤ balance_of h u e'
    pub balance_most : balance_of h u e' ≤ℤ pos i128_max
    pub grant_least : pos 0 ≤ℤ grant_of h u e'
    pub grant_most : grant_of h u e' ≤ℤ pos i128_max
    pub nonce_grows : nonce_of h authorized u e ≤ nonce_of h authorized u e'
    pub elsewhere :
        (lc : Lifecycle) (k : Key Address)
        → balance_key u ≢ k
        → grant_key u ≢ k
        → nonce_key u ≢ k
        → get_at h lc k e' ≡ get_at h lc k e

  module _ (u v : Address) (ne : u ≢ v) (e e' : Env) (m : Moved u e e') where
    pub other_balance : balance_of h v e' ≡ balance_of h v e
    other_balance =
        ap (λ (o : Option ℤ). unwrap_or o (pos 0))
          (m.elsewhere persistent (balance_key v) (λ q. ne (cc)) (λ q. cc) (λ q. cc))

    pub other_grant : grant_of h v e' ≡ grant_of h v e
    other_grant =
        ap (λ (o : Option ℤ). unwrap_or o (pos 0))
          (m.elsewhere persistent (grant_key v) (λ q. cc) (λ q. ne (cc)) (λ q. cc))

    pub other_nonce : nonce_of h authorized v e' ≡ nonce_of h authorized v e
    other_nonce =
        ap (λ (o : Option ℕ). unwrap_or o 0)
          (m.elsewhere temporary (nonce_key v) (λ q. cc) (λ q. cc) (λ q. ne (cc)))

  module _ (u : Address) (e e' : Env) where
    balance_kept :
        get_at h persistent (balance_key u) e' ≡ get_at h persistent (balance_key u) e
        → balance_of h u e' ≡ balance_of h u e
    balance_kept = ap (λ (o : Option ℤ). unwrap_or o (pos 0))

    grant_kept :
        get_at h persistent (grant_key u) e' ≡ get_at h persistent (grant_key u) e
        → grant_of h u e' ≡ grant_of h u e
    grant_kept = ap (λ (o : Option ℤ). unwrap_or o (pos 0))

    nonce_kept :
        get_at h temporary (nonce_key u) e' ≡ get_at h temporary (nonce_key u) e
        → nonce_of h authorized u e' ≡ nonce_of h authorized u e
    nonce_kept = ap (λ (o : Option ℕ). unwrap_or o 0)

    module _ (sound : IsSound h e) where
      pub Same-Moved : Same h e e' → Moved u e e'
      Same-Moved same =
          let b = balance_kept (same persistent (balance_key u)) in
          let g = grant_kept (same persistent (grant_key u)) in
          let n = nonce_kept (same temporary (nonce_key u)) in
          record {
            balance_least = rw b (sound.balance_least u);
            balance_most = rw b (sound.balance_most u);
            grant_least = rw g (sound.grant_least u);
            grant_most = rw g (sound.grant_most u);
            nonce_grows = omega (arith, n);
            elsewhere = λ lc k _ _ _. same lc k;
          }

      -- A write of the balance alone.
      pub balance-Moved :
          pos 0 ≤ℤ balance_of h u e'
          → balance_of h u e' ≤ℤ pos i128_max
          → OnlyAt h persistent (balance_key u) e e'
          → Moved u e e'
      balance-Moved least most only =
          let g = grant_kept (only persistent (grant_key u) (inr (λ q. cc))) in
          let n = nonce_kept (only temporary (nonce_key u) (inr (λ q. cc))) in
          record {
            balance_least = least;
            balance_most = most;
            grant_least = rw g (sound.grant_least u);
            grant_most = rw g (sound.grant_most u);
            nonce_grows = omega (arith, n);
            elsewhere = λ lc k ne _ _. only lc k (inr ne);
          }

      pub grant-Moved :
          (amount : ℤ)
          → pos 0 ≤ℤ amount
          → amount ≤ℤ pos i128_max
          → get_at h persistent (grant_key u) e' ≡ some amount
          → OnlyAt h persistent (grant_key u) e e'
          → Moved u e e'
      grant-Moved amount least most written only =
          let b = balance_kept (only persistent (balance_key u) (inr (λ q. cc))) in
          let n = nonce_kept (only temporary (nonce_key u) (inr (λ q. cc))) in
          record {
            balance_least = rw b (sound.balance_least u);
            balance_most = rw b (sound.balance_most u);
            grant_least = rw written least;
            grant_most = rw written most;
            nonce_grows = omega (arith, n);
            elsewhere = λ lc k _ ne _. only lc k (inr ne);
          }

      pub nonce-Moved :
          nonce_of h authorized u e ≤ nonce_of h authorized u e'
          → OnlyAt h temporary (nonce_key u) e e'
          → Moved u e e'
      nonce-Moved grows only =
          let b = balance_kept (only persistent (balance_key u) (inr (λ q. cc))) in
          let g = grant_kept (only persistent (grant_key u) (inr (λ q. cc))) in
          record {
            balance_least = rw b (sound.balance_least u);
            balance_most = rw b (sound.balance_most u);
            grant_least = rw g (sound.grant_least u);
            grant_most = rw g (sound.grant_most u);
            nonce_grows = grows;
            elsewhere = λ lc k _ _ ne. only lc k (inr ne);
          }

      -- A grant that becomes part of the balance.
      pub claim-Moved :
          IsI128 (balance_of h u e +ℤ grant_of h u e)
          → get_at h persistent (grant_key u) e' ≡ none
          → balance_of h u e' ≡ balance_of h u e +ℤ grant_of h u e
          → ((lc : Lifecycle) (k : Key Address)
              → (persistent ≢ lc) ⊎ ((grant_key u ≢ k) × (balance_key u ≢ k))
              → get_at h lc k e' ≡ get_at h lc k e)
          → Moved u e e'
      claim-Moved inside gone sum only =
          let n = nonce_kept (only temporary (nonce_key u) (inr (λ q. cc, λ q. cc))) in
          let parts = +ℤ_parts (balance_of h u e) (grant_of h u e) in
          record {
            balance_least =
                rw sum (omega (arith, parts, sound.balance_least u, sound.grant_least u));
            balance_most = rw sum inside.most;
            grant_least = rw gone (omega arith);
            grant_most = rw gone (omega arith);
            nonce_grows = omega (arith, n);
            elsewhere = λ lc k ne ne' _. only lc k (inr (ne', ne));
          }
