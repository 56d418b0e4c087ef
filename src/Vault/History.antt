-- ===== src/Vault/History.antt =====
-- Invocations of crates/example-contract/src/lib.rs one after the other, with ledgers that close
-- between them.
pub mod Effects
pub mod Steps
pub mod Invariant
use soroban_storage_the_on_c.Prelude.{ℕ, ◌≤◌, ◌≡◌, ◌⊎◌, Bool, none, Result, ok}
use soroban_storage_the_on_c.Storage.Lifecycle.{temporary, persistent, instance}
use soroban_storage_the_on_c.Prelude.Int.{ℤ, pos, ◌≤ℤ◌, ◌+ℤ◌}
use soroban_storage_the_on_c.Storage.Host.{Host, get_at}
use soroban_storage_the_on_c.Vault.{
  Key, Value, i128_max, deposit, withdraw, balance, admin, grant, has_grant, claim, consume_nonce,
}
use soroban_storage_the_on_c.Vault.Wrap.{IsI128}
use soroban_storage_the_on_c.Vault.Balances.{balance_of, grant_of}

module _ {Env Address : Type 0} (h : Host Env (Key Address) (Value Address)) where
  -- Nobody has or is granted less than nothing, and nothing passes the range of `i128`.
  pub record IsSound (e : Env) : Type 0 where
    pub balance_least : (user : Address) → pos 0 ≤ℤ balance_of h user e
    pub balance_most : (user : Address) → balance_of h user e ≤ℤ pos i128_max
    pub grant_least : (user : Address) → pos 0 ≤ℤ grant_of h user e
    pub grant_most : (user : Address) → grant_of h user e ≤ℤ pos i128_max

  -- Ledgers close without an invocation: a temporary entry may expire, unless it is `kept`; the
  -- others keep their values.
  pub record Passed (kept : Key Address → Type 0) (e e' : Env) : Type 0 where
    pub persistent_same : (k : Key Address) → get_at h persistent k e' ≡ get_at h persistent k e
    pub instance_same : (k : Key Address) → get_at h instance k e' ≡ get_at h instance k e
    pub temporary_same :
        (k : Key Address)
        → (get_at h temporary k e' ≡ get_at h temporary k e)
          ⊎ ((get_at h temporary k e' ≡ none) × ¬ kept k)

module _ {Env Address : Type 0} (h : Host Env (Key Address) (Value Address))
    (authorized : Address → Env → Bool) (kept : Key Address → Type 0) where
  -- A successful invocation, or time that passes; one that fails changes nothing. Amounts are values of `i128`, and a deposit or a claim does not take
  -- the balance out of its range.
  pub data Step (e e' : Env) : Type 0 where
    deposits :
        (user : Address) (amount : ℤ)
        → IsI128 amount
        → (balance_of h user e +ℤ amount) ≤ℤ pos i128_max
        → deposit h authorized user amount e ≡ ok (tt, e')
        → Step e e'
    withdraws :
        (user : Address) (amount : ℤ)
        → withdraw h authorized user amount e ≡ ok (tt, e')
        → Step e e'
    asks_balance :
        (user : Address) (found : ℤ) → balance h authorized user e ≡ ok (found, e') → Step e e'
    grants :
        (user : Address) (amount : ℤ)
        → IsI128 amount
        → grant h authorized user amount e ≡ ok (tt, e')
        → Step e e'
    asks_admin : (owner : Address) → admin h authorized e ≡ ok (owner, e') → Step e e'
    asks_grant :
        (user : Address) (found : Bool) → has_grant h authorized user e ≡ ok (found, e') → Step e e'
    claims :
        (user : Address) (amount : ℤ)
        → IsI128 (balance_of h user e +ℤ grant_of h user e)
        → claim h authorized user e ≡ ok (amount, e')
        → Step e e'
    consumes :
        (user : Address) (nonce : ℕ)
        → consume_nonce h authorized user nonce e ≡ ok (tt, e')
        → Step e e'
    passes : Passed h kept e e' → Step e e'

  pub data Reach (e : Env) : Env → Type 0 where
    here : Reach e e
    next : {e' e'' : Env} → Reach e e' → Step e' e'' → Reach e e''
