-- ===== src/Vault/Balances.antt =====
-- What the operations of crates/example-contract/src/lib.rs do to the balances.
use mathlib.Core.Path.{subst}
use soroban_storage_the_on_c.Prelude.{
  ◌≡◌, ◌∙◌, inl, inr, sym, ap, Bool, true, false, Option, Result, ok, err, arith, Bool-cases,
}
use soroban_storage_the_on_c.Prelude.Int.{ℤ, pos, ◌+ℤ◌, ◌≤ℤ◌, ◌<ℤ◌, leb_ℤ, ltb_ℤ}
use soroban_storage_the_on_c.Storage.Lifecycle.{persistent}
use soroban_storage_the_on_c.Storage.Host.{Host, HostLaws, get_at}
use soroban_storage_the_on_c.Storage.Ops.RoundTrip.{OnlyAt}
use soroban_storage_the_on_c.Vault.{
  Key, balance_key, grant_key, Value, balance_consts, unwrap_or, Trap, vault_error, unauthorized,
  non_positive_amount, insufficient_balance, ◌>>=◌, ◌>>◌, i128_max, add_i128, sub_i128, deposit,
  withdraw,
}
use soroban_storage_the_on_c.Vault.Wrap.{IsI128, sub_covered, add_inside, add_above}
use soroban_storage_the_on_c.Vault.Access.{
  Roomy, stored-get, stored-set, stored-update, balance-CanBump,
}

module _ {Env Address : Type 0} (h : Host Env (Key Address) (Value Address)) where
  -- The balance and the pending grant of a user, 0 if there is none.
  abbrev pub balance_of : Address → Env → ℤ
  balance_of user e = unwrap_or (get_at h persistent (balance_key user) e) (pos 0)

  abbrev pub grant_of : Address → Env → ℤ
  grant_of user e = unwrap_or (get_at h persistent (grant_key user) e) (pos 0)

  module _ (authorized : Address → Env → Bool) (user : Address) (amount : ℤ) (e : Env) where
    -- The ways in which `withdraw` ends.
    pub data Withdrawn : Result Trap (Unit × Env) → Type 0 where
      denied : authorized user e ≡ false → Withdrawn (err unauthorized)
      not_positive :
          authorized user e ≡ true
          → amount ≤ℤ pos 0
          → Withdrawn (err (vault_error non_positive_amount))
      too_little :
          authorized user e ≡ true
          → pos 0 <ℤ amount
          → balance_of user e <ℤ amount
          → Withdrawn (err (vault_error insufficient_balance))
      withdrawn :
          (e' : Env)
          → authorized user e ≡ true
          → pos 0 <ℤ amount
          → pos 0 ≤ℤ balance_of user e'
          → balance_of user e' +ℤ amount ≡ balance_of user e
          → OnlyAt h persistent (balance_key user) e e'
          → Withdrawn (ok (tt, e'))

    paid_out :
        (laws : HostLaws h)
        → Roomy h laws
        → balance_of user e ≤ℤ pos i128_max
        → authorized user e ≡ true
        → pos 0 <ℤ amount
        → amount ≤ℤ balance_of user e
        → Withdrawn (withdraw h authorized user amount e)
    unfolding withdraw
    paid_out laws roomy small auth positive enough =
        let (e1, q1, same) =
          stored-get h laws balance_consts (balance-CanBump h laws roomy) (balance_key user) e in
        let (e2, q2, (written, only)) =
          stored-set h laws balance_consts (balance-CanBump h laws roomy) (balance_key user)
            (sub_i128 (balance_of user e) amount) e1 in
        let refused : leb_ℤ amount (pos 0) ≡ false = ground (arith, positive) in
        let covered : ltb_ℤ (balance_of user e) amount ≡ false = ground (arith, enough) in
        rw (auth, ◌>>=◌, refused, ◌>>◌, q1, covered, q2)
          (let left = sub_covered (balance_of user e) amount small positive enough in
            let now : balance_of user e2 ≡ sub_i128 (balance_of user e) amount =
              ap (λ (o : Option ℤ). unwrap_or o (pos 0)) written in
            withdrawn e2 auth positive (subst (λ b. pos 0 ≤ℤ b) (sym now) left.0)
              (ap (λ b. b +ℤ amount) now ∙ left.1) (λ lc k other. only lc k other ∙ same lc k))

    -- `withdraw` traps unless the user authorized it, and reports a withdrawal that is not
    -- positive or that the balance does not cover. In every other case it succeeds: the balance
    -- is less by exactly the amount, and not negative, and no other value changes.
    pub withdraw-Withdrawn :
        (laws : HostLaws h)
        → Roomy h laws
        → balance_of user e ≤ℤ pos i128_max
        → Withdrawn (withdraw h authorized user amount e)
    unfolding withdraw
    withdraw-Withdrawn laws roomy small =
        let (e1, q1, same) =
          stored-get h laws balance_consts (balance-CanBump h laws roomy) (balance_key user) e in
        elim (Bool-cases (authorized user e)) [
          | inr missing ↦ rw (missing, ◌>>=◌) (denied missing)
          | inl auth ↦ elim (Bool-cases (leb_ℤ amount (pos 0))) [
            | inl low ↦ rw (auth, ◌>>=◌, low, ◌>>◌) (not_positive auth (ground (arith, low)))
            | inr high ↦ elim (Bool-cases (ltb_ℤ (balance_of user e) amount)) [
              | inl short ↦
                  rw (auth, ◌>>=◌, high, ◌>>◌, q1, short)
                    (too_little auth (ground (arith, high)) (ground (arith, short)))
              | inr enough ↦
                  paid_out laws roomy small auth (ground (arith, high)) (ground (arith, enough))
            ]
          ]
        ]

    -- The ways in which `deposit` ends.
    pub data Deposited : Result Trap (Unit × Env) → Type 0 where
      not_positive : amount ≤ℤ pos 0 → Deposited (err (vault_error non_positive_amount))
      added :
          (e' : Env)
          → pos 0 <ℤ amount
          → (balance_of user e +ℤ amount) ≤ℤ pos i128_max
          → balance_of user e' ≡ balance_of user e +ℤ amount
          → OnlyAt h persistent (balance_key user) e e'
          → Deposited (ok (tt, e'))
      overflowed :
          (e' : Env)
          → pos i128_max <ℤ (balance_of user e +ℤ amount)
          → balance_of user e' <ℤ pos 0
          → OnlyAt h persistent (balance_key user) e e'
          → Deposited (ok (tt, e'))

    credited :
        (e' : Env)
        → IsI128 (balance_of user e)
        → IsI128 amount
        → pos 0 <ℤ amount
        → balance_of user e' ≡ add_i128 (balance_of user e) amount
        → OnlyAt h persistent (balance_key user) e e'
        → Deposited (ok (tt, e'))
    credited e' inside inside' positive now only =
        elim (Bool-cases (leb_ℤ (balance_of user e +ℤ amount) (pos i128_max))) [
          | inl fits ↦
              let small : (balance_of user e +ℤ amount) ≤ℤ pos i128_max = ground (arith, fits) in
              added e' positive small
                (now ∙ add_inside (balance_of user e) amount inside positive small) only
          | inr over ↦
              let large : pos i128_max <ℤ (balance_of user e +ℤ amount) = ground (arith, over) in
              overflowed e' large
                (subst (λ b. b <ℤ pos 0) (sym now)
                  (add_above (balance_of user e) amount inside inside' large))
                only
        ]

    -- `deposit` reports an amount that is not positive. In every other case it succeeds and
    -- changes no value but the balance: the amount is added exactly where the sum is in the range
    -- of `i128`; where it is above, the balance becomes negative.
    pub deposit-Deposited :
        (laws : HostLaws h)
        → Roomy h laws
        → IsI128 (balance_of user e)
        → IsI128 amount
        → Deposited (deposit h authorized user amount e)
    unfolding deposit
    deposit-Deposited laws roomy inside inside' =
        let (e1, q1, (written, only)) =
          stored-update h laws balance_consts (balance-CanBump h laws roomy) (balance_key user)
            (λ bal. add_i128 (unwrap_or bal (pos 0)) amount) e in
        elim (Bool-cases (leb_ℤ amount (pos 0))) [
          | inl low ↦ rw (low, ◌>>◌, ◌>>=◌) (not_positive (ground (arith, low)))
          | inr high ↦
              rw (high, ◌>>◌, ◌>>=◌, q1)
                (credited e1 inside inside' (ground (arith, high))
                  (ap (λ (o : Option ℤ). unwrap_or o (pos 0)) written) only)
        ]
