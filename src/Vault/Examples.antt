-- ===== src/Vault/Examples.antt =====
-- Witnesses of the theorems about the vault, on the concrete host: user 7 has a balance of 50 and a
-- grant of 20, and everybody authorized everything.
use native.Mathlib.Decide.{ℕ_discrete}
use soroban_storage_the_on_c.Prelude.{ℕ, ◌≡◌, refl, Bool, true, some, Result, ok, err, arith}
use soroban_storage_the_on_c.Prelude.Int.{pos, ◌+ℤ◌}
use soroban_storage_the_on_c.Storage.Lifecycle.{temporary, persistent, instance}
use soroban_storage_the_on_c.Storage.Ttl.{clamped_for, default_policy, days}
use soroban_storage_the_on_c.Storage.Ops
use soroban_storage_the_on_c.Vault.{
  Key, balance_key, grant_key, admin_key, Trap, vault_error, stale_nonce, deposit, withdraw, claim,
  grant, consume_nonce,
}
use soroban_storage_the_on_c.Vault.Access.{Roomy}
use soroban_storage_the_on_c.Vault.Balances.{
  Withdrawn, withdraw-Withdrawn, Deposited, deposit-Deposited,
}
use soroban_storage_the_on_c.Vault.Claims.{Claimed, claim-Claimed}
use soroban_storage_the_on_c.Vault.Grants.{Granted, grant-Granted}
use soroban_storage_the_on_c.Vault.Nonces.{Consumed, consume_nonce-Consumed}
use soroban_storage_the_on_c.Vault.History.{here, next, consumes, withdraws, IsSound}
use soroban_storage_the_on_c.Vault.History.Invariant.{Reach-IsSound, consume_nonce-Reach}
use soroban_storage_the_on_c.Vault.Model.{Env, empty, host, put_at}
use soroban_storage_the_on_c.Vault.Model.Laws.{laws}

abbrev pub vault : Env
vault =
    put_at persistent (balance_key 7) (some (pos 50))
      (put_at persistent (grant_key 7) (some (pos 20)) (put_at instance admin_key (some 1) empty))

abbrev pub everybody : ℕ → Env → Bool
everybody address e = true

roomy : Roomy host laws
unfolding laws
roomy temporary = omega arith
roomy persistent = omega arith
roomy instance = omega arith

withdraw-Withdrawn_example :
    Withdrawn host everybody 7 (pos 30) vault (withdraw host everybody 7 (pos 30) vault)
withdraw-Withdrawn_example =
    withdraw-Withdrawn host everybody 7 (pos 30) vault laws roomy (omega arith)

deposit-Deposited_example :
    Deposited host everybody 7 (pos 30) vault (deposit host everybody 7 (pos 30) vault)
deposit-Deposited_example =
    deposit-Deposited host everybody 7 (pos 30) vault laws roomy (omega arith) (omega arith)

claim-Claimed_example : Claimed host everybody 7 vault (claim host everybody 7 vault)
unfolding ◌+ℤ◌
claim-Claimed_example = claim-Claimed host everybody 7 vault laws roomy (omega arith)

grant-Granted_example :
    Granted host laws everybody 8 (pos 5) vault (grant host everybody 8 (pos 5) vault)
grant-Granted_example = grant-Granted host laws everybody 8 (pos 5) vault roomy

consume_nonce-Consumed_example :
    Consumed host everybody 7 3 vault (consume_nonce host everybody 7 3 vault)
consume_nonce-Consumed_example = consume_nonce-Consumed host everybody 7 3 vault laws roomy

abbrev pub env_of : Env → Result Trap (Unit × Env) → Env
env_of e (err trap) = e
env_of e (ok (u, e')) = e'

-- After the nonce 3 was consumed.
after_three : Env
after_three = env_of vault (consume_nonce host everybody 7 3 vault)

three_is_consumed : consume_nonce host everybody 7 3 vault ≡ ok (tt, after_three)
unfolding after_three consume_nonce Ops.get Ops.set Ops.bump clamped_for default_policy
three_is_consumed = refl

-- After a withdrawal by the same user.
after_withdrawal : Env
after_withdrawal = env_of after_three (withdraw host everybody 7 (pos 30) after_three)

withdrawal : withdraw host everybody 7 (pos 30) after_three ≡ ok (tt, after_withdrawal)
unfolding after_withdrawal after_three withdraw consume_nonce Ops.get Ops.set Ops.bump clamped_for
    default_policy days
withdrawal = refl

vault-IsSound : IsSound host vault
vault-IsSound = record {
  balance_least = λ user. ground arith;
  balance_most = λ user. ground arith;
  grant_least = λ user. ground arith;
  grant_most = λ user. ground arith;
}

abbrev AllKept : Key ℕ → Type 0
AllKept k = Unit

Reach-IsSound_example : IsSound host after_withdrawal
Reach-IsSound_example =
    Reach-IsSound host everybody ℕ_discrete AllKept laws vault after_withdrawal roomy vault-IsSound
      (next (next here (consumes 7 3 three_is_consumed)) (withdraws 7 (pos 30) withdrawal))

consume_nonce-Reach_example :
    consume_nonce host everybody 7 2 after_withdrawal ≡ err (vault_error stale_nonce)
consume_nonce-Reach_example =
    consume_nonce-Reach host everybody ℕ_discrete AllKept laws 7 3 2 vault after_three
      after_withdrawal roomy vault-IsSound three_is_consumed tt
      (next here (withdraws 7 (pos 30) withdrawal)) refl (omega arith)
