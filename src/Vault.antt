-- ===== src/Vault.antt =====
-- crates/example-contract/src/lib.rs: the vault, over the accessors that `storage!` generates.
-- Addresses, and which of them authorized the invocation, are the host's. An invocation that traps
-- changes nothing, so an error carries no environment.
pub mod Wrap
pub mod Access
pub mod Balances
pub mod Grants
pub mod Claims
pub mod Nonces
pub mod History
pub mod Model
pub mod Examples
use soroban_storage_the_on_c.Prelude.{
  ℕ, ◌*◌, ◌-◌, ◌^◌, ◌&&◌, Bool, true, false, Option, none, some, leb, ltb, if◌then◌else◌, Result,
  ok, err,
}
use soroban_storage_the_on_c.Prelude.Int.{ℤ, pos, negsuc, ◌+ℤ◌, ◌-ℤ◌, ltb_ℤ, leb_ℤ}
use soroban_storage_the_on_c.Storage.Lifecycle.{temporary, persistent, instance}
use soroban_storage_the_on_c.Storage.Ttl
use soroban_storage_the_on_c.Storage.Ttl.{days, default_policy, ledgers_per_day}
use soroban_storage_the_on_c.Storage.Host.{Host}
use soroban_storage_the_on_c.Storage.Ops.{Action}
use soroban_storage_the_on_c.Storage.Accessor
use soroban_storage_the_on_c.Storage.Accessor.{Consts}

-- The entries, with the arguments that their keys are built from, and their values.
pub data Key (Address : Type 0) : Type 0 where
  balance_key nonce_key grant_key : Address → Key Address
  admin_key : Key Address

abbrev pub Value : (Address : Type 0) → Key Address → Type 0
Value Address (balance_key user) = ℤ
Value Address (nonce_key user) = ℕ
Value Address (grant_key user) = ℤ
Value Address admin_key = Address

abbrev pub balance_consts : Consts
balance_consts = record {
  lifecycle = persistent;
  critical = true;
  auto_bump = true;
  policy = days 7 30;
}

abbrev pub nonce_consts : Consts
nonce_consts = record {
  lifecycle = temporary;
  critical = false;
  auto_bump = true;
  policy = default_policy temporary;
}

abbrev pub admin_consts : Consts
admin_consts = record {
  lifecycle = instance;
  critical = false;
  auto_bump = true;
  policy = default_policy instance;
}

abbrev pub grant_consts : Consts
grant_consts = record {
  lifecycle = persistent;
  critical = false;
  auto_bump = true;
  policy = default_policy persistent;
}

pub data VaultError : Type 0 where
  not_admin non_positive_amount insufficient_balance nothing_to_claim stale_nonce : VaultError

-- Why an invocation ends: an error of the vault, a failed authorization, the panic of `expect`,
-- or a trap of the host's storage.
pub data Trap : Type 0 where
  vault_error : VaultError → Trap
  unauthorized uninitialized storage_trap : Trap

abbrev pub Run : Type 0 → Type 0 → Type 0
Run Env A = Env → Result Trap (A × Env)

abbrev pub pure : {Env A : Type 0} → A → Run Env A
pure a e = ok (a, e)

infixl 5 ◌>>=◌ ◌>>◌
abbrev pub ◌>>=◌ : {Env A B : Type 0} → Run Env A → (A → Run Env B) → Run Env B
◌>>=◌ m f e = elim (m e) [ err t ↦ err t | ok (a, e') ↦ f a e' ]

abbrev pub ◌>>◌ : {Env A B : Type 0} → Run Env A → Run Env B → Run Env B
m >> k = m >>= λ _. k

-- An accessor's method, in an invocation.
abbrev pub stored : {Env A : Type 0} → Action Env A → Run Env A
stored action e = elim (action e) [ none ↦ err storage_trap | some r ↦ ok r ]

-- `if refused { panic_with_error!(…) }`
abbrev pub refuse_if : {Env : Type 0} → Bool → VaultError → Run Env Unit
refuse_if refused error = if refused then (λ e. err (vault_error error)) else pure tt

abbrev pub unwrap_or : {A : Type 0} → Option A → A → A
unwrap_or none a = a
unwrap_or (some v) a = v

-- `expect("uninitialized")`
abbrev pub expect : {Env A : Type 0} → Option A → Run Env A
expect none e = err uninitialized
expect (some a) e = ok (a, e)

-- `i128`: its largest value, and the sum and the difference of two of them, which wrap around,
-- as the release profile of Cargo.toml leaves overflow checks off.
abbrev pub i128_max : ℕ
i128_max = 2 ^ 127 - 1

abbrev pub i128_count : ℕ
i128_count = 2 ^ 128

unfoldable pub wrap_i128 : ℤ → ℤ
unfolding ◌+ℤ◌ ◌-ℤ◌
wrap_i128 a =
    if ltb_ℤ (pos i128_max) a
    then a -ℤ pos i128_count
    else if ltb_ℤ a (negsuc i128_max)
    then a +ℤ pos i128_count
    else a

abbrev pub add_i128 : ℤ → ℤ → ℤ
add_i128 a b = wrap_i128 (a +ℤ b)

abbrev pub sub_i128 : ℤ → ℤ → ℤ
sub_i128 a b = wrap_i128 (a -ℤ b)

abbrev pub is_zero : ℤ → Bool
is_zero a = leb_ℤ a (pos 0) && leb_ℤ (pos 0) a

-- `14 * LEDGERS_PER_DAY`
abbrev pub grant_ttl : ℕ
grant_ttl = 14 * ledgers_per_day

module _ {Env Address : Type 0} (h : Host Env (Key Address) (Value Address))
    (authorized : Address → Env → Bool) where
  abbrev pub require_auth : Address → Run Env Unit
  require_auth address e = if authorized address e then ok (tt, e) else err unauthorized

  unfoldable pub constructor : Address → Run Env Unit
  constructor admin = do require_auth admin; stored (Accessor.set h admin_consts admin_key admin)

  unfoldable pub deposit : Address → ℤ → Run Env Unit
  deposit user amount = do
    refuse_if (leb_ℤ amount (pos 0)) non_positive_amount
    stored (
        Accessor.update h balance_consts (balance_key user)
          (λ bal. add_i128 (unwrap_or bal (pos 0)) amount))
    pure tt

  unfoldable pub withdraw : Address → ℤ → Run Env Unit
  withdraw user amount = do
    require_auth user
    refuse_if (leb_ℤ amount (pos 0)) non_positive_amount
    found ← stored (Accessor.get h balance_consts (balance_key user))
    let balance : ℤ = unwrap_or found (pos 0)
    refuse_if (ltb_ℤ balance amount) insufficient_balance
    stored (Accessor.set h balance_consts (balance_key user) (sub_i128 balance amount))

  unfoldable pub balance : Address → Run Env ℤ
  balance user = do
    found ← stored (Accessor.get h balance_consts (balance_key user))
    pure (unwrap_or found (pos 0))

  unfoldable pub admin : Run Env Address
  admin = do found ← stored (Accessor.get h admin_consts admin_key); expect found

  unfoldable pub grant : Address → ℤ → Run Env Unit
  grant user amount = do
    found ← stored (Accessor.get h admin_consts admin_key)
    owner ← expect found
    require_auth owner
    refuse_if (leb_ℤ amount (pos 0)) non_positive_amount
    stored (Accessor.set_ttl h grant_consts (grant_key user) amount grant_ttl)

  unfoldable pub has_grant : Address → Run Env Bool
  has_grant user = stored (Accessor.has h grant_consts (grant_key user))

  unfoldable pub claim : Address → Run Env ℤ
  claim user = do
    require_auth user
    found ← stored (Accessor.get h grant_consts (grant_key user))
    let amount : ℤ = unwrap_or found (pos 0)
    refuse_if (is_zero amount) nothing_to_claim
    stored (Accessor.remove h grant_consts (grant_key user))
    stored (
        Accessor.update h balance_consts (balance_key user)
          (λ bal. add_i128 (unwrap_or bal (pos 0)) amount))
    pure amount

  unfoldable pub consume_nonce : Address → ℕ → Run Env Unit
  consume_nonce user nonce = do
    require_auth user
    found ← stored (Accessor.get h nonce_consts (nonce_key user))
    let last : ℕ = unwrap_or found 0
    refuse_if (leb nonce last) stale_nonce
    stored (Accessor.set h nonce_consts (nonce_key user) nonce)
