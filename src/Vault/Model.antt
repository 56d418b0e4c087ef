-- ===== src/Vault/Model.antt =====
-- A concrete host for the vault's keys, with numbers as addresses: one table of values and TTLs for
-- each lifecycle. It shows that the laws assumed of the host can hold together.
pub mod Laws
use soroban_storage_the_on_c.Prelude.{
  ℕ, ◌≤◌, ◌<◌, ◌≡◌, ◌≢◌, ◌⊎◌, ◌&&◌, inl, inr, refl, ap, Bool, true, false, Option, none, some,
  arith, Bool-cases, Option-cases, ltb, leb, ◌==◌, if◌then◌else◌,
}
use soroban_storage_the_on_c.Prelude.Int.{ℤ}
use soroban_storage_the_on_c.Storage.Lifecycle.{
  Lifecycle, temporary, persistent, instance, same_lifecycle,
}
use soroban_storage_the_on_c.Storage.Host.{
  Host, HostLaws, KeyedStorage, has_at, get_at, set_at, remove_at, extend_at, update_at, is_some,
}
use soroban_storage_the_on_c.Vault.{Key, balance_key, nonce_key, grant_key, admin_key, Value}

abbrev pub Table : Type 0
Table = (k : Key ℕ) → Option (Value ℕ k)

pub record Env : Type 0 where
  pub value : Lifecycle → Table
  pub ttl : Lifecycle → Key ℕ → ℕ

abbrev pub limit : ℕ
limit = 10_000_000

abbrev pub empty : Env
empty = record { value = λ lc k. none; ttl = λ lc k. 0 }

abbrev pub put : (k : Key ℕ) → Option (Value ℕ k) → Table → Table
put (balance_key a) v t (balance_key b) = if a == b then v else t (balance_key b)
put (nonce_key a) v t (nonce_key b) = if a == b then v else t (nonce_key b)
put (grant_key a) v t (grant_key b) = if a == b then v else t (grant_key b)
put admin_key v t admin_key = v
put _ v t j = t j

abbrev pub same_key : Key ℕ → Key ℕ → Bool
same_key (balance_key a) (balance_key b) = a == b
same_key (nonce_key a) (nonce_key b) = a == b
same_key (grant_key a) (grant_key b) = a == b
same_key admin_key admin_key = true
same_key _ _ = false

pub put_self : (k : Key ℕ) (v : Option (Value ℕ k)) (t : Table) → put k v t k ≡ v
put_self (balance_key a) v t = let same : a == a ≡ true = ground arith in rw same refl
put_self (nonce_key a) v t = let same : a == a ≡ true = ground arith in rw same refl
put_self (grant_key a) v t = let same : a == a ≡ true = ground arith in rw same refl
put_self admin_key v t = refl

pub put-ne : (k j : Key ℕ) (v : Option (Value ℕ k)) (t : Table) → k ≢ j → put k v t j ≡ t j
put-ne (balance_key a) (balance_key b) v t ne =
    let apart : a ≢ b = λ q. ne (ap balance_key q) in
    let other : a == b ≡ false = ground (arith, apart) in rw other refl
put-ne (balance_key a) (nonce_key b) v t ne = refl
put-ne (balance_key a) (grant_key b) v t ne = refl
put-ne (balance_key a) admin_key v t ne = refl
put-ne (nonce_key a) (balance_key b) v t ne = refl
put-ne (nonce_key a) (nonce_key b) v t ne =
    let apart : a ≢ b = λ q. ne (ap nonce_key q) in
    let other : a == b ≡ false = ground (arith, apart) in rw other refl
put-ne (nonce_key a) (grant_key b) v t ne = refl
put-ne (nonce_key a) admin_key v t ne = refl
put-ne (grant_key a) (balance_key b) v t ne = refl
put-ne (grant_key a) (nonce_key b) v t ne = refl
put-ne (grant_key a) (grant_key b) v t ne =
    let apart : a ≢ b = λ q. ne (ap grant_key q) in
    let other : a == b ≡ false = ground (arith, apart) in rw other refl
put-ne (grant_key a) admin_key v t ne = refl
put-ne admin_key (balance_key b) v t ne = refl
put-ne admin_key (nonce_key b) v t ne = refl
put-ne admin_key (grant_key b) v t ne = refl
put-ne admin_key admin_key v t ne = absurd (ne refl)

pub same_key_self : (k : Key ℕ) → same_key k k ≡ true
same_key_self (balance_key a) = ground arith
same_key_self (nonce_key a) = ground arith
same_key_self (grant_key a) = ground arith
same_key_self admin_key = refl

abbrev pub put_at : Lifecycle → (k : Key ℕ) → Option (Value ℕ k) → Env → Env
put_at lc k v e = record e {
  value = λ mc. if same_lifecycle lc mc then put k v (e.value mc) else e.value mc;
}

-- The instance has one TTL, kept under the administrator's key.
abbrev pub slot : Lifecycle → Key ℕ → Key ℕ
slot temporary k = k
slot persistent k = k
slot instance k = admin_key

abbrev pub extended : Lifecycle → Key ℕ → ℕ → ℕ → Env → Env
extended lc k threshold extend_to e = record e {
  ttl = λ mc j.
      if same_lifecycle lc mc && same_key (slot lc k) j
      then (if ltb (e.ttl lc (slot lc k)) threshold then extend_to else e.ttl lc (slot lc k))
      else e.ttl mc j;
}

abbrev pub present : Lifecycle → Bool → Bool
present instance found = true
present _ found = found

abbrev pub extend : Lifecycle → Key ℕ → ℕ → ℕ → Env → Option Env
extend lc k threshold extend_to e =
    if ltb extend_to threshold
    then none
    else if present lc (is_some (e.value lc k))
    then some (extended lc k threshold extend_to e)
    else none

abbrev pub keyed : Lifecycle → KeyedStorage Env (Key ℕ) (Value ℕ)
keyed lc = record {
  has = λ k e. is_some (e.value lc k);
  get = λ k e. e.value lc k;
  set = λ k v e. put_at lc k (some v) e;
  update = λ k f e. (f (e.value lc k), put_at lc k (some (f (e.value lc k))) e);
  remove = λ k e. put_at lc k none e;
  extend_ttl = extend lc;
}

abbrev pub host : Host Env (Key ℕ) (Value ℕ)
host = record {
  persistent_storage = keyed persistent;
  temporary_storage = keyed temporary;
  instance_storage = record {
    has = λ k e. is_some (e.value instance k);
    get = λ k e. e.value instance k;
    set = λ k v e. put_at instance k (some v) e;
    update = λ k f e. (f (e.value instance k), put_at instance k (some (f (e.value instance k))) e);
    remove = λ k e. put_at instance k none e;
    extend_ttl = extend instance admin_key;
  };
}
