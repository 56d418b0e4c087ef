-- ===== src/Vault/Model/Laws.antt =====
-- The laws of crates/soroban-storage/src/ops.rs's host, for the concrete host of the vault.
use soroban_storage_the_on_c.Prelude.{
  ℕ, ◌≤◌, ◌<◌, ◌≡◌, ◌≢◌, ◌⊎◌, inl, inr, refl, true, false, Option, none, some, arith, Bool-cases,
  Option-cases, ltb, if◌then◌else◌,
}
use soroban_storage_the_on_c.Storage.Lifecycle.{Lifecycle, temporary, persistent, instance}
use soroban_storage_the_on_c.Storage.Host.{
  HostLaws, has_at, get_at, set_at, remove_at, extend_at, update_at, is_some,
}
use soroban_storage_the_on_c.Vault.{Key, Value}
use soroban_storage_the_on_c.Vault.Model.{
  Env, limit, put_at, slot, extended, host, put_self, put-ne, same_key_self,
}

-- What is there after a value was put, or taken away.
put_at_self :
    (lc : Lifecycle) (k : Key ℕ) (v : Option (Value ℕ k)) (e : Env)
    → (put_at lc k v e).value lc k ≡ v
put_at_self temporary k v e = put_self k v (e.value temporary)
put_at_self persistent k v e = put_self k v (e.value persistent)
put_at_self instance k v e = put_self k v (e.value instance)

put_at-ne :
    (lc mc : Lifecycle) (k j : Key ℕ) (v : Option (Value ℕ k)) (e : Env)
    → (lc ≢ mc) ⊎ (k ≢ j)
    → (put_at lc k v e).value mc j ≡ e.value mc j
put_at-ne temporary temporary k j v e (inl lc_ne) = absurd (lc_ne refl)
put_at-ne temporary temporary k j v e (inr k_ne) = put-ne k j v (e.value temporary) k_ne
put_at-ne temporary persistent k j v e other = refl
put_at-ne temporary instance k j v e other = refl
put_at-ne persistent temporary k j v e other = refl
put_at-ne persistent persistent k j v e (inl lc_ne) = absurd (lc_ne refl)
put_at-ne persistent persistent k j v e (inr k_ne) = put-ne k j v (e.value persistent) k_ne
put_at-ne persistent instance k j v e other = refl
put_at-ne instance temporary k j v e other = refl
put_at-ne instance persistent k j v e other = refl
put_at-ne instance instance k j v e (inl lc_ne) = absurd (lc_ne refl)
put_at-ne instance instance k j v e (inr k_ne) = put-ne k j v (e.value instance) k_ne

pub has_get :
    (lc : Lifecycle) (k : Key ℕ) (e : Env) → has_at host lc k e ≡ is_some (get_at host lc k e)
has_get temporary k e = refl
has_get persistent k e = refl
has_get instance k e = refl

pub read_same :
    (lc : Lifecycle) (k : Key ℕ) (v : Value ℕ k) (e : Env)
    → get_at host lc k (set_at host lc k v e) ≡ some v
read_same temporary k v e = put_at_self temporary k (some v) e
read_same persistent k v e = put_at_self persistent k (some v) e
read_same instance k v e = put_at_self instance k (some v) e

pub read_other :
    (lc mc : Lifecycle) (k j : Key ℕ) (v : Value ℕ k) (e : Env)
    → (lc ≢ mc) ⊎ (k ≢ j)
    → get_at host mc j (set_at host lc k v e) ≡ get_at host mc j e
read_other temporary temporary k j v e other = put_at-ne temporary temporary k j (some v) e other
read_other temporary persistent k j v e other = put_at-ne temporary persistent k j (some v) e other
read_other temporary instance k j v e other = put_at-ne temporary instance k j (some v) e other
read_other persistent temporary k j v e other = put_at-ne persistent temporary k j (some v) e other
read_other persistent persistent k j v e other =
    put_at-ne persistent persistent k j (some v) e other
read_other persistent instance k j v e other = put_at-ne persistent instance k j (some v) e other
read_other instance temporary k j v e other = put_at-ne instance temporary k j (some v) e other
read_other instance persistent k j v e other = put_at-ne instance persistent k j (some v) e other
read_other instance instance k j v e other = put_at-ne instance instance k j (some v) e other

pub removed_same :
    (lc : Lifecycle) (k : Key ℕ) (e : Env) → get_at host lc k (remove_at host lc k e) ≡ none
removed_same temporary k e = put_at_self temporary k none e
removed_same persistent k e = put_at_self persistent k none e
removed_same instance k e = put_at_self instance k none e

pub removed_other :
    (lc mc : Lifecycle) (k j : Key ℕ) (e : Env)
    → (lc ≢ mc) ⊎ (k ≢ j)
    → get_at host mc j (remove_at host lc k e) ≡ get_at host mc j e
removed_other temporary temporary k j e other = put_at-ne temporary temporary k j none e other
removed_other temporary persistent k j e other = put_at-ne temporary persistent k j none e other
removed_other temporary instance k j e other = put_at-ne temporary instance k j none e other
removed_other persistent temporary k j e other = put_at-ne persistent temporary k j none e other
removed_other persistent persistent k j e other = put_at-ne persistent persistent k j none e other
removed_other persistent instance k j e other = put_at-ne persistent instance k j none e other
removed_other instance temporary k j e other = put_at-ne instance temporary k j none e other
removed_other instance persistent k j e other = put_at-ne instance persistent k j none e other
removed_other instance instance k j e other = put_at-ne instance instance k j none e other

pub updates :
    (lc : Lifecycle) (k : Key ℕ) (f : Option (Value ℕ k) → Value ℕ k) (e : Env)
    → update_at host lc k f e
      ≡ (f (get_at host lc k e), set_at host lc k (f (get_at host lc k e)) e)
updates temporary k f e = refl
updates persistent k f e = refl
updates instance k f e = refl

pub keeps_ttl :
    (lc : Lifecycle) (k : Key ℕ) (v : Value ℕ k) (e : Env)
    → get_at host lc k e ≢ none
    → (set_at host lc k v e).ttl lc (slot lc k) ≡ e.ttl lc (slot lc k)
keeps_ttl temporary k v e h = refl
keeps_ttl persistent k v e h = refl
keeps_ttl instance k v e h = refl

pub inverted :
    (lc : Lifecycle) (k : Key ℕ) (t x : ℕ) (e : Env) → x < t → extend_at host lc k t x e ≡ none
inverted temporary k t x e h = let over : ltb x t ≡ true = ground (arith, h) in rw over refl
inverted persistent k t x e h = let over : ltb x t ≡ true = ground (arith, h) in rw over refl
inverted instance k t x e h = let over : ltb x t ≡ true = ground (arith, h) in rw over refl

pub missing :
    (lc : Lifecycle) (k : Key ℕ) (t x : ℕ) (e : Env)
    → lc ≢ instance
    → get_at host lc k e ≡ none
    → extend_at host lc k t x e ≡ none
missing temporary k t x e h p = elim (Bool-cases (ltb x t)) [
  | inl over ↦ rw over refl
  | inr fits ↦ rw (fits, p) refl
]
missing persistent k t x e h p = elim (Bool-cases (ltb x t)) [
  | inl over ↦ rw over refl
  | inr fits ↦ rw (fits, p) refl
]
missing instance k t x e h p = absurd (h refl)

pub extends :
    (lc : Lifecycle) (k : Key ℕ) (t x : ℕ) (e : Env)
    → t ≤ x
    → x ≤ limit
    → (lc ≡ instance) ⊎ (get_at host lc k e ≢ none)
    → extend_at host lc k t x e ≡ some (extended lc k t x e)
extends temporary k t x e h l p =
    let fits : ltb x t ≡ false = ground (arith, h) in
    elim (Option-cases (e.value temporary k)) [
      | inl absent ↦ absurd (elim p [ inl same ↦ cc | inr there ↦ there absent ])
      | inr (v, found) ↦ rw (fits, found) refl
    ]
extends persistent k t x e h l p =
    let fits : ltb x t ≡ false = ground (arith, h) in
    elim (Option-cases (e.value persistent k)) [
      | inl absent ↦ absurd (elim p [ inl same ↦ cc | inr there ↦ there absent ])
      | inr (v, found) ↦ rw (fits, found) refl
    ]
extends instance k t x e h l p = let fits : ltb x t ≡ false = ground (arith, h) in rw fits refl

pub ttl_of_extended :
    (lc : Lifecycle) (k : Key ℕ) (t x : ℕ) (e : Env)
    → t ≤ x
    → x ≤ limit
    → (lc ≡ instance) ⊎ (get_at host lc k e ≢ none)
    → (extended lc k t x e).ttl lc (slot lc k)
      ≡ (if ltb (e.ttl lc (slot lc k)) t then x else e.ttl lc (slot lc k))
ttl_of_extended temporary k t x e h l p = rw same_key_self refl
ttl_of_extended persistent k t x e h l p = rw same_key_self refl
ttl_of_extended instance k t x e h l p = refl

pub values_of_extended :
    (lc mc : Lifecycle) (k j : Key ℕ) (t x : ℕ) (e : Env)
    → get_at host mc j (extended lc k t x e) ≡ get_at host mc j e
values_of_extended lc temporary k j t x e = refl
values_of_extended lc persistent k j t x e = refl
values_of_extended lc instance k j t x e = refl

unfoldable pub laws : HostLaws host
laws = record {
  ttl = λ lc k e. e.ttl lc (slot lc k);
  longest = λ lc. limit;
  has-get = has_get;
  get-set_self = read_same;
  get-set_ne = read_other;
  get-remove_self = removed_same;
  get-remove_ne = removed_other;
  update_lem = updates;
  ttl-set = keeps_ttl;
  extend_inverted = inverted;
  extend_missing = missing;
  extended = extended;
  extend_lem = extends;
  ttl-extended = ttl_of_extended;
  get-extended = values_of_extended;
}
