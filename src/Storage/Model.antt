-- ===== src/Storage/Model.antt =====
-- A concrete host: one table of values and TTLs for each lifecycle, which shows that the laws
-- assumed of the host can hold together. Its keys and values are numbers.
use soroban_storage_the_on_c.Prelude.{
  ℕ, ◌≤◌, ◌<◌, ◌≡◌, ◌≢◌, ◌⊎◌, ◌&&◌, refl, Bool, true, false, Option, none, some, arith, ltb, ◌==◌,
  if◌then◌else◌,
}
use soroban_storage_the_on_c.Storage.Lifecycle.{
  Lifecycle, temporary, persistent, instance, same_lifecycle,
}
use soroban_storage_the_on_c.Storage.Host.{
  Host, HostLaws, KeyedStorage, has_at, get_at, set_at, remove_at, extend_at, update_at, is_some,
}

pub record Env : Type 0 where
  pub value : Lifecycle → ℕ → Option ℕ
  pub ttl : Lifecycle → ℕ → ℕ

abbrev pub limit : ℕ
limit = 10000000

abbrev pub empty : Env
empty = record { value = λ lc k. none; ttl = λ lc k. 0 }

-- The instance has one TTL, kept under the key 0.
abbrev pub slot : Lifecycle → ℕ → ℕ
slot temporary k = k
slot persistent k = k
slot instance k = 0

abbrev pub replace {ℓ} : {A : Type ℓ} → (Lifecycle → ℕ → A) → Lifecycle → ℕ → A → Lifecycle → ℕ → A
replace f lc k a mc j = if same_lifecycle lc mc && (k == j) then a else f mc j

abbrev pub put : Lifecycle → ℕ → Option ℕ → Env → Env
put lc k v e = record e { value = replace e.value lc k v }

abbrev pub extended : Lifecycle → ℕ → ℕ → ℕ → Env → Env
extended lc k threshold extend_to e = record e {
  ttl =
      replace e.ttl lc (slot lc k)
        (if ltb (e.ttl lc (slot lc k)) threshold then extend_to else e.ttl lc (slot lc k));
}

abbrev pub present : Lifecycle → Option ℕ → Bool
present instance o = true
present _ none = false
present _ (some v) = true

abbrev pub extend : Lifecycle → ℕ → ℕ → ℕ → Env → Option Env
extend lc k threshold extend_to e =
    if ltb extend_to threshold
    then none
    else if present lc (e.value lc k)
    then some (extended lc k threshold extend_to e)
    else none

abbrev pub or_zero : Option ℕ → Bool
or_zero none = false
or_zero (some v) = true

abbrev pub keyed : Lifecycle → KeyedStorage Env ℕ (λ _. ℕ)
keyed lc = record {
  has = λ k e. or_zero (e.value lc k);
  get = λ k e. e.value lc k;
  set = λ k v e. put lc k (some v) e;
  update = λ k f e. (f (e.value lc k), put lc k (some (f (e.value lc k))) e);
  remove = λ k e. put lc k none e;
  extend_ttl = extend lc;
}

abbrev pub host : Host Env ℕ (λ _. ℕ)
host = record {
  persistent_storage = keyed persistent;
  temporary_storage = keyed temporary;
  instance_storage = record {
    has = λ k e. or_zero (e.value instance k);
    get = λ k e. e.value instance k;
    set = λ k v e. put instance k (some v) e;
    update = λ k f e. (f (e.value instance k), put instance k (some (f (e.value instance k))) e);
    remove = λ k e. put instance k none e;
    extend_ttl = extend instance 0;
  };
}

pub has_get : (lc : Lifecycle) (k : ℕ) (e : Env) → has_at host lc k e ≡ is_some (get_at host lc k e)
has_get lc k e = ground arith

pub read_same :
    (lc : Lifecycle) (k : ℕ) (v : ℕ) (e : Env) → get_at host lc k (set_at host lc k v e) ≡ some v
read_same lc k v e = ground arith

pub read_other :
    (lc mc : Lifecycle) (k j : ℕ) (v : ℕ) (e : Env)
    → (lc ≢ mc) ⊎ (k ≢ j)
    → get_at host mc j (set_at host lc k v e) ≡ get_at host mc j e
read_other lc mc k j v e h = ground arith

pub removed_same :
    (lc : Lifecycle) (k : ℕ) (e : Env) → get_at host lc k (remove_at host lc k e) ≡ none
removed_same lc k e = ground arith

pub removed_other :
    (lc mc : Lifecycle) (k j : ℕ) (e : Env)
    → (lc ≢ mc) ⊎ (k ≢ j)
    → get_at host mc j (remove_at host lc k e) ≡ get_at host mc j e
removed_other lc mc k j e h = ground arith

pub updates :
    (lc : Lifecycle) (k : ℕ) (f : Option ℕ → ℕ) (e : Env)
    → update_at host lc k f e
      ≡ (f (get_at host lc k e), set_at host lc k (f (get_at host lc k e)) e)
updates temporary k f e = refl
updates persistent k f e = refl
updates instance k f e = refl

pub keeps_ttl :
    (lc : Lifecycle) (k : ℕ) (v : ℕ) (e : Env)
    → get_at host lc k e ≢ none
    → (set_at host lc k v e).ttl lc (slot lc k) ≡ e.ttl lc (slot lc k)
keeps_ttl temporary k v e h = refl
keeps_ttl persistent k v e h = refl
keeps_ttl instance k v e h = refl

pub inverted : (lc : Lifecycle) (k t x : ℕ) (e : Env) → x < t → extend_at host lc k t x e ≡ none
inverted lc k t x e h = ground arith

pub missing :
    (lc : Lifecycle) (k t x : ℕ) (e : Env)
    → lc ≢ instance
    → get_at host lc k e ≡ none
    → extend_at host lc k t x e ≡ none
missing temporary k t x e h p = ground arith
missing persistent k t x e h p = ground arith
missing instance k t x e h p = absurd (h refl)

pub extends :
    (lc : Lifecycle) (k t x : ℕ) (e : Env)
    → t ≤ x
    → x ≤ limit
    → (lc ≡ instance) ⊎ (get_at host lc k e ≢ none)
    → extend_at host lc k t x e ≡ some (extended lc k t x e)
extends temporary k t x e h l p = ground arith
extends persistent k t x e h l p = ground arith
extends instance k t x e h l p = ground arith

pub ttl_of_extended :
    (lc : Lifecycle) (k t x : ℕ) (e : Env)
    → t ≤ x
    → x ≤ limit
    → (lc ≡ instance) ⊎ (get_at host lc k e ≢ none)
    → (extended lc k t x e).ttl lc (slot lc k)
      ≡ (if ltb (e.ttl lc (slot lc k)) t then x else e.ttl lc (slot lc k))
ttl_of_extended lc k t x e h l p = ground arith

pub values_of_extended :
    (lc mc : Lifecycle) (k j t x : ℕ) (e : Env)
    → get_at host mc j (extended lc k t x e) ≡ get_at host mc j e
values_of_extended lc temporary k j t x e = refl
values_of_extended lc persistent k j t x e = refl
values_of_extended lc instance k j t x e = refl

unfoldable pub laws : HostLaws host
laws = record {
  ttl = λ lc k e. e.ttl lc (slot lc k);
  longest = λ lc. limit;
  has-get = has_get;
  get-set_self = read_same;
  get-set_ne = read_other;
  get-remove_self = removed_same;
  get-remove_ne = removed_other;
  update_lem = updates;
  ttl-set = keeps_ttl;
  extend_inverted = inverted;
  extend_missing = missing;
  extended = extended;
  extend_lem = extends;
  ttl-extended = ttl_of_extended;
  get-extended = values_of_extended;
}
