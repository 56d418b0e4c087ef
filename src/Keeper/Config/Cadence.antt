-- ===== src/Keeper/Config/Cadence.antt =====
-- What a loaded configuration of crates/soroban-rent-keeper/src/config.rs promises the poll loop.
use mathlib.Core.Path.{subst}
use mathlib.Core.List.{Memᴰ}
use soroban_storage_the_on_c.Prelude.{
  ℕ, ◌+◌, ◌*◌, ◌<◌, ◌≤◌, u32_max, ◌≡◌, ◌⊎◌, inl, inr, refl, sym, ap, false, Option, none, some,
  List, [], ◌∷◌, String, All, arith, Result, ok, err, map_err, ◌>>◌, bind-ok,
}
use soroban_storage_the_on_c.Keeper.Risk.{ttl_remaining, should_extend}
use soroban_storage_the_on_c.Keeper.Config.{
  ContractConfig, Config, invalid_config, rejected, cannot_read, ledgers_per_poll, validate,
  override_with, with_environment, load, ConfigError,
}
use soroban_storage_the_on_c.Keeper.Config.Validated.{IsValid, validate_iff}

All-at : {A : Type 0} (P : A → Type 0) {x : A} (xs : List A) → All P xs → Memᴰ x xs → P x
All-at P [] all m = elim m [ ]
All-at P (y ∷ ys) all (Memᴰ.head q) = subst P (sym q) all.0
All-at P (y ∷ ys) all (Memᴰ.tail m) = All-at P ys all.1 m

-- Under a configuration that `validate` accepts without the opt-out, an entry of a watched contract
-- that a poll leaves alone is still live after as many further ledgers as close in whole intervals
-- of 5 seconds before the next poll, if their number is in the range of `u32`.
pub left_alone-lives :
    (config : Config) (c : ContractConfig) (live_until current closed : ℕ)
    → validate config ≡ ok tt
    → config.allow_short_threshold ≡ false
    → Memᴰ c config.contracts
    → should_extend (ttl_remaining live_until current) c.threshold_ledgers ≡ false
    → closed * 5 ≤ config.poll_interval_secs
    → closed ≤ u32_max
    → 0 < ttl_remaining live_until (current + closed)
unfolding should_extend ledgers_per_poll
left_alone-lives config c live_until current closed passed checked watched alone soon fits =
    elim ((validate_iff config).0 passed).cadence [
      | inl allowed ↦ absurd (cc)
      | inr covers ↦
          let long = All-at _ config.contracts covers watched in
          let few : closed ≤ ledgers_per_poll config.poll_interval_secs =
            omega (arith, soon, fits) in
          ground (arith, long, alone, few)
    ]

accepted :
    (r : Result ConfigError Unit) (chosen config : Config)
    → (map_err rejected r >> ok chosen) ≡ ok config
    → (r ≡ ok tt) × (chosen ≡ config)
accepted (err e) chosen config h = absurd (cc)
accepted (ok tt) chosen config h = (refl, cc)

overridden :
    (given : Option String) (value used : String)
    → override_with given value ≡ used
    → (given ≡ none) ⊎ (given ≡ some used)
overridden none value used h = inl refl
overridden (some t) value used h = inr (ap some h)

-- A configuration that is loaded is valid, and has the endpoint and the secret of the environment
-- where those are set.
pub load-IsValid :
    (read : Result String String) (from_str : String → Result String Config)
    (rpc_url signer_secret : Option String) (config : Config)
    → load read from_str rpc_url signer_secret ≡ ok config
    → IsValid config
      × ((rpc_url ≡ none) ⊎ (rpc_url ≡ some config.rpc_url))
      × ((signer_secret ≡ none) ⊎ (signer_secret ≡ some config.signer_secret))
unfolding load
load-IsValid read from_str rpc_url signer_secret config h =
    let (raw, q1, h1) = bind-ok (map_err cannot_read read) _ h in
    let (parsed, q2, h2) = bind-ok (map_err invalid_config (from_str raw)) _ h1 in
    let chosen : Config = with_environment rpc_url signer_secret parsed in
    let (passed, same) = accepted (validate chosen) chosen config h2 in
    (
      subst IsValid same ((validate_iff chosen).0 passed),
      overridden rpc_url parsed.rpc_url config.rpc_url (ap (λ (c : Config). c.rpc_url) same),
      overridden signer_secret parsed.signer_secret config.signer_secret
          (ap (λ (c : Config). c.signer_secret) same),
    )
