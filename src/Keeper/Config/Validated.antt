-- ===== src/Keeper/Config/Validated.antt =====
-- What a configuration that passes `validate` of crates/soroban-rent-keeper/src/config.rs is good
-- for.
use soroban_storage_the_on_c.Prelude.{
  ℕ, ◌≤◌, ◌<◌, ◌≡◌, ◌≢◌, ◌⊎◌, ◌↔◌, inl, inr, refl, Bool, true, false, List, [], ◌∷◌, String, str_eq,
  eq_iff, ltb, leb, is_empty, All, Bool-cases, lt→leb_false, arith, Result, ok, err, ◌>>◌,
}
use soroban_storage_the_on_c.Prelude.Int.{pos, ◌≤ℤ◌, ltb_ℤ}
use soroban_storage_the_on_c.Keeper.Config.{
  ContractConfig, Config, ConfigError, ledgers_per_poll, refuse_if, check_policies, check_cadence,
  check_thresholds, validate, rpc_url_required, network_passphrase_required, signer_secret_required,
  no_contracts, negative_floor, contract_id_required, inverted_policy, short_threshold,
}

-- A check, and what follows it.
refuse_then-ok :
    (b : Bool) (e : ConfigError) (next : Result ConfigError Unit)
    → ((refuse_if b e >> next) ≡ ok tt) ↔ ((b ≡ false) × (next ≡ ok tt))
unfolding refuse_if
refuse_then-ok true e next = (λ h. absurd (cc), λ h. absurd (cc))
refuse_then-ok false e next = (λ h. (refl, h), λ h. h.1)

-- A success of two checks in a row, as the successes of both.
both-ok :
    (first second : Result ConfigError Unit)
    → ((first >> second) ≡ ok tt) ↔ ((first ≡ ok tt) × (second ≡ ok tt))
both-ok (err e) second = (λ h. absurd (cc), λ h. absurd (cc))
both-ok (ok tt) second = (λ h. (refl, h), λ h. h.1)

str_eq-false : (s t : String) → (str_eq s t ≡ false) ↔ (s ≢ t)
str_eq-false s t = elim (Bool-cases (str_eq s t)) [
  | inl same ↦ (λ h. absurd (cc), λ differ. absurd (differ ((eq_iff s t).0 same)))
  | inr other ↦
      (λ h equal. let same : str_eq s t ≡ true = (eq_iff s t).1 equal in absurd (cc), λ h. other)
]

-- A contract with an identifier, and a threshold below the target.
pub record IsPolicy (c : ContractConfig) : Type 0 where
  pub named : c.contract_id ≢ ""
  pub ordered : c.threshold_ledgers < c.extend_to_ledgers

check_policies-ok : (cs : List ContractConfig) → (check_policies cs ≡ ok tt) ↔ All IsPolicy cs
unfolding check_policies
check_policies-ok [] = (λ h. tt, λ h. refl)
check_policies-ok (c ∷ cs) =
    let rest = check_policies-ok cs in
    let named = refuse_then-ok (str_eq c.contract_id "") contract_id_required _ in
    let ordered =
      refuse_then-ok (leb c.extend_to_ledgers c.threshold_ledgers) (inverted_policy c) _ in
    (
      λ h.
          let (is_named, h1) = named.0 h in
          let (is_ordered, h2) = ordered.0 h1 in
          (
            record { named = (str_eq-false _ _).0 is_named; ordered = ground (arith, is_ordered) },
            rest.0 h2,
          ),
      λ all. named.1 (
        (str_eq-false _ _).1 all.0.named,
        ordered.1 (lt→leb_false _ _ all.0.ordered, rest.1 all.1),
      ),
    )

check_cadence-ok :
    (elapsed secs : ℕ) (cs : List ContractConfig)
    → (check_cadence elapsed secs cs ≡ ok tt) ↔ All (λ c. elapsed ≤ c.threshold_ledgers) cs
unfolding check_cadence
check_cadence-ok elapsed secs [] = (λ h. tt, λ h. refl)
check_cadence-ok elapsed secs (c ∷ cs) =
    let rest = check_cadence-ok elapsed secs cs in
    let long =
      refuse_then-ok (ltb c.threshold_ledgers elapsed) (short_threshold c elapsed secs) _ in
    (
      λ h. let (is_long, h1) = long.0 h in (ground (arith, is_long), rest.0 h1),
      λ all. long.1 (ground (arith, all.0), rest.1 all.1),
    )

-- The configurations that the keeper runs with.
pub record IsValid (config : Config) : Type 0 where
  pub rpc_url : config.rpc_url ≢ ""
  pub network_passphrase : config.network_passphrase ≢ ""
  pub signer_secret : config.signer_secret ≢ ""
  pub some_contract : config.contracts ≢ []
  pub policies : All IsPolicy config.contracts
  pub floor : pos 0 ≤ℤ config.min_signer_balance_stroops
  pub cadence :
      (config.allow_short_threshold ≡ true)
      ⊎ All (λ c. ledgers_per_poll config.poll_interval_secs ≤ c.threshold_ledgers) config.contracts

is_empty-false : (cs : List ContractConfig) → (is_empty cs ≡ false) ↔ (cs ≢ [])
is_empty-false [] = (λ h. absurd (cc), λ h. absurd (h refl))
is_empty-false (c ∷ cs) = (λ h q. absurd (cc), λ h. refl)

check_thresholds-ok :
    (config : Config)
    → (check_thresholds config ≡ ok tt) ↔ (
        (config.allow_short_threshold ≡ true)
        ⊎ All
            (λ c. ledgers_per_poll config.poll_interval_secs ≤ c.threshold_ledgers)
            config.contracts)
unfolding check_thresholds
check_thresholds-ok config =
    let cadence =
      check_cadence-ok (ledgers_per_poll config.poll_interval_secs) config.poll_interval_secs
        config.contracts in
    elim (Bool-cases config.allow_short_threshold) [
      | inl allowed ↦ rw allowed (λ h. inl refl, λ h. refl)
      | inr checked ↦
          rw checked
            (λ h. inr (cadence.0 h), λ h. elim h [ inl q ↦ absurd (cc) | inr all ↦ cadence.1 all ])
    ]

-- `validate` succeeds for the valid configurations, and for no other.
pub validate_iff : (config : Config) → (validate config ≡ ok tt) ↔ IsValid config
unfolding validate
validate_iff config =
    let url = refuse_then-ok (str_eq config.rpc_url "") rpc_url_required _ in
    let phrase =
      refuse_then-ok (str_eq config.network_passphrase "") network_passphrase_required _ in
    let secret = refuse_then-ok (str_eq config.signer_secret "") signer_secret_required _ in
    let contracts = refuse_then-ok (is_empty config.contracts) no_contracts _ in
    let policies = both-ok (check_policies config.contracts) _ in
    let floor = refuse_then-ok (ltb_ℤ config.min_signer_balance_stroops (pos 0)) negative_floor _ in
    (
      λ h.
          let (a, h) = url.0 h in
          let (b, h) = phrase.0 h in
          let (c, h) = secret.0 h in
          let (d, h) = contracts.0 h in
          let (e, h) = policies.0 h in
          let (f, g) = floor.0 h in
          record {
            rpc_url = (str_eq-false _ _).0 a;
            network_passphrase = (str_eq-false _ _).0 b;
            signer_secret = (str_eq-false _ _).0 c;
            some_contract = (is_empty-false _).0 d;
            policies = (check_policies-ok _).0 e;
            floor = ground (arith, f);
            cadence = (check_thresholds-ok config).0 g;
          },
      λ v. url.1 (
        (str_eq-false _ _).1 v.rpc_url,
        phrase.1 (
          (str_eq-false _ _).1 v.network_passphrase,
          secret.1 (
            (str_eq-false _ _).1 v.signer_secret,
            contracts.1 (
              (is_empty-false _).1 v.some_contract,
              policies.1 (
                (check_policies-ok _).1 v.policies,
                floor.1 (ground (arith, v.floor), (check_thresholds-ok config).1 v.cadence),
              ),
            ),
          ),
        ),
      ),
    )
