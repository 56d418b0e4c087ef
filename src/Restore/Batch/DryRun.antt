-- ===== src/Restore/Batch/DryRun.antt =====
-- What a dry run of crates/soroban-restore-planner/src/main.rs leaves alone.
use soroban_storage_the_on_c.Prelude.{
  ℕ, ◌≡◌, ◌∙◌, refl, ap, Bool, true, false, Option, List, [], ◌∷◌, String, Bool-cases, inl, inr,
  Result, ok, err, is_empty, if◌then◌else◌,
}
use soroban_storage_the_on_c.Restore.Plan.{Transaction}
use soroban_storage_the_on_c.Restore.Planner.{
  Run, Rpc, ◌>>=◌, candidates, plan, push_code, push_keys, select_archived,
}
use soroban_storage_the_on_c.Restore.Command.{Args, Report, plan_contract}
use soroban_storage_the_on_c.Restore.Batch.{
  BatchConfig, BatchContract, BatchResult, Services, Panic, decode_wasm, plan_decoded, plan_hashed,
  without_panic, plan_listed, push_result, after_contract, run_contracts, planner_on, connected,
  verified, checked, finished, resolve_source, run_with_config, run_batch, run_single, or_else,
  unwrap_or, required,
}

if_same : {A : Type 0} (b : Bool) (x y z : A) → y ≡ z → (if b then x else y) ≡ (if b then x else z)
if_same b x y z same = ap (λ a. if b then x else a) same

module _ {W Key : Type 0} (submit' : String → Run W String)
    (sign' : Transaction Key → String → String → Result String String) where
  -- The same connection with another way to submit, and the same services with another way to
  -- submit and to sign.
  abbrev pub with_submit : Rpc W Key → Rpc W Key
  with_submit rpc = record rpc { submit_envelope = submit' }

  abbrev pub reconnected : Result String (Rpc W Key) → Result String (Rpc W Key)
  reconnected (err e) = err e
  reconnected (ok rpc) = ok (with_submit rpc)

  abbrev pub other_services : Services W Key → Services W Key
  other_services s = record s {
    connect = λ rpc_url. reconnected (s.connect rpc_url);
    sign_envelope = sign';
  }

  module _ (s : Services W Key) (rpc : Rpc W Key) (source : List ℕ) (secret : Option String)
      (passphrase : String) where
    decoded-eq :
        (contract : String) (keys : List String) (id : List ℕ) (wasm : Option (List ℕ)) (w : W)
        → plan_decoded
            (other_services s)
            (planner_on (other_services s) (with_submit rpc) source)
            contract
            keys
            secret
            passphrase
            false
            id
            wasm
            w
          ≡ plan_decoded s (planner_on s rpc source) contract keys secret passphrase false id wasm w
    unfolding ◌>>=◌ candidates plan push_code push_keys plan_contract select_archived
    decoded-eq contract keys id wasm w = refl

    hashed-eq :
        (contract : String) (keys : List String) (id : List ℕ)
        (hash : Result Panic (Result String (Option (List ℕ)))) (w : W)
        → plan_hashed
            (other_services s)
            (planner_on (other_services s) (with_submit rpc) source)
            contract
            keys
            secret
            passphrase
            false
            id
            hash
            w
          ≡ plan_hashed s (planner_on s rpc source) contract keys secret passphrase false id hash w
    hashed-eq contract keys id (err panic) w = refl
    hashed-eq contract keys id (ok (err e)) w = refl
    hashed-eq contract keys id (ok (ok wasm)) w =
        ap without_panic (decoded-eq contract keys id wasm w)

    listed-eq :
        (c : BatchContract) (id : Result String (List ℕ)) (w : W)
        → plan_listed
            (other_services s)
            (planner_on (other_services s) (with_submit rpc) source)
            secret
            passphrase
            false
            c
            id
            w
          ≡ plan_listed s (planner_on s rpc source) secret passphrase false c id w
    listed-eq c (err e) w = refl
    listed-eq c (ok id) w = hashed-eq c.contract_id c.keys id (decode_wasm c.wasm_hash) w

    -- What comes after a contract.
    after-eq :
        (contract : String) (r : Result Panic (Result String Report) × W)
        (rest rest' : W → Result Panic (List BatchResult) × W)
        → ((w : W) → rest w ≡ rest' w)
        → after_contract (other_services s) contract r rest ≡ after_contract s contract r rest'
    after-eq contract (err panic, w) rest rest' same = refl
    after-eq contract (ok (ok report), w) rest rest' same = ap (push_result s _) (same w)
    after-eq contract (ok (err e), w) rest rest' same = ap (push_result s _) (same w)

    contracts-eq :
        (contracts : List BatchContract) (w : W)
        → run_contracts
            (other_services s)
            (planner_on (other_services s) (with_submit rpc) source)
            secret
            passphrase
            false
            contracts
            w
          ≡ run_contracts s (planner_on s rpc source) secret passphrase false contracts w
    unfolding run_contracts
    contracts-eq [] w = refl
    contracts-eq (c ∷ cs) w =
        ap
          (λ r. after_contract (other_services s) c.contract_id r (
            run_contracts (other_services s)
              (planner_on (other_services s) (with_submit rpc) source) secret passphrase false cs))
          (listed-eq c (s.decode_contract_id c.contract_id) w)
        ∙ after-eq c.contract_id _ _ _ (contracts-eq cs)

  module _ (s : Services W Key) where
    connected-eq :
        {A : Type 0} (rpc : Result String (Rpc W Key)) (rpc_url passphrase : String)
        (next next' : Rpc W Key → W → Result Panic (Result String A) × W)
        → ((rpc : Rpc W Key) (w : W) → next (with_submit rpc) w ≡ next' rpc w)
        → (w : W)
        → connected (other_services s) (reconnected rpc) rpc_url passphrase next w
          ≡ connected s rpc rpc_url passphrase next' w
    connected-eq (err e) rpc_url passphrase next next' same w = refl
    connected-eq (ok rpc) rpc_url passphrase next next' same w =
        verified-eq (s.verify_network rpc_url passphrase w)
      where
        verified-eq :
            (r : Result String Unit × W)
            → verified (other_services s) r (next (with_submit rpc)) ≡ verified s r (next' rpc)
        verified-eq (err e, w') = refl
        verified-eq (ok u, w') = same rpc w'

    checked-eq :
        {A B : Type 0} (r : Result String A)
        (next next' : A → W → Result Panic (Result String B) × W)
        → ((a : A) (w : W) → next a w ≡ next' a w)
        → (w : W) → checked (other_services s) r next w ≡ checked s r next' w
    checked-eq (err e) next next' same w = refl
    checked-eq (ok a) next next' same w = same a w

    config-eq :
        (args : Args) (config : BatchConfig) (w : W)
        → args.dry_run ≡ true
        → args.submits ≡ false
        → run_with_config (other_services s) args config w ≡ run_with_config s args config w
    unfolding run_with_config resolve_source
    config-eq args config w dry no_submit = elim (Bool-cases config.submits) [
      | inl sub ↦ rw (dry, no_submit, sub) refl
      | inr no_sub ↦
          rw (dry, no_submit, no_sub)
            (if_same (is_empty config.contracts) _ _ _ (
              checked-eq
                (resolve_source s (or_else args.signer_secret config.signer_secret)
                  (or_else args.source config.source))
                _ _
                (λ source.
                  connected-eq (s.connect (unwrap_or args.rpc_url config.rpc_url)) _ _ _ _
                    (λ rpc w'. ap (finished s) (contracts-eq s rpc source _ _ config.contracts w')))
                w))
    ]

    single-eq :
        (args : Args) (w : W)
        → args.submits ≡ false
        → run_single (other_services s) args w ≡ run_single s args w
    unfolding run_single resolve_source
    single-eq args w no_submit = rw no_submit (
        checked-eq (required args.contract "--contract is required") _ _
          (λ contract. checked-eq (required args.rpc_url "--rpc-url is required") _ _ (λ rpc_url.
            checked-eq (required args.network_passphrase "--network-passphrase is required") _ _
              (λ passphrase. checked-eq (s.decode_contract_id contract) _ _ (λ id.
                checked-eq (resolve_source s args.signer_secret args.source) _ _ (λ source.
                  connected-eq (s.connect rpc_url) rpc_url passphrase _ _ (λ rpc.
                    hashed-eq s rpc source args.signer_secret passphrase contract args.keys id
                      (decode_wasm args.wasm_hash)))))))
          w)

    -- A dry run sends nothing: with `--dry-run`, which the arguments do not allow beside
    -- `--submit`, neither a batch, whatever its configuration asks for, nor a run on one contract
    -- depends on how an envelope is signed or submitted.
    pub dry_run-eq :
        (args : Args) (w : W)
        → args.dry_run ≡ true
        → args.submits ≡ false
        → (run_batch (other_services s) args w ≡ run_batch s args w)
          × (run_single (other_services s) args w ≡ run_single s args w)
    unfolding run_batch
    dry_run-eq args w dry no_submit = (
      checked-eq (required args.config "--config is required") _ _
          (λ path.
            checked-eq (s.read_config path) _ _
              (λ config w'. config-eq args config w' dry no_submit))
          w,
      single-eq args w no_submit,
    )
