-- ===== src/Restore/Batch/Results.antt =====
-- The results of a batch, in crates/soroban-restore-planner/src/main.rs.
use soroban_storage_the_on_c.Prelude.{
  ◌≡◌, ◌∙◌, refl, ap, Bool, true, false, Option, some, none, List, [], ◌∷◌, String, All, Result, ok,
  err,
}
use soroban_storage_the_on_c.Restore.Planner.{Planner}
use soroban_storage_the_on_c.Restore.Command.{Report}
use soroban_storage_the_on_c.Restore.Batch.{
  BatchContract, BatchResult, Services, decode_wasm, result_of, plan_decoded, plan_hashed,
  plan_listed, push_result, after_contract, run_contracts,
}

-- Its hash is no text in which a pair of digits cuts a character.
abbrev pub IsWhole : BatchContract → Type 0
IsWhole c = (hash : Result String _) × (decode_wasm c.wasm_hash ≡ ok hash)

module _ {W Key : Type 0} (s : Services W Key) (p : Planner W Key) (secret : Option String)
    (passphrase : String) (submits : Bool) where
  hashed-ok :
      (contract : String) (keys : List String) (id : List _) (hash : Result String _) (w : W)
      → (outcome : Result String Report) × (w' : W) × (plan_hashed s p contract keys secret
            passphrase submits id
            (ok hash)
            w
          ≡ (ok outcome, w'))
  hashed-ok contract keys id (err e) w = (err e, w, refl)
  hashed-ok contract keys id (ok wasm) w =
      let end = plan_decoded s p contract keys secret passphrase submits id wasm w in
      (end.0, end.1, refl)

  listed-ok :
      (c : BatchContract) (id : Result String _) (w : W)
      → IsWhole c
      → (outcome : Result String Report) × (w' : W) × (plan_listed s p secret passphrase submits c
            id w
          ≡ (ok outcome, w'))
  listed-ok c (err e) w whole = (err e, w, refl)
  listed-ok c (ok id) w (hash, q) =
      let (outcome, w', q') = hashed-ok c.contract_id c.keys id hash w in
      (
        outcome,
        w',
        ap (λ h. plan_hashed s p c.contract_id c.keys secret passphrase submits id h w) q ∙ q',
      )

  -- The result of a contract that is planned from the world `w` to the world `w'`: the report that
  -- this gives and no error, or its error and no report.
  pub data IsTagged (c : BatchContract) (w w' : W) : BatchResult → Type 0 where
    succeeded :
        (report : Report)
        → plan_listed s p secret passphrase submits c (s.decode_contract_id c.contract_id) w
          ≡ (ok (ok report), w')
        → IsTagged c w w' (record {
          contract = c.contract_id;
          is_ok = true;
          report = some report;
          failure = none;
        })
    did_fail :
        (error : String)
        → plan_listed s p secret passphrase submits c (s.decode_contract_id c.contract_id) w
          ≡ (ok (err error), w')
        → IsTagged c w w' (record {
          contract = c.contract_id;
          is_ok = false;
          report = none;
          failure = some error;
        })

  -- One result for each contract, each planned in the world that the one before has left.
  abbrev pub AllTagged : List BatchContract → W → List BatchResult → W → Type 0
  AllTagged [] w [] w' = w ≡ w'
  AllTagged (c ∷ cs) w (r ∷ rs) w' = (w1 : W) × IsTagged c w w1 r × AllTagged cs w1 rs w'
  AllTagged _ _ _ _ = ⊥

  result-IsTagged :
      (c : BatchContract) (outcome : Result String Report) (w w' : W)
      → plan_listed s p secret passphrase submits c (s.decode_contract_id c.contract_id) w
        ≡ (ok outcome, w')
      → IsTagged c w w' (result_of s c.contract_id outcome)
  result-IsTagged c (ok report) w w' q = succeeded report q
  result-IsTagged c (err error) w w' q = did_fail error q

  -- A batch goes on after a failure: whatever the network answers, it ends with one result for
  -- each contract, in the order of the list, where each is planned in the world that the one before
  -- has left, and its result is the report of that and no error, or its error and no report, if no
  -- hash of the list is a text in which a pair of digits cuts a character.
  pub run_contracts-AllTagged :
      (contracts : List BatchContract) (w : W)
      → All IsWhole contracts
      → (results : List BatchResult) × (w' : W) × (run_contracts s p secret passphrase submits
            contracts w
          ≡ (ok results, w'))
        × AllTagged contracts w results w'
  unfolding run_contracts
  run_contracts-AllTagged [] w whole = ([], w, refl, refl)
  run_contracts-AllTagged (c ∷ cs) w (here, whole) =
      let (outcome, w1, q) = listed-ok c (s.decode_contract_id c.contract_id) w here in
      let (results, w2, q', tagged) = run_contracts-AllTagged cs w1 whole in
      (
        result_of s c.contract_id outcome ∷ results,
        w2,
        ap (λ r. after_contract s c.contract_id r (run_contracts s p secret passphrase submits cs))
              q
            ∙ ap (push_result s (result_of s c.contract_id outcome)) q',
        (w1, result-IsTagged c outcome w w1 q, tagged),
      )
