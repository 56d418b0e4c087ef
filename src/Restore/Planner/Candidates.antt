-- ===== src/Restore/Planner/Candidates.antt =====
-- The candidates that crates/soroban-restore-planner/src/planner.rs resolves.
use mathlib.Core.List.{append_assoc, map-append, append-nil}
use soroban_storage_the_on_c.Prelude.{
  ℕ, ◌+◌, ◌≡◌, refl, ap, sym, ◌∙◌, Option, none, some, List, [], ◌∷◌, ◌++◌, map, String, All,
  Result, ok, bind-ok,
}
use soroban_storage_the_on_c.Restore.Plan.{Candidate}
use soroban_storage_the_on_c.Restore.Planner.{
  lift, Planner, resolve, push_code, push_keys, candidates,
}
use soroban_storage_the_on_c.Restore.Planner.Planned.{run-ok, lift-ok, ok_same, same_world}

abbrev pub keys_of : List Candidate → List String
keys_of = map (λ c. c.key_xdr)

module _ {W Key : Type 0} (p : Planner W Key) where
  abbrev pub Decodes : String → Type 0
  Decodes text = (key : Key) × (p.xdr.decode_ledger_key text ≡ ok key)

  push_keys-ok :
      (i : ℕ) (before result : List Candidate) (keys : List String)
      → push_keys p i before keys ≡ ok result
      → (keys_of result ≡ keys_of before ++ keys) × All Decodes keys
  unfolding push_keys
  push_keys-ok i before result [] h =
      let same : before ≡ result = cc in
      (ap keys_of (sym same) ∙ sym (append-nil (keys_of before)), tt)
  push_keys-ok i before result (key ∷ keys) h =
      let (decoded, q, k) = bind-ok (p.xdr.decode_ledger_key key) _ h in
      let (more, all) = push_keys-ok (i + 1) _ result keys k in
      (
        more
            ∙ ap (λ l. l ++ keys) (map-append (λ (c : Candidate). c.key_xdr) before _)
            ∙ append_assoc (keys_of before) (key ∷ []) keys,
        ((decoded, q), all),
      )

  -- The hash that was given, which asks for nothing, or else the answer of the network.
  abbrev pub Resolved : List ℕ → Option (List ℕ) → W → Option (List ℕ) → W → Type 0
  Resolved contract_id (some hash) w resolved w' = (resolved ≡ some hash) × (w ≡ w')
  Resolved contract_id none w resolved w' = p.rpc.fetch_wasm_hash contract_id w ≡ (ok resolved, w')

  -- The key of the code of that hash, if there is one.
  abbrev pub IsCode : Option (List ℕ) → List String → Type 0
  IsCode none code = code ≡ []
  IsCode (some hash) code =
      (key : String) × (p.xdr.encode_ledger_key (p.xdr.contract_code_key hash) ≡ ok key)
      × (code ≡ key ∷ [])

  -- What the candidates are, from the world `w` to the world `w'`.
  pub record IsCandidates (contract_id : List ℕ) (keys : List String) (wasm_hash : Option (List ℕ))
      (result : List Candidate) (w w' : W) : Type 0 where
    pub instance_key : String
    pub resolved : Option (List ℕ)
    pub code : List String
    pub contract :
        p.xdr.encode_ledger_key (p.xdr.contract_instance_key contract_id) ≡ ok instance_key
    pub resolves : Resolved contract_id wasm_hash w resolved w'
    pub runs : IsCode resolved code
    pub in_order : keys_of result ≡ instance_key ∷ (code ++ keys)
    pub decode : All Decodes keys

  push_code-ok :
      (before result : List Candidate) (resolved : Option (List ℕ))
      → push_code p before resolved ≡ ok result
      → (code : List String) × (keys_of result ≡ keys_of before ++ code) × IsCode resolved code
  unfolding push_code
  push_code-ok before result none h =
      let same : before ≡ result = cc in
      ([], ap keys_of (sym same) ∙ sym (append-nil (keys_of before)), refl)
  push_code-ok before result (some hash) h =
      let (key, q, k) = bind-ok (p.xdr.encode_ledger_key (p.xdr.contract_code_key hash)) _ h in
      let added : Candidate = record { label = "code"; key_xdr = key } in
      let same : before ++ added ∷ [] ≡ result = cc in
      (
        key ∷ [],
        ap keys_of (sym same) ∙ map-append (λ (c : Candidate). c.key_xdr) before (added ∷ []),
        (key, q, refl),
      )

  resolve-Resolved :
      (contract_id : List ℕ) (wasm_hash resolved : Option (List ℕ)) (w w' : W)
      → resolve p contract_id wasm_hash w ≡ (ok resolved, w')
      → Resolved contract_id wasm_hash w resolved w'
  resolve-Resolved contract_id none resolved w w' h = h
  resolve-Resolved contract_id (some hash) resolved w w' h = (
    sym (ok_same p (some hash) resolved w w' h),
    ap (λ (t : Result String (Option (List ℕ)) × W). t.1) h,
  )

  IsCandidates-end :
      (contract_id : List ℕ) (keys : List String) (wasm_hash resolved : Option (List ℕ))
      (with_code result : List Candidate) (instance_key : String) (w w1 w2 w3 w' : W)
      → lift (p.xdr.encode_ledger_key (p.xdr.contract_instance_key contract_id)) w
        ≡ (ok instance_key, w1)
      → resolve p contract_id wasm_hash w1 ≡ (ok resolved, w2)
      → lift
          (push_code p ((record { label = "instance"; key_xdr = instance_key }) ∷ []) resolved)
          w2
        ≡ (ok with_code, w3)
      → lift (push_keys p 0 with_code keys) w3 ≡ (ok result, w')
      → IsCandidates contract_id keys wasm_hash result w w'
  IsCandidates-end contract_id keys wasm_hash resolved with_code result instance_key w w1 w2 w3 w'
        q1 q2 q3 q4 =
      let (code, names, runs) =
        push_code-ok _ with_code resolved (lift-ok p _ with_code w2 w3 q3) in
      let (more, decode) = push_keys-ok 0 with_code result keys (lift-ok p _ result w3 w' q4) in
      let before : w1 ≡ w = sym (same_world p _ instance_key w w1 q1) in
      let after : w2 ≡ w' = same_world p _ with_code w2 w3 q3 ∙ same_world p _ result w3 w' q4 in
      record {
        instance_key = instance_key;
        resolved = resolved;
        code = code;
        contract = lift-ok p _ instance_key w w1 q1;
        resolves = resolve-Resolved contract_id wasm_hash resolved w w' (
            ap (resolve p contract_id wasm_hash) (sym before)
            ∙ q2
            ∙ ap (λ (v : W). (ok resolved, v)) after);
        runs = runs;
        in_order = more ∙ ap (λ l. l ++ keys) names;
        decode = decode;
      }

  -- Candidates that are resolved are the contract's instance, its code and the explicit keys, in
  -- this order, none of which is dropped; and every explicit key decodes. The code is that of the
  -- hash given or, if none is, of the hash that the network answers for the contract, which is then
  -- the only thing asked of it; there is no code where the network answers that there is none.
  pub candidates-ok :
      (contract_id : List ℕ) (keys : List String) (wasm_hash : Option (List ℕ))
      (result : List Candidate) (w w' : W)
      → candidates p contract_id keys wasm_hash w ≡ (ok result, w')
      → IsCandidates contract_id keys wasm_hash result w w'
  unfolding candidates
  candidates-ok contract_id keys wasm_hash result w w' h =
      let (instance_key, w1, q1, h1) =
        run-ok (lift (p.xdr.encode_ledger_key (p.xdr.contract_instance_key contract_id))) _ w w'
          result h in
      let (resolved, w2, q2, h2) = run-ok (resolve p contract_id wasm_hash) _ w1 w' result h1 in
      let (with_code, w3, q3, h3) = run-ok (lift (push_code p _ resolved)) _ w2 w' result h2 in
      IsCandidates-end contract_id keys wasm_hash resolved with_code result instance_key w w1 w2 w3
        w' q1 q2 q3 h3
