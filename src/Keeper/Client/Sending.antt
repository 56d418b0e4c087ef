-- ===== src/Keeper/Client/Sending.antt =====
-- What `extend_entries` of crates/soroban-rent-keeper/src/stellar.rs sends, once it has simulated.
use mathlib.Core.Path.{subst}
use soroban_storage_the_on_c.Prelude.{
  ℕ, ◌+◌, ◌-◌, ◌%◌, ◌^◌, min, ◌≡◌, ◌∙◌, refl, ap, inl, inr, Option, none, some, List, String,
  str_eq, eq_iff, leb, i64_max, if◌then◌else◌, Bool-cases, Result, ok, arith,
}
use soroban_storage_the_on_c.Prelude.Int.{ℤ, pos}
use soroban_storage_the_on_c.Keeper.Rpc.{ExtendOutcome, submitted}
use soroban_storage_the_on_c.Restore.Plan.{TransactionData}
use soroban_storage_the_on_c.Restore.Planner.{lift}
use soroban_storage_the_on_c.Restore.Planner.Planned.{run-ok}
use soroban_storage_the_on_c.Keeper.Client.{
  Client, ExtendTransaction, Simulated, Sent, extension_fee, charge_fee, refused, now, outcome_of,
  build_extend_transaction, submit_extension,
}

-- The outcome of an answer with that hash.
pub data IsHash : Option String → ExtendOutcome → Type 0 where
  known : (hash : String) → IsHash (some hash) (submitted hash)
  unknown : IsHash none (submitted "unknown")

pub left_world :
    {W A : Type 0} (r : Result String A) (a : A) (w w' : W) → lift r w ≡ (ok a, w') → w ≡ w'
left_world {W} {A} r a w w' h = ap (λ (t : Result String A × W). t.1) h

pub lifted :
    {W A : Type 0} (r : Result String A) (a : A) (w w' : W) → lift r w ≡ (ok a, w') → r ≡ ok a
lifted {W} {A} r a w w' h = ap (λ (t : Result String A × W). t.0) h

module _ {W LedgerKey Entry Signature : Type 0} (c : Client W LedgerKey Entry Signature)
    (source_account : List ℕ) (network_passphrase : String) (extend_to : ℕ) where
  -- From the world `w` to the world `w'`: the simulation had no error, and its data were sent in a
  -- transaction, signed as it is, that was taken.
  pub record IsSent (current : ℕ) (sim : Simulated LedgerKey) (outcome : ExtendOutcome) (w w' : W)
      : Type 0 where
    pub transaction : ExtendTransaction LedgerKey
    pub signature : Signature
    pub sent : Sent
    pub sim_data : TransactionData LedgerKey
    pub no_failure : sim.failure ≡ none
    pub has_data : sim.transaction_data ≡ ok sim_data
    pub signed : c.sign transaction network_passphrase ≡ ok signature
    pub taken : c.send_polling transaction signature w ≡ (ok sent, w')
    pub successful : sent.status ≡ "SUCCESS"
    pub hash : IsHash sent.tx_hash outcome
    pub own_source : transaction.source_account ≡ source_account
    pub own_target : transaction.extend_to ≡ extend_to
    pub footprint : transaction.resources.footprint ≡ sim_data.footprint
    pub resource_fee :
        transaction.resources.resource_fee ≡ pos (min sim.min_resource_fee (2 ^ 63 - 1))
    pub fee : transaction.fee ≡ min ((sim.min_resource_fee + 100) % 2 ^ 64) (2 ^ 32 - 1)
    pub valid_from : transaction.min_ledger ≡ current

  refused-ok :
      (failure : Option String)
      → refused c source_account network_passphrase failure ≡ ok tt
      → failure ≡ none
  refused-ok none q = refl
  refused-ok (some e) q = absurd (cc)

  hash-IsHash :
      (tx_hash : Option String)
      → IsHash tx_hash (submitted (elim tx_hash [ some hash ↦ hash | none ↦ "unknown" ]))
  hash-IsHash none = unknown
  hash-IsHash (some hash) = known hash

  outcome_of-ok :
      (sent : Sent) (outcome : ExtendOutcome)
      → outcome_of c source_account network_passphrase sent ≡ ok outcome
      → (sent.status ≡ "SUCCESS") × IsHash sent.tx_hash outcome
  outcome_of-ok sent outcome q = elim (Bool-cases (str_eq sent.status "SUCCESS")) [
    | inl good ↦
        let q' = rw good at q in
        let same : submitted (elim sent.tx_hash [ some hash ↦ hash | none ↦ "unknown" ]) ≡ outcome =
          cc in
        (
          (eq_iff sent.status "SUCCESS").0 good,
          subst (IsHash sent.tx_hash) same (hash-IsHash sent.tx_hash),
        )
    | inr bad ↦ let q' = rw bad at q in absurd (cc)
  ]

  fee-eq : (m : ℕ) → extension_fee m ≡ min ((m + 100) % 2 ^ 64) (2 ^ 32 - 1)
  fee-eq m = refl

  resource_fee-eq : (m : ℕ) → (if leb m i64_max then m else i64_max) ≡ min m (2 ^ 63 - 1)
  resource_fee-eq m = ground arith

  -- The transaction that is sent.
  abbrev final_of :
      ℤ → ℕ → Simulated LedgerKey → TransactionData LedgerKey → ℕ → ExtendTransaction LedgerKey
  final_of seq_num current sim sim_data built_at =
      build_extend_transaction c source_account network_passphrase seq_num current extend_to
        (charge_fee c source_account network_passphrase sim.min_resource_fee sim_data)
        (extension_fee sim.min_resource_fee) built_at

  IsSent-end :
      (outcome : ExtendOutcome) (seq_num : ℤ) (current built_at : ℕ) (sim : Simulated LedgerKey)
      (sim_data : TransactionData LedgerKey) (signature : Signature) (sent : Sent)
      (w w1 w2 w3 w4 w5 w' : W)
      → lift (refused c source_account network_passphrase sim.failure) w ≡ (ok tt, w1)
      → lift sim.transaction_data w1 ≡ (ok sim_data, w2)
      → now c source_account network_passphrase w2 ≡ (ok built_at, w3)
      → lift (c.sign (final_of seq_num current sim sim_data built_at) network_passphrase) w3
        ≡ (ok signature, w4)
      → c.send_polling (final_of seq_num current sim sim_data built_at) signature w4 ≡ (ok sent, w5)
      → lift (outcome_of c source_account network_passphrase sent) w5 ≡ (ok outcome, w')
      → IsSent current sim outcome w w'
  unfolding now
  IsSent-end outcome seq_num current built_at sim sim_data signature sent w w1 w2 w3 w4 w5 w' q1 q2
        q3 q4 q5 q6 =
      let tx = final_of seq_num current sim sim_data built_at in
      let before : w ≡ w4 =
        left_world _ tt w w1 q1
        ∙ left_world _ sim_data w1 w2 q2
        ∙ ap (λ (t : Result String ℕ × W). t.1) q3
        ∙ left_world _ signature w3 w4 q4 in
      let after : w5 ≡ w' = left_world _ outcome w5 w' q6 in
      let (good, hash) = outcome_of-ok sent outcome (lifted _ outcome w5 w' q6) in
      record {
        transaction = tx;
        signature = signature;
        sent = sent;
        sim_data = sim_data;
        no_failure = refused-ok sim.failure (lifted _ tt w w1 q1);
        has_data = lifted _ sim_data w1 w2 q2;
        signed = lifted _ signature w3 w4 q4;
        taken = ap (c.send_polling tx signature) before ∙ q5 ∙ ap (λ (v : W). (ok sent, v)) after;
        successful = good;
        hash = hash;
        own_source = refl;
        own_target = refl;
        footprint = refl;
        resource_fee = ap pos (resource_fee-eq sim.min_resource_fee);
        fee = fee-eq sim.min_resource_fee;
        valid_from = refl;
      }

  pub submit_extension-IsSent :
      (outcome : ExtendOutcome) (w w' : W) (seq_num : ℤ) (current : ℕ) (sim : Simulated LedgerKey)
      → submit_extension c source_account network_passphrase seq_num current extend_to sim w
        ≡ (ok outcome, w')
      → IsSent current sim outcome w w'
  unfolding submit_extension
  submit_extension-IsSent outcome w w' seq_num current sim q =
      let (go, w1, q1, h1) =
        run-ok (lift (refused c source_account network_passphrase sim.failure)) _ w w' outcome q in
      let (sim_data, w2, q2, h2) = run-ok (lift sim.transaction_data) _ w1 w' outcome h1 in
      let (built_at, w3, q3, h3) =
        run-ok (now c source_account network_passphrase) _ w2 w' outcome h2 in
      let (signature, w4, q4, h4) =
        run-ok (lift (c.sign (final_of seq_num current sim sim_data built_at) network_passphrase)) _
          w3 w' outcome h3 in
      let (sent, w5, q5, h5) = run-ok (c.send_polling _ signature) _ w4 w' outcome h4 in
      IsSent-end outcome seq_num current built_at sim sim_data signature sent w w1 w2 w3 w4 w5 w' q1
        q2 q3 q4 q5 h5
