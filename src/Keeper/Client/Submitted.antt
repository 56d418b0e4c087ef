-- ===== src/Keeper/Client/Submitted.antt =====
-- What `extend_entries` of crates/soroban-rent-keeper/src/stellar.rs sends.
use soroban_storage_the_on_c.Prelude.{
  ℕ, ◌≡◌, ◌∙◌, refl, ap, sym, false, List, [], ◌∷◌, String, is_empty, All2, Result, ok, bind-ok,
}
use soroban_storage_the_on_c.Prelude.Int.{ℤ}
use soroban_storage_the_on_c.Keeper.Rpc.{ExtendOutcome}
use soroban_storage_the_on_c.Restore.Planner.{lift}
use soroban_storage_the_on_c.Restore.Planner.Planned.{run-ok}
use soroban_storage_the_on_c.Keeper.Client.Sending.{
  IsSent, submit_extension-IsSent, left_world, lifted,
}
use soroban_storage_the_on_c.Keeper.Client.{
  Account, Client, ExtendTransaction, Simulated, next_seq, placeholder, now,
  build_extend_transaction, decode_all, submit_extension, extend_entries,
}

module _ {W LedgerKey Entry Signature : Type 0} (c : Client W LedgerKey Entry Signature)
    (source_account : List ℕ) (network_passphrase : String) (keys : List String)
    (extend_to : ℕ) where
  -- The simulated transaction reads the keys that were asked for.
  pub record IsSubmitted (outcome : ExtendOutcome) (w w' : W) : Type 0 where
    pub wanted : List LedgerKey
    pub current : ℕ
    pub account : Account
    pub probe : ExtendTransaction LedgerKey
    pub sim : Simulated LedgerKey
    pub read : W
    pub read_twice : W
    pub simulated : W
    pub decoded :
        All2 (λ (text : String) (k : LedgerKey). c.decode_ledger_key text ≡ ok k) keys wanted
    pub ledger : c.get_latest_ledger w ≡ (ok current, read)
    pub own_account :
        c.get_account (c.account_strkey source_account) read ≡ (ok account, read_twice)
    pub probed : probe.resources.footprint.read_only ≡ wanted
    pub probe_target : probe.extend_to ≡ extend_to
    pub simulation : c.simulate probe read_twice ≡ (ok sim, simulated)
    pub sending :
        IsSent c source_account network_passphrase extend_to current sim outcome simulated w'

  decode_all-All2 :
      (texts : List String) (wanted : List LedgerKey)
      → decode_all c source_account network_passphrase texts ≡ ok wanted
      → All2 (λ (text : String) (k : LedgerKey). c.decode_ledger_key text ≡ ok k) texts wanted
  unfolding decode_all
  decode_all-All2 [] [] q = tt
  decode_all-All2 [] (k ∷ wanted) q = absurd (cc)
  decode_all-All2 (t ∷ texts) wanted q =
      let (k, here, q1) = bind-ok (c.decode_ledger_key t) _ q in
      let (ks, there, q2) = bind-ok (decode_all c source_account network_passphrase texts) _ q1 in
      let same : ◌≡◌ {A = List LedgerKey} (k ∷ ks) wanted = cc in
      rw (sym same) (here, decode_all-All2 texts ks there)

  abbrev probe_of : ℤ → ℕ → List LedgerKey → ℕ → ExtendTransaction LedgerKey
  probe_of seq_num current wanted probed_at =
      build_extend_transaction c source_account network_passphrase seq_num current extend_to
        (placeholder c source_account network_passphrase wanted) 100 probed_at

  IsSubmitted-end :
      (outcome : ExtendOutcome) (wanted : List LedgerKey) (current probed_at : ℕ)
      (account : Account) (sim : Simulated LedgerKey) (w w1 w2 w3 w4 w5 w' : W)
      → lift (decode_all c source_account network_passphrase keys) w ≡ (ok wanted, w1)
      → c.get_latest_ledger w1 ≡ (ok current, w2)
      → c.get_account (c.account_strkey source_account) w2 ≡ (ok account, w3)
      → now c source_account network_passphrase w3 ≡ (ok probed_at, w4)
      → c.simulate (probe_of (next_seq account.seq_num) current wanted probed_at) w4 ≡ (ok sim, w5)
      → submit_extension c source_account network_passphrase
          (next_seq account.seq_num)
          current
          extend_to
          sim
          w5
        ≡ (ok outcome, w')
      → IsSubmitted outcome w w'
  unfolding now
  IsSubmitted-end outcome wanted current probed_at account sim w w1 w2 w3 w4 w5 w' q1 q2 q3 q4 q5
        h5 =
      record {
        wanted = wanted;
        current = current;
        account = account;
        probe = probe_of (next_seq account.seq_num) current wanted probed_at;
        sim = sim;
        read = w2;
        read_twice = w3;
        simulated = w5;
        decoded = decode_all-All2 keys wanted (lifted _ wanted w w1 q1);
        ledger = ap c.get_latest_ledger (left_world _ wanted w w1 q1) ∙ q2;
        own_account = q3;
        probed = refl;
        probe_target = refl;
        simulation =
            ap (c.simulate (probe_of (next_seq account.seq_num) current wanted probed_at))
              (ap (λ (t : Result String ℕ × W). t.1) q4)
            ∙ q5;
        sending =
            submit_extension-IsSent c source_account network_passphrase extend_to outcome w5 w'
              (next_seq account.seq_num) current sim h5;
      }

  -- Where `extend_entries` succeeds on some keys, it has read the current ledger and the keeper's
  -- account, and simulated an extension of exactly the decoded keys to the ledgers asked for. The
  -- simulation reported no error, and the transaction that was sent, and signed as it was sent, is
  -- of the keeper's account, extends to the ledgers asked for, and has the simulated footprint and
  -- the simulated resource fee, at most the largest `i64`; it pays that fee and 100 stroops, added
  -- modulo 2^64 and at most the largest `u32`. The answer had the status "SUCCESS", and its hash, or
  -- "unknown" if it has none, is the outcome.
  pub extend_entries-IsSubmitted :
      (w w' : W) (outcome : ExtendOutcome)
      → is_empty keys ≡ false
      → extend_entries c source_account network_passphrase keys extend_to w ≡ (ok outcome, w')
      → IsSubmitted outcome w w'
  unfolding extend_entries
  extend_entries-IsSubmitted w w' outcome some_keys q =
      let q0 = rw some_keys at q in
      let (wanted, w1, q1, h1) =
        run-ok (lift (decode_all c source_account network_passphrase keys)) _ w w' outcome q0 in
      let (current, w2, q2, h2) = run-ok c.get_latest_ledger _ w1 w' outcome h1 in
      let (account, w3, q3, h3) =
        run-ok (c.get_account (c.account_strkey source_account)) _ w2 w' outcome h2 in
      let (probed_at, w4, q4, h4) =
        run-ok (now c source_account network_passphrase) _ w3 w' outcome h3 in
      let (sim, w5, q5, h5) = run-ok (c.simulate _) _ w4 w' outcome h4 in
      IsSubmitted-end outcome wanted current probed_at account sim w w1 w2 w3 w4 w5 w' q1 q2 q3 q4
        q5 h5
