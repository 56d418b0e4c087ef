-- ===== src/Restore/Planner/Planned.antt =====
-- What a plan of crates/soroban-restore-planner/src/planner.rs is, when there is one.
use mathlib.Core.Path.{subst}
use soroban_storage_the_on_c.Prelude.{
  ℕ, ◌+◌, ◌-◌, ◌%◌, ◌^◌, min, ◌≤◌, ◌<◌, ◌≡◌, ◌∙◌, refl, ap, sym, List, [], String, leb, keep_if,
  All2, if◌then◌else◌, u32_max, u64_max, i64_max, Result, ok, err, arith, bind-ok, Bool-cases, inl,
  inr,
}
use soroban_storage_the_on_c.Prelude.Int.{ℤ, pos}
use soroban_storage_the_on_c.Restore.Plan.{
  Candidate, LedgerFootprint, Transaction, Simulation, PlannedRestore, candidate_footprint,
  decode_keys, archived_keys, build_restore_transaction, placeholder_resources,
}
use soroban_storage_the_on_c.Restore.Planner.{
  Run, bind_from, ◌>>=◌, lift, pure, Planner, total_fee, clamped_fee, holds, select_archived,
  charged, now, plan,
}
use soroban_storage_the_on_c.Restore.Planner.Selected.{
  Selected, keep_if-Selected, decode_keys-All2, encode_keys-All2,
}

-- The fee for the simulated resource fee `m`.
pub data IsFee (m : ℕ) : ℕ → Type 0 where
  exact : m + 100 ≤ u32_max → clamped_fee m ≡ pos m → IsFee m (m + 100)
  capped : u32_max < m + 100 → m + 100 ≤ u64_max → IsFee m u32_max
  wrapped : (fee : ℕ) → u64_max < m + 100 → fee < 100 → IsFee m fee

exact_fee : (m : ℕ) → m + 100 ≤ u32_max → (total_fee m ≡ m + 100) × (clamped_fee m ≡ pos m)
unfolding total_fee clamped_fee
exact_fee m small = ground arith

capped_fee : (m : ℕ) → u32_max < m + 100 → m + 100 ≤ u64_max → total_fee m ≡ u32_max
unfolding total_fee
capped_fee m large fits = omega arith

wrapped_fee : (m : ℕ) → m ≤ u64_max → u64_max < m + 100 → total_fee m < 100
unfolding total_fee
wrapped_fee m inside over = omega arith

-- The fee of a restore, for a resource fee in the range of `u64`: the resource fee and 100 stroops
-- where that is in the range of `u32`, when also the transaction data carry the simulated fee; the
-- largest `u32` above that; but less than 100 stroops where the sum passes the range of `u64`.
pub total_fee-IsFee : (m : ℕ) → m ≤ u64_max → IsFee m (total_fee m)
total_fee-IsFee m inside = elim (Bool-cases (leb (m + 100) u32_max)) [
  | inl small ↦
      let (q, q') = exact_fee m (ground (arith, small)) in
      subst (IsFee m) (sym q) (exact (ground (arith, small)) q')
  | inr large ↦ elim (Bool-cases (leb (m + 100) u64_max)) [
    | inl fits ↦
        subst (IsFee m) (sym (capped_fee m (ground (arith, large)) (ground (arith, fits))))
          (capped (ground (arith, large)) (ground (arith, fits)))
    | inr over ↦
        wrapped (total_fee m) (ground (arith, over)) (wrapped_fee m inside (ground (arith, over)))
  ]
]

clamped-eq : (m : ℕ) → (if leb m i64_max then m else i64_max) ≡ min m (2 ^ 63 - 1)
clamped-eq m = ground arith

-- A success of two steps in a row, as the successes of both.
after_first :
    {W A B : Type 0} (r : Result String A × W) (f : A → Run W B) (b : B) (w' : W)
    → bind_from r f ≡ (ok b, w')
    → (a : A) × (w1 : W) × (r ≡ (ok a, w1)) × (f a w1 ≡ (ok b, w'))
after_first (err e, w1) f b w' k = absurd (cc)
after_first (ok a, w1) f b w' k = (a, w1, refl, k)

pub run-ok :
    {W A B : Type 0} (m : Run W A) (f : A → Run W B) (w w' : W) (b : B)
    → (m >>= f) w ≡ (ok b, w')
    → (a : A) × (w1 : W) × (m w ≡ (ok a, w1)) × (f a w1 ≡ (ok b, w'))
unfolding ◌>>=◌
run-ok m f w w' b h = after_first (m w) f b w' h

module _ {W Key : Type 0} (p : Planner W Key) where
  -- From the world `w` to the world `w'`, the plan was made of what the network answered: the
  -- current ledger, the account's sequence number, and the simulation of a probe.
  pub record IsPlanned (candidates : List Candidate) (w w' : W) (planned : PlannedRestore Key)
      : Type 0 where
    pub read : W
    pub read_twice : W
    pub probe : Transaction Key
    pub simulation : Simulation Key
    pub wanted : List Key
    pub restored : List String
    pub ledger : p.rpc.latest_ledger w ≡ (ok planned.current_ledger, read)
    pub sequence :
        p.rpc.account_sequence (p.xdr.account_strkey p.source) read
        ≡ (ok planned.transaction.seq_num, read_twice)
    pub decoded :
        All2
          (λ (c : Candidate) (k : Key). p.xdr.decode_ledger_key c.key_xdr ≡ ok k)
          candidates
          wanted
    pub probed : p.xdr.vecm wanted ≡ ok probe.resources.footprint.read_write
    pub simulated : p.rpc.simulate_restore probe read_twice ≡ (ok simulation, w')
    pub found :
        All2
          (λ (k : Key) (text : String). p.xdr.encode_ledger_key k ≡ ok text)
          simulation.transaction_data.footprint.read_write
          restored
    pub archived : Selected restored candidates planned.archived
    pub considered : planned.candidates ≡ candidates
    pub reported : planned.min_resource_fee ≡ simulation.min_resource_fee
    pub source : planned.transaction.source_account ≡ p.source
    pub footprint : planned.transaction.resources.footprint ≡ simulation.transaction_data.footprint
    pub resource_fee :
        planned.transaction.resources.resource_fee
        ≡ pos (min simulation.min_resource_fee (2 ^ 63 - 1))
    pub fee :
        planned.transaction.fee ≡ min ((simulation.min_resource_fee + 100) % 2 ^ 64) (2 ^ 32 - 1)
    pub valid_from : planned.transaction.min_ledger ≡ planned.current_ledger
    pub encoded : p.xdr.encode_unsigned planned.transaction ≡ ok planned.unsigned_xdr

  -- The transaction and the plan that are built from what the calls returned.
  abbrev transaction_of : ℕ → ℤ → Simulation Key → ℕ → Transaction Key
  transaction_of current sequence simulation built_at =
      build_restore_transaction p.source sequence current (charged p simulation)
        (total_fee simulation.min_resource_fee) built_at

  abbrev plan_of :
      List Candidate → ℕ → ℤ → Simulation Key → List Candidate → ℕ → String → PlannedRestore Key
  plan_of candidates current sequence simulation archived built_at unsigned = record {
    current_ledger = current;
    candidates = candidates;
    archived = archived;
    min_resource_fee = simulation.min_resource_fee;
    transaction = transaction_of current sequence simulation built_at;
    unsigned_xdr = unsigned;
  }

  -- The probe of the footprint.
  abbrev probe_of : ℕ → ℤ → LedgerFootprint Key → ℕ → Transaction Key
  probe_of current sequence footprint probed_at =
      build_restore_transaction p.source sequence current (placeholder_resources footprint) 100
        probed_at

  plan_of-IsPlanned :
      (candidates archived : List Candidate) (current probed_at built_at : ℕ) (sequence : ℤ)
      (footprint : LedgerFootprint Key) (simulation : Simulation Key) (unsigned : String)
      (w w1 w2 w' : W)
      → p.rpc.latest_ledger w ≡ (ok current, w1)
      → p.rpc.account_sequence (p.xdr.account_strkey p.source) w1 ≡ (ok sequence, w2)
      → candidate_footprint p.xdr candidates ≡ ok footprint
      → p.rpc.simulate_restore (probe_of current sequence footprint probed_at) w2
        ≡ (ok simulation, w')
      → select_archived p candidates simulation ≡ ok archived
      → p.xdr.encode_unsigned (transaction_of current sequence simulation built_at) ≡ ok unsigned
      → IsPlanned candidates w w'
          (plan_of candidates current sequence simulation archived built_at unsigned)
  unfolding select_archived build_restore_transaction placeholder_resources candidate_footprint
      archived_keys total_fee clamped_fee
  plan_of-IsPlanned candidates archived current probed_at built_at sequence footprint simulation
        unsigned w w1 w2 w' ledger account q1 simulated q2 encoded =
      let (wanted, decoded, rest) = bind-ok (decode_keys p.xdr candidates) _ q1 in
      let (written, packed, made) = bind-ok (p.xdr.vecm wanted) _ rest in
      let whole : ◌≡◌ {A = LedgerFootprint Key} (record { read_only = []; read_write = written })
          footprint =
        cc in
      let (restored, found, chosen) =
        bind-ok (archived_keys p.xdr simulation.transaction_data) _ q2 in
      let same : keep_if (holds restored) candidates ≡ archived = cc in
      record {
        read = w1;
        read_twice = w2;
        probe = probe_of current sequence footprint probed_at;
        simulation = simulation;
        wanted = wanted;
        restored = restored;
        ledger = ledger;
        sequence = account;
        decoded = decode_keys-All2 p.xdr candidates wanted decoded;
        probed = packed ∙ ap (λ (f : LedgerFootprint Key). ok f.read_write) whole;
        simulated = simulated;
        found = encode_keys-All2 p.xdr _ restored found;
        archived = subst (Selected restored candidates) same (keep_if-Selected restored candidates);
        considered = refl;
        reported = refl;
        source = refl;
        footprint = refl;
        resource_fee = ap pos (clamped-eq simulation.min_resource_fee);
        fee = refl;
        valid_from = refl;
        encoded = encoded;
      }

  pub ok_same : {A : Type 0} (a b : A) (w w' : W) → pure {W = W} a w ≡ (ok b, w') → a ≡ b
  ok_same {A} a b w w' h =
      let left : Result String A = ok a in
      let right : Result String A = ok b in
      let q : left ≡ right = ap (λ (r : Result String A × W). r.0) h in cc

  pub lift-ok :
      {A : Type 0} (r : Result String A) (a : A) (w w' : W) → lift r w ≡ (ok a, w') → r ≡ ok a
  lift-ok {A} r a w w' h = ap (λ (t : Result String A × W). t.0) h

  pub same_world :
      {A : Type 0} (r : Result String A) (a : A) (w w' : W) → lift r w ≡ (ok a, w') → w ≡ w'
  same_world {A} r a w w' h = ap (λ (t : Result String A × W). t.1) h

  -- The codec and the clock leave the world as it is.
  IsPlanned-end :
      (candidates archived : List Candidate) (planned : PlannedRestore Key)
      (current probed_at built_at : ℕ) (sequence : ℤ) (footprint : LedgerFootprint Key)
      (simulation : Simulation Key) (unsigned : String) (w w1 w2 w3 w4 w5 w6 w7 w8 w' : W)
      → p.rpc.latest_ledger w ≡ (ok current, w1)
      → p.rpc.account_sequence (p.xdr.account_strkey p.source) w1 ≡ (ok sequence, w2)
      → lift (candidate_footprint p.xdr candidates) w2 ≡ (ok footprint, w3)
      → now p w3 ≡ (ok probed_at, w4)
      → p.rpc.simulate_restore (probe_of current sequence footprint probed_at) w4
        ≡ (ok simulation, w5)
      → lift (select_archived p candidates simulation) w5 ≡ (ok archived, w6)
      → now p w6 ≡ (ok built_at, w7)
      → lift (p.xdr.encode_unsigned (transaction_of current sequence simulation built_at)) w7
        ≡ (ok unsigned, w8)
      → pure {W = W} (plan_of candidates current sequence simulation archived built_at unsigned) w8
        ≡ (ok planned, w')
      → IsPlanned candidates w w' planned
  unfolding now
  IsPlanned-end candidates archived planned current probed_at built_at sequence footprint simulation
        unsigned w w1 w2 w3 w4 w5 w6 w7 w8 w' q1 q2 q3 q4 q5 q6 q7 q8 h8 =
      let before : w2 ≡ w4 =
        same_world _ footprint w2 w3 q3 ∙ ap (λ (t : Result String ℕ × W). t.1) q4 in
      let after : w5 ≡ w' =
        same_world _ archived w5 w6 q6
        ∙ ap (λ (t : Result String ℕ × W). t.1) q7
        ∙ same_world _ unsigned w7 w8 q8
        ∙ ap (λ (t : Result String (PlannedRestore Key) × W). t.1) h8 in
      subst (IsPlanned candidates w w') (ok_same _ planned w8 w' h8) (
        plan_of-IsPlanned candidates archived current probed_at built_at sequence footprint
          simulation unsigned w w1 w2 w' q1 q2 (lift-ok _ footprint w2 w3 q3)
          (ap (p.rpc.simulate_restore (probe_of current sequence footprint probed_at)) before
            ∙ q5
            ∙ ap (λ (v : W). (ok simulation, v)) after)
          (lift-ok _ archived w5 w6 q6) (lift-ok _ unsigned w7 w8 q8))

  -- A plan that succeeds is made of the network's answers: the current ledger, the sequence number
  -- of the planner's account, and the simulation of a probe whose read-write footprint is that of
  -- the candidates' decoded keys. It considers the candidates it was given, and reports as archived,
  -- in their order, exactly those whose keys are the texts of the simulation's read-write footprint.
  -- Its transaction is from the planner's account, has the footprint of the simulation and the
  -- simulated resource fee, at most the largest `i64`, and pays that fee and 100 stroops, added
  -- modulo 2^64 and at most the largest `u32`; the envelope is that transaction, encoded.
  pub plan-IsPlanned :
      (candidates : List Candidate) (planned : PlannedRestore Key) (w w' : W)
      → plan p candidates w ≡ (ok planned, w')
      → IsPlanned candidates w w' planned
  unfolding plan
  plan-IsPlanned candidates planned w w' h =
      let (current, w1, q1, h1) = run-ok p.rpc.latest_ledger _ w w' planned h in
      let (seq, w2, q2, h2) =
        run-ok (p.rpc.account_sequence (p.xdr.account_strkey p.source)) _ w1 w' planned h1 in
      let (footprint, w3, q3, h3) =
        run-ok (lift (candidate_footprint p.xdr candidates)) _ w2 w' planned h2 in
      let (probed_at, w4, q4, h4) = run-ok (now p) _ w3 w' planned h3 in
      let (simulation, w5, q5, h5) = run-ok (p.rpc.simulate_restore _) _ w4 w' planned h4 in
      let (archived, w6, q6, h6) =
        run-ok (lift (select_archived p candidates simulation)) _ w5 w' planned h5 in
      let (built_at, w7, q7, h7) = run-ok (now p) _ w6 w' planned h6 in
      let (unsigned, w8, q8, h8) = run-ok (lift (p.xdr.encode_unsigned _)) _ w7 w' planned h7 in
      IsPlanned-end candidates archived planned current probed_at built_at seq footprint simulation
        unsigned w w1 w2 w3 w4 w5 w6 w7 w8 w' q1 q2 q3 q4 q5 q6 q7 q8 h8
