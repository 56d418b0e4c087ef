-- ===== src/Restore/Planner/Selected.antt =====
-- What `filter(…contains…)` of crates/soroban-restore-planner/src/planner.rs selects, and what
-- `collect` of crates/soroban-restore-planner/src/plan.rs gathers.
use soroban_storage_the_on_c.Prelude.{
  ◌≡◌, inl, inr, refl, sym, true, List, [], ◌∷◌, String, str_eq, eq_iff, any, keep_if, Elem, head,
  tail, All2, Bool-cases, ok, bind-ok,
}
use soroban_storage_the_on_c.Restore.Plan.{Candidate, Xdr, decode_keys, encode_keys}
use soroban_storage_the_on_c.Restore.Planner.{holds}

-- Of the candidates, in their order, exactly those whose keys are among `keys`.
pub data Selected (keys : List String) : List Candidate → List Candidate → Type 0 where
  done : Selected keys [] []
  kept :
      {c : Candidate} {cs ds : List Candidate}
      → Elem c.key_xdr keys
      → Selected keys cs ds
      → Selected keys (c ∷ cs) (c ∷ ds)
  left_out :
      {c : Candidate} {cs ds : List Candidate}
      → ¬ Elem c.key_xdr keys
      → Selected keys cs ds
      → Selected keys (c ∷ cs) ds

any-Elem : (x : String) (keys : List String) → any (str_eq x) keys ≡ true → Elem x keys
any-Elem x [] found = absurd (cc)
any-Elem x (k ∷ keys) found = elim (Bool-cases (str_eq x k)) [
  | inl same ↦ let q : x ≡ k = (eq_iff x k).0 same in rw q head
  | inr other ↦ tail (any-Elem x keys (rw other at found))
]

Elem-any : (x : String) (keys : List String) → Elem x keys → any (str_eq x) keys ≡ true
Elem-any x [] e = elim e [ ]
Elem-any x (_ ∷ keys) head = let same : str_eq x x ≡ true = (eq_iff x x).1 refl in rw same refl
Elem-any x (k ∷ keys) (tail e) = elim (Bool-cases (str_eq x k)) [
  | inl same ↦ rw same refl
  | inr other ↦ rw other (Elem-any x keys e)
]

pub keep_if-Selected :
    (keys : List String) (cs : List Candidate) → Selected keys cs (keep_if (holds keys) cs)
keep_if-Selected keys [] = done
keep_if-Selected keys (c ∷ cs) = elim (Bool-cases (holds keys c)) [
  | inl found ↦ rw found (kept (any-Elem c.key_xdr keys found) (keep_if-Selected keys cs))
  | inr missing ↦
      rw missing (left_out (λ e. cc (Elem-any c.key_xdr keys e)) (keep_if-Selected keys cs))
]

module _ {Key : Type 0} (xdr : Xdr Key) where
  pub decode_keys-All2 :
      (cs : List Candidate) (keys : List Key)
      → decode_keys xdr cs ≡ ok keys
      → All2 (λ (c : Candidate) (k : Key). xdr.decode_ledger_key c.key_xdr ≡ ok k) cs keys
  unfolding decode_keys
  decode_keys-All2 [] [] q = tt
  decode_keys-All2 [] (k ∷ keys) q = absurd (cc)
  decode_keys-All2 (c ∷ cs) keys q =
      let (k, here, q1) = bind-ok (xdr.decode_ledger_key c.key_xdr) _ q in
      let (ks, there, q2) = bind-ok (decode_keys xdr cs) _ q1 in
      let same : ◌≡◌ {A = List Key} (k ∷ ks) keys = cc in
      rw (sym same) (here, decode_keys-All2 cs ks there)

  pub encode_keys-All2 :
      (keys : List Key) (texts : List String)
      → encode_keys xdr keys ≡ ok texts
      → All2 (λ (k : Key) (text : String). xdr.encode_ledger_key k ≡ ok text) keys texts
  unfolding encode_keys
  encode_keys-All2 [] [] q = tt
  encode_keys-All2 [] (t ∷ texts) q = absurd (cc)
  encode_keys-All2 (k ∷ keys) texts q =
      let (t, here, q1) = bind-ok (xdr.encode_ledger_key k) _ q in
      let (ts, there, q2) = bind-ok (encode_keys xdr keys) _ q1 in
      let same : ◌≡◌ {A = List String} (t ∷ ts) texts = cc in
      rw (sym same) (here, encode_keys-All2 keys ts there)
