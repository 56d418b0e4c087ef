-- ===== src/Keeper/Client/Fetched.antt =====
-- What `fetch_entries` of crates/soroban-rent-keeper/src/stellar.rs makes of a response.
use soroban_storage_the_on_c.Prelude.{
  ℕ, ◌≡◌, ◌≢◌, refl, ap, inl, inr, true, Option, none, some, List, [], ◌∷◌, ◌++◌, String, str_eq,
  eq_iff, if◌then◌else◌, Bool-cases, map, All, ok, IsOk,
}
use soroban_storage_the_on_c.Keeper.Rpc.{WatchKey, EntrySnapshot}
use soroban_storage_the_on_c.Keeper.Client.{
  EntryResult, Client, label_of, snapshot, add_snapshot, snapshots_of,
}

-- The entries of a response that have a TTL, with it.
abbrev pub tracked_from : EntryResult → Option ℕ → List (String × ℕ) → List (String × ℕ)
tracked_from result none rest = rest
tracked_from result (some live_until) rest = (result.key, live_until) ∷ rest

abbrev pub tracked : List EntryResult → List (String × ℕ)
tracked [] = []
tracked (result ∷ results) = tracked_from result result.live_until (tracked results)

abbrev pub track_of : EntrySnapshot → String × ℕ
track_of s = (s.key_xdr, s.live_until_ledger)

-- The label of the last of the keys with that text, and another one if none has it.
pub data IsLastLabel (text otherwise : String) (keys : List WatchKey) (label : String)
    : Type 0 where
  watched :
      (before after : List WatchKey) (k : WatchKey)
      → keys ≡ before ++ k ∷ after
      → k.key_xdr ≡ text
      → All (λ (j : WatchKey). j.key_xdr ≢ text) after
      → label ≡ k.label
      → IsLastLabel text otherwise keys label
  unwatched :
      All (λ (j : WatchKey). j.key_xdr ≢ text) keys
      → label ≡ otherwise
      → IsLastLabel text otherwise keys label

-- One more key in front, which is the last one with the text if no other has it.
label-cons :
    (text found label : String) (k : WatchKey) (keys : List WatchKey)
    → IsLastLabel text (if str_eq k.key_xdr text then k.label else found) keys label
    → IsLastLabel text found (k ∷ keys) label
label-cons text found label k keys (watched before after j split same others q) =
    watched (k ∷ before) after j (ap (λ ks. k ∷ ks) split) same others q
label-cons text found label k keys (unwatched others q) =
    elim (Bool-cases (str_eq k.key_xdr text)) [
      | inl same ↦ watched [] keys k refl ((eq_iff k.key_xdr text).0 same) others (rw same at q)
      | inr other ↦
          let apart : k.key_xdr ≢ text = λ equal.
            let same : str_eq k.key_xdr text ≡ true = (eq_iff k.key_xdr text).1 equal in cc in
          unwatched (apart, others) (rw other at q)
    ]

label_of-IsLastLabel :
    (text found : String) (keys : List WatchKey)
    → IsLastLabel text found keys (label_of text found keys)
label_of-IsLastLabel text found [] = unwatched tt refl
label_of-IsLastLabel text found (k ∷ keys) =
    label-cons text found _ k keys
      (label_of-IsLastLabel text (if str_eq k.key_xdr text then k.label else found) keys)

-- Labelled as the last watched key of its text, and as "entry" if there is none.
abbrev pub IsLabelled : List WatchKey → EntrySnapshot → Type 0
IsLabelled keys s = IsLastLabel s.key_xdr "entry" keys s.label

module _ {W LedgerKey Entry Signature : Type 0} (c : Client W LedgerKey Entry Signature)
    (source_account : List ℕ) (network_passphrase : String) (keys : List WatchKey) where
  -- The snapshots of a response.
  abbrev pub IsFetched : List EntryResult → Type 0
  IsFetched results =
      (snaps : List EntrySnapshot) × (snapshots_of c source_account network_passphrase keys results
        ≡ ok snaps)
      × (map track_of snaps ≡ tracked results)
      × All (IsLabelled keys) snaps

  add_snapshot-IsFetched :
      (result : EntryResult) (results : List EntryResult) (live_until : Option ℕ)
      → IsOk (c.decode_entry result.xdr)
      → IsFetched results
      → (snaps : List EntrySnapshot) × (add_snapshot c source_account network_passphrase keys result
            live_until
            (snapshots_of c source_account network_passphrase keys results)
          ≡ ok snaps)
        × (map track_of snaps ≡ tracked_from result live_until (tracked results))
        × All (IsLabelled keys) snaps
  add_snapshot-IsFetched result results none decodes snapshots = snapshots
  add_snapshot-IsFetched result results (some live_until) (entry, q) (snaps, q', tracks, labelled) =
      (
        snapshot c source_account network_passphrase keys result live_until entry ∷ snaps,
        rw (q, q') refl,
        ap (λ ts. (result.key, live_until) ∷ ts) tracks,
        (label_of-IsLastLabel result.key "entry" keys, labelled),
      )

  -- Where the entries of a response decode, its snapshots are those of the entries with a TTL, in
  -- their order, with their keys and TTLs unchanged; the others are passed over. A snapshot is
  -- labelled as the last watched key of its text, and as "entry" if there is none.
  pub snapshots_of-IsFetched :
      (results : List EntryResult)
      → All (λ (r : EntryResult). IsOk (c.decode_entry r.xdr)) results
      → IsFetched results
  unfolding snapshots_of
  snapshots_of-IsFetched [] decodes = ([], refl, refl, tt)
  snapshots_of-IsFetched (result ∷ results) (here, decodes) =
      add_snapshot-IsFetched result results result.live_until here
        (snapshots_of-IsFetched results decodes)
