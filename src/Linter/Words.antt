-- ===== src/Linter/Words.antt =====
-- crates/soroban-storage-lints/src/rules.rs: the naming heuristics on type names.
pub mod Pieces
pub mod Camel
use soroban_storage_the_on_c.Prelude.{
  ℕ, Bool, true, false, not, ◌&&◌, ◌||◌, Option, none, some, List, [], ◌∷◌, ◌++◌, String, map, any,
  is_empty, if◌then◌else◌, ◌==◌, codes,
}

-- What the standard library says of characters, by their numbers, and the lower case of a text.
pub record Unicode : Type 0 where
  pub is_alphanumeric : ℕ → Bool
  pub is_uppercase : ℕ → Bool
  pub is_lowercase : ℕ → Bool
  pub is_numeric : ℕ → Bool
  pub is_whitespace : ℕ → Bool
  pub to_lowercase : List ℕ → List ℕ

abbrev pub Text : Type 0
Text = List ℕ

abbrev pub text_eq : Text → Text → Bool
text_eq [] [] = true
text_eq (c ∷ s) (d ∷ t) = c == d && text_eq s t
text_eq _ _ = false

abbrev pub critical_hints : List String
critical_hints =
    "balance" ∷ "amount" ∷ "fund" ∷ "collateral" ∷ "position" ∷ "ledger" ∷ "escrow" ∷ "vault"
    ∷ "reserve" ∷ "deposit" ∷ "allowance" ∷ "debt" ∷ "credit" ∷ "asset" ∷ "token" ∷ "share"
    ∷ "reward" ∷ "claim" ∷ []

-- The names that `type_looks_collection` matches.
abbrev pub collections : List String
collections = "vec" ∷ "map" ∷ "string" ∷ "bytes" ∷ "set" ∷ "array" ∷ []

-- `current.chars().last().unwrap_or_default()`
abbrev pub last_or_nul : Text → ℕ
last_or_nul [] = 0
last_or_nul (c ∷ []) = c
last_or_nul (c ∷ d ∷ s) = last_or_nul (d ∷ s)

-- `words` and `current`.
abbrev pub Split : Type 0
Split = List Text × Text

module _ (u : Unicode) where
  -- Whether a word ends before an alphanumeric character.
  abbrev pub cuts : Text → ℕ → Bool
  cuts current ch =
      not (is_empty current)
      && (u.is_uppercase ch || u.is_numeric ch)
      && (u.is_lowercase (last_or_nul current) || u.is_numeric (last_or_nul current))

  -- The body of the loop over the characters.
  unfoldable pub split_step : Split → ℕ → Split
  split_step (words, current) ch =
      if u.is_alphanumeric ch
      then (if cuts current ch
          then (words ++ current ∷ [], ch ∷ [])
          else (words, current ++ ch ∷ []))
      else if not (is_empty current)
      then (words ++ current ∷ [], [])
      else (words, current)

  unfoldable pub split_loop : Split → Text → Split
  unfolding split_step
  split_loop s [] = s
  split_loop s (ch ∷ rest) = split_loop (split_step s ch) rest

  -- The last word.
  abbrev pub split_end : Split → List Text
  split_end (words, current) = if not (is_empty current) then words ++ current ∷ [] else words

  unfoldable pub split_words : Text → List Text
  unfolding split_loop
  split_words s = map u.to_lowercase (split_end (split_loop ([], []) s))

  abbrev pub matches_word : List String → Text → Bool
  matches_word hints w = any (λ hint. text_eq (codes hint) w) hints

  unfoldable pub type_looks_critical : String → Bool
  unfolding split_words
  type_looks_critical type_str = any (matches_word critical_hints) (split_words (codes type_str))

  unfoldable pub type_looks_collection : String → Bool
  unfolding split_words
  type_looks_collection type_str = any (matches_word collections) (split_words (codes type_str))
