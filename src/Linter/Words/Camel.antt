-- ===== src/Linter/Words/Camel.antt =====
-- The names that `split_words` of crates/soroban-storage-lints/src/rules.rs is made for.
use mathlib.Core.List.{append_assoc, append-nil, flatten}
use soroban_storage_the_on_c.Prelude.{
  ℕ, ◌≡◌, ◌∙◌, refl, sym, ap, true, false, List, [], ◌∷◌, ◌++◌, map, All,
}
use soroban_storage_the_on_c.Linter.Words.{Unicode, Text, last_or_nul, split_words}
use soroban_storage_the_on_c.Linter.Words.Pieces.{pieces, split_loop-pieces}

module _ (u : Unicode) where
  -- A letter that neither begins a word nor ends it.
  pub record IsSmall (c : ℕ) : Type 0 where
    pub alphanumeric : u.is_alphanumeric c ≡ true
    pub not_uppercase : u.is_uppercase c ≡ false
    pub not_numeric : u.is_numeric c ≡ false
    pub lowercase : u.is_lowercase c ≡ true

  -- A capital with small letters behind it, one at least.
  pub data IsCamel : Text → Type 0 where
    camel :
        (c d : ℕ) (s : Text)
        → u.is_alphanumeric c ≡ true
        → u.is_uppercase c ≡ true
        → IsSmall d
        → All IsSmall s
        → IsCamel (c ∷ d ∷ s)

  -- Small letters belong to the word that has begun.
  pieces-small :
      (c : ℕ) (t s rest : Text)
      → All IsSmall s
      → pieces u (c ∷ t) (s ++ rest) ≡ pieces u (c ∷ (t ++ s)) rest
  pieces-small c t [] rest smalls = ap (λ r. pieces u (c ∷ r) rest) (sym (append-nil t))
  pieces-small c t (d ∷ s) rest (small, smalls) =
      rw (small.alphanumeric, small.not_uppercase, small.not_numeric)
        (pieces-small c (t ++ d ∷ []) s rest smalls
          ∙ ap (λ r. pieces u (c ∷ r) rest) (append_assoc t (d ∷ []) s))

  last-small :
      (c d : ℕ) (s : Text) → All IsSmall (d ∷ s) → u.is_lowercase (last_or_nul (c ∷ d ∷ s)) ≡ true
  last-small c d [] (small, smalls) = small.lowercase
  last-small c d (d' ∷ s) (small, smalls) = last-small d d' s smalls

  pieces-camel :
      (c : ℕ) (t : Text) (ws : List Text)
      → u.is_lowercase (last_or_nul (c ∷ t)) ≡ true
      → All IsCamel ws
      → pieces u (c ∷ t) (flatten ws) ≡ (c ∷ t) ∷ ws
  unfolding flatten
  pieces-camel c t [] ended camels = refl
  pieces-camel c t (w ∷ ws) ended (camel c' d s alphanumeric uppercase small smalls, camels) =
      rw (alphanumeric, uppercase, ended)
        (ap (λ r. (c ∷ t) ∷ r)
          (pieces-small c' [] (d ∷ s) (flatten ws) (small, smalls)
            ∙ pieces-camel c' (d ∷ s) ws (last-small c' d s (small, smalls)) camels))

  pieces-eq : (ws : List Text) → All IsCamel ws → pieces u [] (flatten ws) ≡ ws
  unfolding flatten
  pieces-eq [] camels = refl
  pieces-eq (w ∷ ws) (camel c' d s alphanumeric uppercase small smalls, camels) = rw alphanumeric (
      pieces-small c' [] (d ∷ s) (flatten ws) (small, smalls)
      ∙ pieces-camel c' (d ∷ s) ws (last-small c' d s (small, smalls)) camels)

  -- A name put together from words that each begin with a capital and go on in small letters
  -- splits into these words again, in lower case.
  pub split_words-flatten :
      (ws : List Text) → All IsCamel ws → split_words u (flatten ws) ≡ map u.to_lowercase ws
  unfolding split_words
  split_words-flatten ws camels =
      ap (map u.to_lowercase) (split_loop-pieces u [] [] (flatten ws) ∙ pieces-eq ws camels)
