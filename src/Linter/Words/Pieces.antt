-- ===== src/Linter/Words/Pieces.antt =====
-- `split_words` of crates/soroban-storage-lints/src/rules.rs loses no letter and makes no empty
-- word.
use mathlib.Core.List.{append_assoc, append-nil, flatten}
use soroban_storage_the_on_c.Prelude.{
  ℕ, ◌≡◌, ◌∙◌, refl, sym, ap, true, false, not, List, [], ◌∷◌, ◌++◌, map, is_empty, keep_if, All,
  Bool-cases, inl, inr, if◌then◌else◌,
}
use soroban_storage_the_on_c.Linter.Words.{
  Unicode, Text, cuts, split_step, split_loop, split_end, split_words,
}

abbrev pub IsWord : Text → Type 0
IsWord w = is_empty w ≡ false

nil_of_empty : (t : Text) → is_empty t ≡ true → t ≡ []
nil_of_empty [] q = refl
nil_of_empty (c ∷ t) q = cc

module _ (u : Unicode) where
  -- The words to come, from the characters since the last end of a word.
  abbrev pub pieces : Text → Text → List Text
  pieces current [] = if not (is_empty current) then current ∷ [] else []
  pieces current (ch ∷ s) =
      if u.is_alphanumeric ch
      then (if cuts u current ch
          then current ∷ pieces (ch ∷ []) s
          else pieces (current ++ ch ∷ []) s)
      else if not (is_empty current)
      then current ∷ pieces [] s
      else pieces current s

  pub split_loop-pieces :
      (ws : List Text) (current s : Text)
      → split_end u (split_loop u (ws, current) s) ≡ ws ++ pieces current s
  unfolding split_loop
  split_loop-pieces ws current [] = elim (Bool-cases (is_empty current)) [
    | inl q ↦ rw q (sym (append-nil ws))
    | inr q ↦ rw q refl
  ]
  split_loop-pieces ws current (ch ∷ s) = elim (Bool-cases (u.is_alphanumeric ch)) [
    | inl q ↦ elim (Bool-cases (cuts u current ch)) [
      | inl q' ↦
          let step : split_step u (ws, current) ch ≡ (ws ++ current ∷ [], ch ∷ []) =
            rw (split_step, q, q') refl in
          ap (λ st. split_end u (split_loop u st s)) step
          ∙ rw (q, q')
              (split_loop-pieces (ws ++ current ∷ []) (ch ∷ []) s
                ∙ append_assoc ws (current ∷ []) (pieces (ch ∷ []) s))
      | inr q' ↦
          let step : split_step u (ws, current) ch ≡ (ws, current ++ ch ∷ []) =
            rw (split_step, q, q') refl in
          ap (λ st. split_end u (split_loop u st s)) step
          ∙ rw (q, q') (split_loop-pieces ws (current ++ ch ∷ []) s)
    ]
    | inr q ↦ elim (Bool-cases (is_empty current)) [
      | inl q' ↦
          let step : split_step u (ws, current) ch ≡ (ws, current) = rw (split_step, q, q') refl in
          ap (λ st. split_end u (split_loop u st s)) step
          ∙ rw (q, q') (split_loop-pieces ws current s)
      | inr q' ↦
          let step : split_step u (ws, current) ch ≡ (ws ++ current ∷ [], []) =
            rw (split_step, q, q') refl in
          ap (λ st. split_end u (split_loop u st s)) step
          ∙ rw (q, q')
              (split_loop-pieces (ws ++ current ∷ []) [] s
                ∙ append_assoc ws (current ∷ []) (pieces [] s))
    ]
  ]

  flatten-pieces :
      (current s : Text) → flatten (pieces current s) ≡ current ++ keep_if u.is_alphanumeric s
  unfolding flatten
  flatten-pieces current [] = elim (Bool-cases (is_empty current)) [
    | inl q ↦ rw (nil_of_empty current q) refl
    | inr q ↦ rw q refl
  ]
  flatten-pieces current (ch ∷ s) = elim (Bool-cases (u.is_alphanumeric ch)) [
    | inl q ↦ elim (Bool-cases (cuts u current ch)) [
      | inl q' ↦ rw (q, q') (ap (λ r. current ++ r) (flatten-pieces (ch ∷ []) s))
      | inr q' ↦
          rw (q, q')
            (flatten-pieces (current ++ ch ∷ []) s
              ∙ append_assoc current (ch ∷ []) (keep_if u.is_alphanumeric s))
    ]
    | inr q ↦ elim (Bool-cases (is_empty current)) [
      | inl q' ↦ rw (q, q') (flatten-pieces current s)
      | inr q' ↦ rw (q, q') (ap (λ r. current ++ r) (flatten-pieces [] s))
    ]
  ]

  cut_nonempty : (t : Text) (ch : ℕ) → cuts u t ch ≡ true → IsWord t
  cut_nonempty [] ch q = cc
  cut_nonempty (c ∷ t) ch q = refl

  pieces-AllIsWord : (current s : Text) → All IsWord (pieces current s)
  pieces-AllIsWord current [] = elim (Bool-cases (is_empty current)) [
    | inl q ↦ rw q tt
    | inr q ↦ rw q (q, tt)
  ]
  pieces-AllIsWord current (ch ∷ s) = elim (Bool-cases (u.is_alphanumeric ch)) [
    | inl q ↦ elim (Bool-cases (cuts u current ch)) [
      | inl q' ↦ rw (q, q') (cut_nonempty current ch q', pieces-AllIsWord (ch ∷ []) s)
      | inr q' ↦ rw (q, q') (pieces-AllIsWord (current ++ ch ∷ []) s)
    ]
    | inr q ↦ elim (Bool-cases (is_empty current)) [
      | inl q' ↦ rw (q, q') (pieces-AllIsWord current s)
      | inr q' ↦ rw (q, q') (q', pieces-AllIsWord [] s)
    ]
  ]

  -- The words of a name are the lower-cased pieces of it, none of them empty, that are all of its
  -- letters and digits in their order.
  pub split_words-pieces :
      (s : Text)
      → (ps : List Text) × (split_words u s ≡ map u.to_lowercase ps)
        × All IsWord ps
        × (flatten ps ≡ keep_if u.is_alphanumeric s)
  unfolding split_words
  split_words-pieces s = (
    pieces [] s,
    ap (map u.to_lowercase) (split_loop-pieces [] [] s),
    pieces-AllIsWord [] s,
    flatten-pieces [] s,
  )
