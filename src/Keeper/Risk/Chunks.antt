-- ===== src/Keeper/Risk/Chunks.antt =====
-- The batches of crates/soroban-rent-keeper/src/risk.rs as a plain recursion, and what it yields.
use mathlib.Core.List.{append_assoc, append-nil, flatten}
use mathlib.Core.Path.{subst}
use soroban_storage_the_on_c.Prelude.{
  ℕ, ◌+◌, ◌≤◌, ◌<◌, min, ◌≡◌, ◌≢◌, ◌⊎◌, inl, inr, refl, sym, ap, ◌∙◌, Bool, true, false, not, ◌&&◌,
  List, [], ◌∷◌, ◌++◌, ltb, is_empty, length, All, saturating_add, u32_max, if◌then◌else◌, arith,
  Bool-cases,
}
use soroban_storage_the_on_c.Keeper.Risk.{BatchEntry, Planning, flush, push, plan_loop, finish}

-- The batches of `current` and the entries that follow, the first batch first.
pub chunks : ℕ → List BatchEntry → ℕ → List BatchEntry → List (List BatchEntry)
chunks most current bytes [] = if not (is_empty current) then current ∷ [] else []
chunks most current bytes (e ∷ es) =
    let next = chunks most (e ∷ []) (saturating_add 0 e.size_bytes) es in
    let same = chunks most (current ++ e ∷ []) (saturating_add bytes e.size_bytes) es in
    if not (is_empty current) && ltb most (saturating_add bytes e.size_bytes)
    then current ∷ next
    else same

pub plan_loop-eq-chunks :
    (most : ℕ) (p : Planning) (es : List BatchEntry)
    → finish (plan_loop most p es) ≡ p.batches ++ chunks most p.current p.current_bytes es
unfolding plan_loop chunks
plan_loop-eq-chunks most p [] = elim (Bool-cases (not (is_empty p.current))) [
  | inl some_left ↦ rw some_left
  | inr none_left ↦ rw none_left (sym (append-nil p.batches))
]
plan_loop-eq-chunks most p (e ∷ es) = plan_loop-eq-chunks most (push (flush most p e) e) es ∙ step
  where
    step :
        (push (flush most p e) e).batches
          ++ chunks most
              (push (flush most p e) e).current
              (push (flush most p e) e).current_bytes
              es
        ≡ p.batches ++ chunks most p.current p.current_bytes (e ∷ es)
    step =
        elim (Bool-cases
          (not (is_empty p.current) && ltb most (saturating_add p.current_bytes e.size_bytes))) [
            | inl full ↦ rw full (append_assoc p.batches (p.current ∷ []) _)
            | inr fits ↦ rw fits
          ]

abbrev pub total : List BatchEntry → ℕ
total [] = 0
total (e ∷ es) = e.size_bytes + total es

total-append : (xs ys : List BatchEntry) → total (xs ++ ys) ≡ total xs + total ys
total-append [] ys = omega arith
total-append (x ∷ xs) ys = omega (arith, total-append xs ys)

pub flatten-chunks :
    (most bytes : ℕ) (current es : List BatchEntry)
    → flatten (chunks most current bytes es) ≡ current ++ es
unfolding chunks flatten
flatten-chunks most bytes [] [] = refl
flatten-chunks most bytes (x ∷ xs) [] = refl
flatten-chunks most bytes current (e ∷ es) =
    elim (Bool-cases (not (is_empty current) && ltb most (saturating_add bytes e.size_bytes))) [
      | inl full ↦
          rw full (
            ap (λ l. current ++ l)
              (flatten-chunks most (saturating_add 0 e.size_bytes) (e ∷ []) es))
      | inr fits ↦ rw fits (
          flatten-chunks most (saturating_add bytes e.size_bytes) (current ++ e ∷ []) es
          ∙ append_assoc current (e ∷ []) es)
    ]

-- A batch is not empty, and holds one entry or fits under the most.
pub record IsBatch (most : ℕ) (batch : List BatchEntry) : Type 0 where
  pub some_entry : batch ≢ []
  pub fits : (length batch ≡ 1) ⊎ (total batch ≤ most)

-- The batch being filled: empty, or a batch; and the size counted for it, which saturates.
pub record IsFilling (most : ℕ) (current : List BatchEntry) (bytes : ℕ) : Type 0 where
  pub counted : bytes ≡ min (total current) u32_max
  pub batch : (current ≡ []) ⊎ IsBatch most current

singleton-IsFilling :
    (most : ℕ) (e : BatchEntry) → IsFilling most (e ∷ []) (saturating_add 0 e.size_bytes)
singleton-IsFilling most e = record {
  counted = omega arith;
  batch = inr (record { some_entry = λ q. cc; fits = inl refl });
}

append-ne-nil : (xs : List BatchEntry) (e : BatchEntry) → xs ++ e ∷ [] ≢ []
append-ne-nil [] e q = cc
append-ne-nil (x ∷ xs) e q = cc

push-IsFilling :
    (most bytes : ℕ) (current : List BatchEntry) (e : BatchEntry)
    → most < u32_max
    → IsFilling most current bytes
    → (not (is_empty current) && ltb most (saturating_add bytes e.size_bytes)) ≡ false
    → IsFilling most (current ++ e ∷ []) (saturating_add bytes e.size_bytes)
push-IsFilling most bytes [] e small f h = record {
  counted = omega (arith, f.counted);
  batch = inr (record { some_entry = append-ne-nil [] e; fits = inl refl });
}
push-IsFilling most bytes (x ∷ xs) e small f h = record {
  counted = omega (arith, f.counted, total-append (x ∷ xs) (e ∷ []));
  batch = inr (record {
    some_entry = append-ne-nil (x ∷ xs) e;
    fits = inr (ground (arith, f.counted, total-append (x ∷ xs) (e ∷ [])));
  });
}

full-IsBatch :
    (most bytes : ℕ) (current : List BatchEntry) (b : Bool)
    → IsFilling most current bytes
    → (not (is_empty current) && b) ≡ true
    → IsBatch most current
full-IsBatch most bytes [] b f h = cc
full-IsBatch most bytes (x ∷ xs) b f h = elim f.batch [
  | inl empty ↦ absurd (cc)
  | inr batch ↦ batch
]

pub chunks-IsBatch :
    (most bytes : ℕ) (current es : List BatchEntry)
    → most < u32_max
    → IsFilling most current bytes
    → All (IsBatch most) (chunks most current bytes es)
unfolding chunks
chunks-IsBatch most bytes [] [] small f = tt
chunks-IsBatch most bytes (x ∷ xs) [] small f = (full-IsBatch most bytes (x ∷ xs) true f refl, tt)
chunks-IsBatch most bytes current (e ∷ es) small f =
    elim (Bool-cases (not (is_empty current) && ltb most (saturating_add bytes e.size_bytes))) [
      | inl full ↦ rw full (
        full-IsBatch most bytes current _ f full,
        chunks-IsBatch most (saturating_add 0 e.size_bytes) (e ∷ []) es small
            (singleton-IsFilling most e),
      )
      | inr fits ↦ rw fits (
          chunks-IsBatch most (saturating_add bytes e.size_bytes) (current ++ e ∷ []) es small
            (push-IsFilling most bytes current e small f fits))
    ]

-- Each batch is followed by none, or by one whose first entry would not have fitted.
abbrev pub IsGreedy : ℕ → List (List BatchEntry) → Type 0
IsGreedy most [] = Unit
IsGreedy most (b ∷ []) = Unit
IsGreedy most (b ∷ [] ∷ rest) = ⊥
IsGreedy most (b ∷ (e ∷ c) ∷ rest) =
    (most < total b + e.size_bytes) × IsGreedy most ((e ∷ c) ∷ rest)

-- The first batch begins with the first entry.
first_entry :
    (most bytes : ℕ) (x : BatchEntry) (xs es : List BatchEntry)
    → (ys : List BatchEntry) × (rest : List (List BatchEntry)) × (chunks most (x ∷ xs) bytes es
        ≡ (x ∷ ys) ∷ rest)
unfolding chunks
first_entry most bytes x xs [] = (xs, [], refl)
first_entry most bytes x xs (e ∷ es) =
    elim (Bool-cases (ltb most (saturating_add bytes e.size_bytes))) [
      | inl full ↦ (xs, chunks most (e ∷ []) (saturating_add 0 e.size_bytes) es, rw full)
      | inr fits ↦
          let (ys, rest, q) =
            first_entry most (saturating_add bytes e.size_bytes) x (xs ++ e ∷ []) es in
          (ys, rest, rw fits q)
    ]

IsGreedy-cons :
    (most : ℕ) (b : List BatchEntry) (e : BatchEntry) (next : List (List BatchEntry))
    → most < total b + e.size_bytes
    → (ys : List BatchEntry) (rest : List (List BatchEntry)) → next ≡ (e ∷ ys) ∷ rest
    → IsGreedy most next
    → IsGreedy most (b ∷ next)
IsGreedy-cons most b e next over ys rest q g =
    subst (λ l. IsGreedy most (b ∷ l)) (sym q) (over, subst (IsGreedy most) q g)

over_cap :
    (most bytes : ℕ) (current : List BatchEntry) (e : BatchEntry)
    → bytes ≡ min (total current) u32_max
    → (not (is_empty current) && ltb most (saturating_add bytes e.size_bytes)) ≡ true
    → most < total current + e.size_bytes
over_cap most bytes [] e c h = absurd (cc)
over_cap most bytes (x ∷ xs) e c h = ground arith

counted_push :
    (bytes : ℕ) (current : List BatchEntry) (e : BatchEntry)
    → bytes ≡ min (total current) u32_max
    → saturating_add bytes e.size_bytes ≡ min (total (current ++ e ∷ [])) u32_max
counted_push bytes current e c = omega (arith, total-append current (e ∷ []))

pub chunks-IsGreedy :
    (most bytes : ℕ) (current es : List BatchEntry)
    → bytes ≡ min (total current) u32_max
    → IsGreedy most (chunks most current bytes es)
unfolding chunks
chunks-IsGreedy most bytes [] [] c = tt
chunks-IsGreedy most bytes (x ∷ xs) [] c = tt
chunks-IsGreedy most bytes current (e ∷ es) c =
    let one = saturating_add 0 e.size_bytes in
    let more = saturating_add bytes e.size_bytes in
    elim (Bool-cases (not (is_empty current) && ltb most more)) [
      | inl full ↦
          let (ys, rest, q) = first_entry most one e [] es in
          rw full (
            IsGreedy-cons most current e (chunks most (e ∷ []) one es)
              (over_cap most bytes current e c full) ys rest q
              (chunks-IsGreedy most (saturating_add 0 e.size_bytes) (e ∷ []) es (omega arith)))
      | inr fits ↦ rw fits (
          chunks-IsGreedy most (saturating_add bytes e.size_bytes) (current ++ e ∷ []) es
            (counted_push bytes current e c))
    ]
