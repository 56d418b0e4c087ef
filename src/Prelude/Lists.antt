-- ===== src/Prelude/Lists.antt =====
-- Lists measured by native numbers, and predicates on all their elements.
use Prim.Native.Nat.{ℕ, zero, suc, ◌+◌}
use mathlib.Core.Path.{◌≡◌, refl, ap}
use mathlib.Core.Bool.{Bool, true, false, ◌||◌}
use mathlib.Core.List.{List, [], ◌∷◌, ◌++◌, map}
use mathlib.Core.Option.{Option, none, some}
use native.Mathlib.Omega.{arith}
use soroban_storage_the_on_c.Prelude.Tests.{if◌then◌else◌}

module _ {ℓ} {A : Type ℓ} where
  abbrev pub length : List A → ℕ
  length [] = 0
  length (x ∷ xs) = suc (length xs)

  abbrev pub get_elem? : List A → ℕ → Option A
  get_elem? [] i = none
  get_elem? (x ∷ xs) zero = some x
  get_elem? (x ∷ xs) (suc i) = get_elem? xs i

  abbrev pub is_empty : List A → Bool
  is_empty [] = true
  is_empty (x ∷ xs) = false

  -- Rust's `iter().any(p)`.
  abbrev pub any : (A → Bool) → List A → Bool
  any p [] = false
  any p (x ∷ xs) = p x || any p xs

  -- Rust's `iter().find(p)`.
  abbrev pub find : (A → Bool) → List A → Option A
  find p [] = none
  find p (x ∷ xs) = if p x then some x else find p xs

  -- Rust's `iter().filter(p)`.
  abbrev pub keep_if : (A → Bool) → List A → List A
  keep_if p [] = []
  keep_if p (x ∷ xs) = if p x then x ∷ keep_if p xs else keep_if p xs

  abbrev pub All {κ} : (A → Type κ) → List A → Type κ
  All P [] = Unit
  All P (x ∷ xs) = P x × All P xs

  -- The lists are as long as each other, and related place by place.
  abbrev pub All2 {κ} : {B : Type κ} → (A → B → Type 0) → List A → List B → Type 0
  All2 R [] [] = Unit
  All2 R (x ∷ xs) (y ∷ ys) = R x y × All2 R xs ys
  All2 R _ _ = ⊥

  -- Rust's `last()` of a slice.
  abbrev pub last : List A → Option A
  last [] = none
  last (x ∷ []) = some x
  last (x ∷ y ∷ xs) = last (y ∷ xs)

  -- Rust's `iter().take(n)` and `iter().skip(n)`.
  abbrev pub take : ℕ → List A → List A
  take zero xs = []
  take (suc n) [] = []
  take (suc n) (x ∷ xs) = x ∷ take n xs

  abbrev pub drop : ℕ → List A → List A
  drop zero xs = xs
  drop (suc n) [] = []
  drop (suc n) (x ∷ xs) = drop n xs

  -- `x` is an element of a list, and where.
  pub data Elem (x : A) : List A → Type ℓ where
    head : {xs : List A} → Elem x (x ∷ xs)
    tail : {y : A} {xs : List A} → Elem x xs → Elem x (y ∷ xs)

  pub Elem-append_left : {x : A} (xs ys : List A) → Elem x xs → Elem x (xs ++ ys)
  Elem-append_left [] ys e = elim e [ ]
  Elem-append_left (x ∷ xs) ys head = head
  Elem-append_left (x ∷ xs) ys (tail e) = tail (Elem-append_left xs ys e)

  pub Elem-append_right : {x : A} (xs ys : List A) → Elem x ys → Elem x (xs ++ ys)
  Elem-append_right [] ys e = e
  Elem-append_right (x ∷ xs) ys e = tail (Elem-append_right xs ys e)

  pub length-append : (xs ys : List A) → length (xs ++ ys) ≡ length xs + length ys
  length-append [] ys = omega arith
  length-append (x ∷ xs) ys = omega (arith, length-append xs ys)

module _ {ℓ κ} {A : Type ℓ} (P : A → Type κ) where
  pub All-of : ((x : A) → P x) → (xs : List A) → All P xs
  All-of each [] = tt
  All-of each (x ∷ xs) = (each x, All-of each xs)

  pub All-Elem : {x : A} (xs : List A) → All P xs → Elem x xs → P x
  All-Elem [] h e = elim e [ ]
  All-Elem (x ∷ xs) h head = h.0
  All-Elem (y ∷ xs) h (tail e) = All-Elem xs h.1 e

  pub All-append : (xs ys : List A) → All P xs → All P ys → All P (xs ++ ys)
  All-append [] ys h k = k
  All-append (x ∷ xs) ys h k = (h.0, All-append xs ys h.1 k)

module _ {ℓ κ} {A : Type ℓ} {B : Type κ} where
  pub length-map : (f : A → B) (xs : List A) → length (map f xs) ≡ length xs
  length-map f [] = refl
  length-map f (x ∷ xs) = ap suc (length-map f xs)

  pub Elem-map : (f : A → B) {x : A} (xs : List A) → Elem x xs → Elem (f x) (map f xs)
  Elem-map f [] e = elim e [ ]
  Elem-map f (x ∷ xs) head = head
  Elem-map f (y ∷ xs) (tail e) = tail (Elem-map f xs e)
