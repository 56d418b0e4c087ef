-- ===== src/Prelude/Outcomes.antt =====
-- Rust's `Result`, with the `?` operator as the bind of a `do` block.
use mathlib.Core.Path.{◌≡◌, refl}
use mathlib.Core.Option.{Option, none, some}

pub data Result {ℓ} (E A : Type ℓ) : Type ℓ where
  err : (failure : E) → Result E A
  ok : (value : A) → Result E A

infixl 5 ◌>>=◌ ◌>>◌
abbrev pub ◌>>=◌ {ℓ} : {E A B : Type ℓ} → Result E A → (A → Result E B) → Result E B
◌>>=◌ (err failure) next = err failure
◌>>=◌ (ok value) next = next value

abbrev pub ◌>>◌ {ℓ} : {E A B : Type ℓ} → Result E A → Result E B → Result E B
first >> second = first >>= λ value. second

-- A success.
abbrev pub IsOk {ℓ} : {E A : Type ℓ} → Result E A → Type ℓ
IsOk {A} r = (value : A) × (r ≡ ok value)

-- `Option::ok_or`.
abbrev pub ok_or {ℓ} : {E A : Type ℓ} → Option A → E → Result E A
ok_or none failure = err failure
ok_or (some value) failure = ok value

-- `Result::map_err`.
abbrev pub map_err {ℓ} : {E F A : Type ℓ} → (E → F) → Result E A → Result F A
map_err f (err failure) = err (f failure)
map_err f (ok value) = ok value

module _ {ℓ} {E A B : Type ℓ} where
  -- Where `first?` was followed by a success, `first` was one.
  pub bind-ok :
      (first : Result E A) (next : A → Result E B) {b : B}
      → (first >>= next) ≡ ok b
      → (value : A) × (first ≡ ok value) × (next value ≡ ok b)
  bind-ok (ok value) next done = (value, refl, done)
  bind-ok (err failure) next done = cc
