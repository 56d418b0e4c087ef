-- ===== src/Keeper/Transient/Context.antt =====
-- What context added to an error does to `is_transient` of
-- crates/soroban-rent-keeper/src/keeper.rs.
use Prim.Native.Char.{code}
use text.Mathlib.TextLemmas.{nil-append, cons-append}
use Prim.Native.String.{◌++◌ as join}
use mathlib.Core.List.{map-append}
use soroban_storage_the_on_c.Prelude.{
  ℕ, ◌≡◌, ◌⊎◌, refl, ap, ◌∙◌, Bool, true, false, ◌&&◌, ◌||◌, List, [], ◌∷◌, ◌++◌, map, String, ◌==◌,
  inl, inr,
}
use soroban_storage_the_on_c.Keeper.Transient.{
  codes, to_ascii_lowercase, begins, contains, needles, any_needle, is_transient,
}

codes-join : (s t : String) → codes (join s t) ≡ codes s ++ codes t
codes-join (String.[]) t = ap codes (nil-append t)
codes-join (String.◌∷◌ c s) t = ap codes (cons-append c s t) ∙ ap (λ r. code c ∷ r) (codes-join s t)

both_true : (a b : Bool) → (a && b) ≡ true → (a ≡ true) × (b ≡ true)
both_true true b h = (refl, h)
both_true false b h = absurd (cc)

and_true : (a b : Bool) → a ≡ true → b ≡ true → (a && b) ≡ true
and_true a b h k = rw (h, k) refl

or_left : (a b : Bool) → a ≡ true → (a || b) ≡ true
or_left a b h = rw h refl

or_right : (a b : Bool) → b ≡ true → (a || b) ≡ true
or_right true b h = refl
or_right false b h = h

either_true : (a b : Bool) → (a || b) ≡ true → (a ≡ true) ⊎ (b ≡ true)
either_true true b h = inl refl
either_true false b h = inr h

begins-append :
    (needle text rest : List ℕ) → begins needle text ≡ true → begins needle (text ++ rest) ≡ true
begins-append [] text rest h = refl
begins-append (n ∷ needle) [] rest h = absurd (cc)
begins-append (n ∷ needle) (c ∷ text) rest h =
    let (same, more) = both_true (n == c) (begins needle text) h in
    and_true (n == c) _ same (begins-append needle text rest more)

begins-contains : (needle text : List ℕ) → begins needle text ≡ true → contains needle text ≡ true
begins-contains needle [] h = h
begins-contains needle (c ∷ text) h = or_left (begins needle (c ∷ text)) _ h

contains-append_left :
    (needle pre text : List ℕ) → contains needle text ≡ true → contains needle (pre ++ text) ≡ true
contains-append_left needle [] text h = h
contains-append_left needle (c ∷ pre) text h =
    or_right (begins needle (c ∷ (pre ++ text))) _ (contains-append_left needle pre text h)

contains-append_right :
    (needle text post : List ℕ)
    → contains needle text ≡ true
    → contains needle (text ++ post) ≡ true
contains-append_right needle [] post h =
    begins-contains needle post (begins-append needle [] post h)
contains-append_right needle (c ∷ text) post h =
    elim (either_true (begins needle (c ∷ text)) (contains needle text) h) [
      | inl here ↦
          or_left (begins needle (c ∷ (text ++ post))) _ (begins-append needle (c ∷ text) post here)
      | inr later ↦
          or_right (begins needle (c ∷ (text ++ post))) _
            (contains-append_right needle text post later)
    ]

any_needle-within :
    (words : List String) (pre text post : List ℕ)
    → any_needle words text ≡ true
    → any_needle words (pre ++ (text ++ post)) ≡ true
unfolding any_needle
any_needle-within [] pre text post h = absurd (cc)
any_needle-within (w ∷ ws) pre text post h =
    elim (either_true (contains (codes w) text) (any_needle ws text) h) [
      | inl here ↦ or_left (contains (codes w) (pre ++ (text ++ post))) _ (
          contains-append_left (codes w) pre (text ++ post)
            (contains-append_right (codes w) text post here))
      | inr later ↦
          or_right (contains (codes w) (pre ++ (text ++ post))) _
            (any_needle-within ws pre text post later)
    ]

lower_codes-join :
    (s t : String)
    → map to_ascii_lowercase (codes (join s t))
      ≡ map to_ascii_lowercase (codes s) ++ map to_ascii_lowercase (codes t)
lower_codes-join s t =
    ap (map to_ascii_lowercase) (codes-join s t) ∙ map-append to_ascii_lowercase (codes s) (codes t)

-- An error that looks transient still does when text is put before it and after it.
pub is_transient-within :
    (pre error post : String)
    → is_transient error ≡ true
    → is_transient (join pre (join error post)) ≡ true
unfolding is_transient
is_transient-within pre error post h =
    rw (lower_codes-join pre (join error post), lower_codes-join error post)
      (any_needle-within needles (map to_ascii_lowercase (codes pre))
        (map to_ascii_lowercase (codes error)) (map to_ascii_lowercase (codes post)) h)
