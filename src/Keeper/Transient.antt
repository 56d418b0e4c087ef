-- ===== src/Keeper/Transient.antt =====
-- `is_transient` of crates/soroban-rent-keeper/src/keeper.rs: a search in the lower-cased text.
pub mod Context
use soroban_storage_the_on_c.Prelude.{
  ℕ, ◌+◌, ◌≡◌, refl, ap, ◌∙◌, Bool, true, false, ◌&&◌, ◌||◌, List, [], ◌∷◌, ◌++◌, map, any, String,
  leb, ◌==◌, if◌then◌else◌, arith, Bool-cases, codes,
}

-- `to_ascii_lowercase`, on a code point.
abbrev pub to_ascii_lowercase : ℕ → ℕ
to_ascii_lowercase c = if leb b'A' c && leb c b'Z' then c + 32 else c

abbrev pub begins : List ℕ → List ℕ → Bool
begins [] text = true
begins (n ∷ needle) [] = false
begins (n ∷ needle) (c ∷ text) = n == c && begins needle text

-- `str::contains`, of a needle in a text.
abbrev pub contains : List ℕ → List ℕ → Bool
contains needle [] = begins needle []
contains needle (c ∷ text) = begins needle (c ∷ text) || contains needle text

abbrev pub needles : List String
needles =
    "timeout" ∷ "timed out" ∷ "connection" ∷ "unavailable" ∷ "temporarily" ∷ "rate limit"
    ∷ "too many requests" ∷ "429" ∷ "502" ∷ "503" ∷ "504" ∷ "reset" ∷ "broken pipe" ∷ "eof" ∷ []

unfoldable pub any_needle : List String → List ℕ → Bool
any_needle words lower = any (λ needle. contains (codes needle) lower) words

unfoldable pub is_transient : String → Bool
unfolding any_needle
is_transient error = any_needle needles (map to_ascii_lowercase (codes error))

reset_is_transient : is_transient "Connection RESET by peer" ≡ true
unfolding is_transient
reset_is_transient = refl

bad_key_is_permanent : is_transient "invalid ledger key" ≡ false
unfolding is_transient
bad_key_is_permanent = refl
