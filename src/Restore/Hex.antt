-- ===== src/Restore/Hex.antt =====
-- `decode_hex32` of crates/soroban-restore-planner/src/main.rs.
pub mod RoundTrip
use soroban_storage_the_on_c.Prelude.{
  ℕ, ◌+◌, ◌-◌, ◌*◌, ◌/◌, ◌%◌, Bool, true, false, ◌&&◌, not, Option, none, some, List, [], ◌∷◌, ◌++◌,
  String, leb, ltb, ◌==◌, if◌then◌else◌, length, codes, Result, ok, err,
}

-- The errors, and the panic of a slice that cuts a character.
pub data HexFault : Type 0 where
  wrong_length : ℕ → HexFault
  invalid_hex : HexFault
  inside_character : HexFault

-- The UTF-8 of a character and of a text.
abbrev pub utf8_of : ℕ → List ℕ
utf8_of c =
    if ltb c 128
    then c ∷ []
    else if ltb c 2_048
    then (192 + c / 64) ∷ (128 + c % 64) ∷ []
    else if ltb c 65_536
    then (224 + c / 4_096) ∷ (128 + (c / 64) % 64) ∷ (128 + c % 64) ∷ []
    else (240 + c / 262_144)
      ∷ (128 + (c / 4_096) % 64)
      ∷ (128 + (c / 64) % 64)
      ∷ (128 + c % 64)
      ∷ []

abbrev pub utf8_from : List ℕ → List ℕ
utf8_from [] = []
utf8_from (c ∷ s) = utf8_of c ++ utf8_from s

abbrev pub utf8 : String → List ℕ
utf8 input = utf8_from (codes input)

-- A byte inside of a character, where no slice may begin or end.
abbrev pub continues_character : ℕ → Bool
continues_character b = leb 128 b && ltb b 192

abbrev pub digit_value : ℕ → Option ℕ
digit_value b =
    if leb b'0' b && leb b b'9'
    then some (b - b'0')
    else if leb b'a' b && leb b b'f'
    then some (b - b'a' + 10)
    else if leb b'A' b && leb b b'F'
    then some (b - b'A' + 10)
    else none

abbrev pub two_digits : Option ℕ → Option ℕ → Option ℕ
two_digits (some high) (some low) = some (16 * high + low)
two_digits _ _ = none

-- `u8::from_str_radix(…, 16)` of two bytes, which takes a sign.
abbrev pub from_str_radix : ℕ → ℕ → Option ℕ
from_str_radix a b = if a == b'+' then digit_value b else two_digits (digit_value a) (digit_value b)

-- Whether the slice up to the bytes that are left ends inside of a character.
abbrev pub cuts_next : List ℕ → Bool
cuts_next [] = false
cuts_next (b ∷ rest) = continues_character b

abbrev pub add_byte : Option ℕ → Result HexFault (List ℕ) → Result HexFault (List ℕ)
add_byte none rest = err invalid_hex
add_byte (some byte) (err fault) = err fault
add_byte (some byte) (ok bytes) = ok (byte ∷ bytes)

-- The loop over the bytes of the result, two bytes of the input a time.
unfoldable pub decode_pairs : List ℕ → Result HexFault (List ℕ)
decode_pairs (a ∷ b ∷ rest) =
    let more = decode_pairs rest in
    if cuts_next rest then err inside_character else add_byte (from_str_radix a b) more
decode_pairs _ = ok []

unfoldable pub decode_hex32 : List ℕ → Result HexFault (List ℕ)
unfolding decode_pairs
decode_hex32 input =
    if not (length input == 64) then err (wrong_length (length input)) else decode_pairs input
