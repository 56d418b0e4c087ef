-- ===== src/Restore/Hex/RoundTrip.antt =====
-- `decode_hex32` of crates/soroban-restore-planner/src/main.rs reads what a hash is written as.
use soroban_storage_the_on_c.Prelude.{
  ℕ, ◌+◌, ◌-◌, ◌*◌, ◌/◌, ◌%◌, ◌<◌, ◌≡◌, refl, false, some, List, [], ◌∷◌, All, length, ltb,
  if◌then◌else◌, ok, arith, ◌==◌,
}
use soroban_storage_the_on_c.Restore.Hex.{
  continues_character, digit_value, cuts_next, decode_pairs, decode_hex32,
}

-- A digit, in the lower case.
abbrev pub hex_digit : ℕ → ℕ
hex_digit d = if ltb d 10 then b'0' + d else b'a' + (d - 10)

abbrev pub hex : List ℕ → List ℕ
hex [] = []
hex (byte ∷ bytes) = hex_digit (byte / 16) ∷ hex_digit (byte % 16) ∷ hex bytes

digit_value-hex_digit : (d : ℕ) → d < 16 → digit_value (hex_digit d) ≡ some d
digit_value-hex_digit d small = ground (arith, small)

hex_digit-ne-sign : (d : ℕ) → (hex_digit d == b'+') ≡ false
hex_digit-ne-sign d = ground arith

hex_digit-whole : (d : ℕ) → d < 16 → continues_character (hex_digit d) ≡ false
hex_digit-whole d small = ground (arith, small)

abbrev pub IsByte : ℕ → Type 0
IsByte byte = byte < 256

hex_starts_whole : (bytes : List ℕ) → All IsByte bytes → cuts_next (hex bytes) ≡ false
hex_starts_whole [] small = refl
hex_starts_whole (byte ∷ bytes) (here, small) = hex_digit-whole (byte / 16) (omega (arith, here))

decode_pairs-hex : (bytes : List ℕ) → All IsByte bytes → decode_pairs (hex bytes) ≡ ok bytes
unfolding decode_pairs
decode_pairs-hex [] small = refl
decode_pairs-hex (byte ∷ bytes) (here, small) =
    let high = digit_value-hex_digit (byte / 16) (omega (arith, here)) in
    let low = digit_value-hex_digit (byte % 16) (omega arith) in
    let both : 16 * (byte / 16) + byte % 16 ≡ byte = omega arith in
    rw
      (
        hex_starts_whole bytes small,
        decode_pairs-hex bytes small,
        hex_digit-ne-sign (byte / 16),
        high,
        low,
        both,
      )
      refl

length-hex : (bytes : List ℕ) → length (hex bytes) ≡ 2 * length bytes
length-hex [] = refl
length-hex (byte ∷ bytes) = omega (arith, length-hex bytes)

-- A hash of 32 bytes is read back from its 64 hexadecimal digits.
pub decode_hex32-hex :
    (bytes : List ℕ) → length bytes ≡ 32 → All IsByte bytes → decode_hex32 (hex bytes) ≡ ok bytes
unfolding decode_hex32
decode_hex32-hex bytes whole small =
    let long : length (hex bytes) ≡ 64 = omega (arith, length-hex bytes, whole) in
    rw long (decode_pairs-hex bytes small)
