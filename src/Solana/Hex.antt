-- ===== src/Solana/Hex.antt =====
-- solana/src/hex.ts: identifiers of 32 bytes in hexadecimal. `none` is a `HexError`.
pub mod Laws
pub mod Bytes
use zegel.Common.{
  ℕ, ◌+◌, ◌-◌, ◌*◌, ◌/◌, ◌%◌, Bool, true, false, ◌&&◌, Option, none, some, List, [], ◌∷◌, ◌++◌, all,
  length, take, drop, ltb, ◌==◌, if◌then◌else◌,
}
use zegel.Common.Bits.{differences}
use zegel.Common.Text.{Text, codes, text_eq, to_lower_case, is_hex_digit}

-- `value.replace(/^0x/, '')`
unfoldable pub strip_0x : Text → Text
strip_0x value = if text_eq (take 2 value) (codes "0x") then drop 2 value else value

-- `/^(0x)?[0-9a-fA-F]{64}$/`; a text of 64 digits does not begin with `0x`.
unfoldable pub is_hex32 : Text → Bool
is_hex32 value = all is_hex_digit (strip_0x value) && length (strip_0x value) == 64

unfoldable pub normalize_hex32 : Text → Option Text
normalize_hex32 value =
    if is_hex32 value then some (codes "0x" ++ to_lower_case (strip_0x value)) else none

-- `Number.parseInt` of a digit in normal form.
abbrev pub digit_value : ℕ → ℕ
digit_value c = if ltb c 97 then c - 48 else c - 87

-- The loop of `hex32ToBytes`, over the digits.
unfoldable pub byte_values : Text → List ℕ
byte_values (a ∷ b ∷ s) = (digit_value a * 16 + digit_value b) ∷ byte_values s
byte_values _ = []

unfoldable pub hex32_to_bytes : Text → Option (List ℕ)
hex32_to_bytes value = elim (normalize_hex32 value) [
  | none ↦ none
  | some normalized ↦ some (byte_values (drop 2 normalized))
]

abbrev pub hex_digit : ℕ → ℕ
hex_digit n = if ltb n 10 then n + 48 else n + 87

abbrev pub hex_byte : ℕ → Text
hex_byte b = hex_digit (b / 16) ∷ hex_digit (b % 16) ∷ []

-- The loop of `bytesToHex32`, over bytes.
unfoldable pub hex_bytes : List ℕ → Text
hex_bytes [] = []
hex_bytes (b ∷ bs) = hex_byte b ++ hex_bytes bs

unfoldable pub bytes_to_hex32 : List ℕ → Option Text
bytes_to_hex32 bytes = if length bytes == 32 then some (codes "0x" ++ hex_bytes bytes) else none

unfoldable pub hex_equal : Text → Text → Bool
hex_equal a b =
    let x = to_lower_case (strip_0x a) in
    let y = to_lower_case (strip_0x b) in
    if length x == length y then differences 0 x y == 0 else false
