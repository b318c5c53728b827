-- ===== src/Solana/Hex/Bytes.antt =====
-- solana/src/hex.ts: identifiers and their bytes.
use zegel.Common.{
  ℕ, zero, suc, ◌+◌, ◌*◌, ◌/◌, ◌%◌, ◌≡◌, refl, ap, subst, ◌∙◌, ◌<◌, Bool, true, ◌||◌, ◌&&◌, some,
  List, [], ◌∷◌, ◌++◌, All, all, length, leb, ==_iff, inl, inr, Bool-cases, arith,
}
use zegel.Common.Text.{Text, to_lower_case, length-to_lower_case, is_hex_digit}
use zegel.Solana.Hex.{
  strip_0x, is_hex32, normalize_hex32, digit_value, byte_values, hex32_to_bytes, hex_digit,
  hex_byte, hex_bytes, bytes_to_hex32,
}

-- A digit as it stands in a normal form.
abbrev is_low_digit : ℕ → Bool
is_low_digit c = (leb b'0' c && leb c b'9') || (leb b'a' c && leb c b'f')

all-low : (s : Text) → all is_hex_digit s ≡ true → all is_low_digit (to_lower_case s) ≡ true
unfolding to_lower_case
all-low [] h = refl
all-low (c ∷ s) h = ground (arith, all-low s)

digit_value_lt : (c : ℕ) → is_low_digit c ≡ true → digit_value c < 16
digit_value_lt c h = ground arith

hex_digit-digit_value : (c : ℕ) → is_low_digit c ≡ true → hex_digit (digit_value c) ≡ c
hex_digit-digit_value c h = ground arith

byte_value_lt :
    (a b : ℕ)
    → is_low_digit a ≡ true
    → is_low_digit b ≡ true
    → digit_value a * 16 + digit_value b < 256
byte_value_lt a b ha hb = omega (arith, digit_value_lt a ha, digit_value_lt b hb)

hex_byte-byte_value :
    (a b : ℕ)
    → is_low_digit a ≡ true
    → is_low_digit b ≡ true
    → hex_byte (digit_value a * 16 + digit_value b) ≡ a ∷ b ∷ []
hex_byte-byte_value a b ha hb =
    let high : (digit_value a * 16 + digit_value b) / 16 ≡ digit_value a =
      omega (arith, digit_value_lt b hb) in
    let low : (digit_value a * 16 + digit_value b) % 16 ≡ digit_value b =
      omega (arith, digit_value_lt b hb) in
    rw (high, low, hex_digit-digit_value a ha, hex_digit-digit_value b hb) refl

-- The bytes of n pairs of digits: there are n, each is one, and they are printed as the digits.
byte_values-low :
    (n : ℕ) (s : Text)
    → all is_low_digit s ≡ true
    → length s ≡ n * 2
    → (length (byte_values s) ≡ n)
      × All (λ b. b < 256) (byte_values s)
      × (hex_bytes (byte_values s) ≡ s)
unfolding byte_values hex_bytes
byte_values-low zero [] h e = (refl, tt, refl)
byte_values-low zero (a ∷ s) h e = absurd (omega (arith, e))
byte_values-low (suc n) [] h e = absurd (omega (arith, e))
byte_values-low (suc n) (a ∷ []) h e = absurd (omega (arith, e))
byte_values-low (suc n) (a ∷ b ∷ s) h e =
    let ha : is_low_digit a ≡ true = ground arith in
    let hb : is_low_digit b ≡ true = ground arith in
    let hs : all is_low_digit s ≡ true = ground arith in
    let (count, small, printed) = byte_values-low n s hs (omega (arith, e)) in
    (
      ap suc count,
      (byte_value_lt a b ha hb, small),
      ap (λ pair. pair ++ hex_bytes (byte_values s)) (hex_byte-byte_value a b ha hb)
          ∙ ap (λ t. a ∷ b ∷ t) printed,
    )

-- 32 bytes that are printed as the normal form of a text.
abbrev pub IsBytesOf : Text → List ℕ → Type 0
IsBytesOf value bytes =
    (length bytes ≡ 32) × All (λ b. b < 256) bytes × (bytes_to_hex32 bytes ≡ normalize_hex32 value)

-- An identifier of 32 bytes: there are 32, and they are printed as the identifier's normal form.
pub hex32_to_bytes-eq-some :
    (value : Text) (bytes : List ℕ) → hex32_to_bytes value ≡ some bytes → IsBytesOf value bytes
unfolding hex32_to_bytes normalize_hex32 is_hex32 bytes_to_hex32
hex32_to_bytes-eq-some value bytes h =
    let digits = to_lower_case (strip_0x value) in
    elim (Bool-cases (is_hex32 value)) [
      | inr e ↦ absurd (ground arith)
      | inl e ↦
          let low : all is_low_digit digits ≡ true = all-low (strip_0x value) (ground arith) in
          let many : length digits ≡ 64 =
            length-to_lower_case (strip_0x value) ∙ (==_iff _ 64).0 (ground arith) in
          let (count, small, printed) = byte_values-low 32 digits low many in
          let same : byte_values digits ≡ bytes = ground arith in
          subst (IsBytesOf value) same (count, small, rw (count, printed) (ground arith))
    ]
