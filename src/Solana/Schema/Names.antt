-- ===== src/Solana/Schema/Names.antt =====
-- solana/src/schema.ts: the coding of the names of the fields, and the schema that has it.
use zegel.Common.{
  ℕ, zero, suc, ◌/◌, ◌%◌, ◌≡◌, refl, ◌≤◌, ◌<◌, true, List, [], ◌∷◌, All, length, arith,
  length-append, take-append, drop-append,
}
use zegel.Common.Text.{Text, text_eq}
use zegel.Solana.Schema.{
  schema_fields, u32_value, encode_field_names, names_from, decode_field_names, numbers_equal,
  texts_equal, schema_matches_expected, local_schema_account,
}

-- A number below 2^32 is read as it was written.
u32_value-u32_bytes :
    (n : ℕ)
    → n < 4294967296
    → u32_value (n % 256) (n / 256 % 256) (n / 65536 % 256) (n / 16777216 % 256) ≡ n
u32_value-u32_bytes n h = omega arith

-- A text whose bytes can be measured in 32 bits and are decoded to it again.
abbrev pub IsCoded : (Text → List ℕ) → (List ℕ → Text) → Text → Type 0
IsCoded encode decode t = (length (encode t) < 4294967296) × (decode (encode t) ≡ t)

names_from-encode_field_names :
    (encode : Text → List ℕ) (decode : List ℕ → Text) (fuel : ℕ) (fields : List Text)
    → All (IsCoded encode decode) fields
    → length (encode_field_names encode fields) ≤ fuel
    → names_from decode fuel (encode_field_names encode fields) ≡ fields
unfolding names_from encode_field_names
names_from-encode_field_names encode decode zero [] v h = refl
names_from-encode_field_names encode decode (suc fuel) [] v h = refl
names_from-encode_field_names encode decode zero (f ∷ fs) v h = absurd (omega arith)
names_from-encode_field_names encode decode (suc fuel) (f ∷ fs) ((small, same), vs) h =
    let rest = encode_field_names encode fs in
    let ih =
      names_from-encode_field_names encode decode fuel fs vs
        (omega (arith, length-append (encode f) rest)) in
    rw
      (
        u32_value-u32_bytes (length (encode f)) small,
        take-append (encode f) rest (length (encode f)) refl,
        drop-append (encode f) rest (length (encode f)) refl,
        same,
        ih,
      )
      refl

-- Field names whose bytes number less than 2^32 each, and which the text decoder reads back, are
-- decoded from their encoding unchanged.
decode_field_names-encode_field_names :
    (encode : Text → List ℕ) (decode : List ℕ → Text) (fields : List Text)
    → All (IsCoded encode decode) fields
    → decode_field_names decode (encode_field_names encode fields) ≡ fields
unfolding decode_field_names
decode_field_names-encode_field_names encode decode fields v =
    names_from-encode_field_names encode decode _ fields v (omega arith)

-- The schema of this package is the one that it expects.
schema_matches_expected-local_schema_account :
    (encode : Text → List ℕ) (decode : List ℕ → Text)
    → All (IsCoded encode decode) schema_fields
    → schema_matches_expected decode (local_schema_account encode) ≡ true
unfolding schema_matches_expected numbers_equal texts_equal text_eq
schema_matches_expected-local_schema_account encode decode v =
    rw (decode_field_names-encode_field_names encode decode schema_fields v) refl
