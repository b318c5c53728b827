-- ===== src/Solana/Schema.antt =====
-- solana/src/schema.ts: the reference schema, the names of its fields as the program stores them,
-- and the attestation's data. The text coders, the serialiser and the deserialiser of sas-lib are
-- parameters.
pub mod Names
pub mod Data
use zegel.Common.{
  ℕ, zero, suc, ◌+◌, ◌*◌, ◌/◌, ◌%◌, ◌^◌, Bool, true, false, ◌&&◌, Option, none, some, List, [], ◌∷◌,
  ◌++◌, length, take, drop, ltb, ◌==◌, if◌then◌else◌,
}
use zegel.Common.Text.{Text, codes, text_eq}
use zegel.Solana.Hex.{normalize_hex32, hex32_to_bytes, bytes_to_hex32}

abbrev pub schema_fields : List Text
schema_fields =
    codes "referenceId"
    ∷ codes "commitment"
    ∷ codes "expiresAt"
    ∷ codes "derivationId"
    ∷ codes "tierCount"
    ∷ []

abbrev pub schema_layout : List ℕ
schema_layout = 13 ∷ 13 ∷ 3 ∷ 13 ∷ 0 ∷ []

-- The parts of the schema's account that are read.
pub record SchemaAccount : Type 0 where
  pub layout : List ℕ
  pub field_names : List ℕ
  pub is_paused : Bool

pub record ReferenceAttestationData : Type 0 where
  pub reference_id : Text
  pub commitment : Text
  pub expires_at : ℕ
  pub derivation_id : Text
  pub tier_count : ℕ

-- What `deserializeAttestationData` returns.
pub record RawData : Type 0 where
  pub reference_id : List ℕ
  pub commitment : List ℕ
  pub expires_at : ℕ
  pub derivation_id : List ℕ
  pub tier_count : ℕ

-- `setUint32(offset, n, true)`
abbrev pub u32_bytes : ℕ → List ℕ
u32_bytes n = (n % 256) ∷ (n / 256 % 256) ∷ (n / 65536 % 256) ∷ (n / 16777216 % 256) ∷ []

-- `getUint32(offset, true)`
abbrev pub u32_value : ℕ → ℕ → ℕ → ℕ → ℕ
u32_value b0 b1 b2 b3 = b0 + b1 * 256 + b2 * 65536 + b3 * 16777216

unfoldable pub encode_field_names : (Text → List ℕ) → List Text → List ℕ
encode_field_names encode [] = []
encode_field_names encode (f ∷ fs) =
    u32_bytes (length (encode f)) ++ (encode f ++ encode_field_names encode fs)

-- The loop of `decodeFieldNames`: `bytes` is what stands from `offset` on. A round takes four bytes
-- at least, so the number of bytes is fuel enough.
unfoldable pub names_from : (List ℕ → Text) → ℕ → List ℕ → List Text
names_from decode zero bytes = []
names_from decode (suc fuel) (b0 ∷ b1 ∷ b2 ∷ b3 ∷ bytes) =
    decode (take (u32_value b0 b1 b2 b3) bytes)
    ∷ names_from decode fuel (drop (u32_value b0 b1 b2 b3) bytes)
names_from decode (suc fuel) _ = []

unfoldable pub decode_field_names : (List ℕ → Text) → List ℕ → List Text
decode_field_names decode bytes = names_from decode (length bytes) bytes

unfoldable pub numbers_equal : List ℕ → List ℕ → Bool
numbers_equal [] [] = true
numbers_equal (x ∷ xs) (y ∷ ys) = (x == y) && numbers_equal xs ys
numbers_equal _ _ = false

unfoldable pub texts_equal : List Text → List Text → Bool
texts_equal [] [] = true
texts_equal (x ∷ xs) (y ∷ ys) = text_eq x y && texts_equal xs ys
texts_equal _ _ = false

-- `assertSchemaMatchesExpected` throws exactly where this is `false`.
unfoldable pub schema_matches_expected : (List ℕ → Text) → SchemaAccount → Bool
schema_matches_expected decode schema =
    numbers_equal schema.layout schema_layout
    && texts_equal (decode_field_names decode schema.field_names) schema_fields

-- `localSchemaAccount`, as far as it is read.
abbrev pub local_schema_account : (Text → List ℕ) → SchemaAccount
local_schema_account encode = record {
  layout = schema_layout;
  field_names = encode_field_names encode schema_fields;
  is_paused = false;
}

abbrev pub with_bytes :
    ReferenceAttestationData → Option (List ℕ) → Option (List ℕ) → Option (List ℕ) → Option RawData
with_bytes d (some r) (some c) (some i) = some (record {
  reference_id = r;
  commitment = c;
  expires_at = d.expires_at;
  derivation_id = i;
  tier_count = d.tier_count;
})
with_bytes d _ _ _ = none

-- `none` is a call that throws; the two numbers are not negative.
unfoldable pub to_borsh_record : ReferenceAttestationData → Option RawData
to_borsh_record d =
    if ltb 255 d.tier_count
    then none
    else if ltb 0xffffffffffffffff d.expires_at
    then none
    else with_bytes d (hex32_to_bytes d.reference_id) (hex32_to_bytes d.commitment)
        (hex32_to_bytes d.derivation_id)

unfoldable pub encode_reference_data :
    (SchemaAccount → RawData → Option (List ℕ))
    → ReferenceAttestationData
    → SchemaAccount
    → Option (List ℕ)
encode_reference_data serialize d schema = elim (to_borsh_record d) [
  | none ↦ none
  | some raw ↦ serialize schema raw
]

abbrev pub with_digests :
    ℕ → ℕ → Option Text → Option Text → Option Text → Option ReferenceAttestationData
with_digests expires_at tier_count (some r) (some c) (some d) = some (record {
  reference_id = r;
  commitment = c;
  expires_at = expires_at;
  derivation_id = d;
  tier_count = tier_count;
})
with_digests expires_at tier_count _ _ _ = none

abbrev pub data_of : Option RawData → Option ReferenceAttestationData
data_of none = none
data_of (some raw) =
    with_digests raw.expires_at raw.tier_count (bytes_to_hex32 raw.reference_id)
      (bytes_to_hex32 raw.commitment) (bytes_to_hex32 raw.derivation_id)

-- `none` is a call that throws.
unfoldable pub decode_reference_data :
    (SchemaAccount → List ℕ → Option RawData)
    → List ℕ
    → SchemaAccount
    → Option ReferenceAttestationData
decode_reference_data deserialize bytes schema = data_of (deserialize schema bytes)

unfoldable pub normalize_reference_data : ReferenceAttestationData → Option ReferenceAttestationData
normalize_reference_data d =
    with_digests d.expires_at d.tier_count (normalize_hex32 d.reference_id)
      (normalize_hex32 d.commitment) (normalize_hex32 d.derivation_id)
