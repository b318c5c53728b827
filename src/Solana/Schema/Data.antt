-- ===== src/Solana/Schema/Data.antt =====
-- solana/src/schema.ts: the attestation's data, encoded and decoded.
use zegel.Common.{
  ℕ, ◌≡◌, ◌<◌, refl, sym, subst, ◌∙◌, none, some, Option, List, ◌++◌, All, length, inl, inr,
  Option-cases, arith,
}
use zegel.Common.Text.{Text, codes}
use zegel.Solana.Hex.{normalize_hex32, hex32_to_bytes, hex_bytes, bytes_to_hex32}
use zegel.Solana.Hex.Bytes.{hex32_to_bytes-eq-some}
use zegel.Solana.Schema.{
  SchemaAccount, RawData, ReferenceAttestationData, with_bytes, to_borsh_record,
  encode_reference_data, with_digests, data_of, decode_reference_data, normalize_reference_data,
}

-- Three arrays of 32 bytes, a u64 and a u8.
pub record IsRaw (raw : RawData) : Type 0 where
  pub reference_count : length raw.reference_id ≡ 32
  pub reference_bytes : All (λ b. b < 256) raw.reference_id
  pub commitment_count : length raw.commitment ≡ 32
  pub commitment_bytes : All (λ b. b < 256) raw.commitment
  pub derivation_count : length raw.derivation_id ≡ 32
  pub derivation_bytes : All (λ b. b < 256) raw.derivation_id
  pub expiry_size : raw.expires_at < 0x10000000000000000
  pub tier_size : raw.tier_count < 256

abbrev raw_of : ReferenceAttestationData → List ℕ → List ℕ → List ℕ → RawData
raw_of d r c i = record {
  reference_id = r;
  commitment = c;
  expires_at = d.expires_at;
  derivation_id = i;
  tier_count = d.tier_count;
}

with_bytes-eq-some :
    (d : ReferenceAttestationData) (r c i : Option (List ℕ)) (raw : RawData)
    → with_bytes d r c i ≡ some raw
    → (x : List ℕ) × (y : List ℕ) × (z : List ℕ) × (r ≡ some x)
      × (c ≡ some y)
      × (i ≡ some z)
      × (raw_of d x y z ≡ raw)
with_bytes-eq-some d (some x) (some y) (some z) raw h = (x, y, z, refl, refl, refl, cc)
with_bytes-eq-some d none c i raw h = absurd cc
with_bytes-eq-some d (some x) none i raw h = absurd cc
with_bytes-eq-some d (some x) (some y) none raw h = absurd cc

-- A record that is encoded has the sizes of its fields, and is read as the data in normal form.
to_borsh_record-eq-some :
    (d : ReferenceAttestationData) (raw : RawData)
    → to_borsh_record d ≡ some raw
    → IsRaw raw × (data_of (some raw) ≡ normalize_reference_data d)
unfolding to_borsh_record normalize_reference_data
to_borsh_record-eq-some d raw h =
    let fields : with_bytes d (hex32_to_bytes d.reference_id) (hex32_to_bytes d.commitment)
          (hex32_to_bytes d.derivation_id)
        ≡ some raw =
      ground arith in
    let (x, y, z, er, ec, ei, same) =
      with_bytes-eq-some d (hex32_to_bytes d.reference_id) (hex32_to_bytes d.commitment)
        (hex32_to_bytes d.derivation_id) raw fields in
    let (rn, rb, r) = hex32_to_bytes-eq-some d.reference_id x er in
    let (cn, cb, c) = hex32_to_bytes-eq-some d.commitment y ec in
    let (dn, db, i) = hex32_to_bytes-eq-some d.derivation_id z ei in
    subst (λ w. IsRaw w × (data_of (some w) ≡ normalize_reference_data d)) same
      (
        record {
          reference_count = rn;
          reference_bytes = rb;
          commitment_count = cn;
          commitment_bytes = cb;
          derivation_count = dn;
          derivation_bytes = db;
          expiry_size = ground arith;
          tier_size = ground arith;
        },
        rw (r, c, i) refl,
      )

data_of-IsRaw :
    (raw : RawData) → IsRaw raw → (n : ReferenceAttestationData) × (data_of (some raw) ≡ some n)
unfolding bytes_to_hex32
data_of-IsRaw raw s = (
  record {
    reference_id = codes "0x" ++ hex_bytes raw.reference_id;
    commitment = codes "0x" ++ hex_bytes raw.commitment;
    expires_at = raw.expires_at;
    derivation_id = codes "0x" ++ hex_bytes raw.derivation_id;
    tier_count = raw.tier_count;
  },
  rw (s.reference_count, s.commitment_count, s.derivation_count) refl,
)

-- Data that is encoded has a normal form and is decoded to it, if the deserialiser returns a record
-- of three arrays of 32 bytes, a u64 and a u8 that was serialised under the same schema.
pub decode_reference_data-encode_reference_data :
    (serialize : SchemaAccount → RawData → Option (List ℕ))
    (deserialize : SchemaAccount → List ℕ → Option RawData) (schema : SchemaAccount)
    (d : ReferenceAttestationData) (bytes : List ℕ)
    → ((raw : RawData) (b : List ℕ)
        → IsRaw raw
        → serialize schema raw ≡ some b
        → deserialize schema b ≡ some raw)
    → encode_reference_data serialize d schema ≡ some bytes
    → (n : ReferenceAttestationData) × (normalize_reference_data d ≡ some n)
      × (decode_reference_data deserialize bytes schema ≡ some n)
unfolding encode_reference_data decode_reference_data
decode_reference_data-encode_reference_data serialize deserialize schema d bytes codec h =
    elim (Option-cases (to_borsh_record d)) [
      | inl e ↦ absurd (ground arith)
      | inr (raw, e) ↦
          let (sizes, same) = to_borsh_record-eq-some d raw e in
          let (n, some_n) = data_of-IsRaw raw sizes in
          (n, sym same ∙ some_n, rw (codec raw bytes sizes (ground arith)) some_n)
    ]

with_digests-eq-some :
    (e t : ℕ) (r c i : Option Text) (n : ReferenceAttestationData)
    → with_digests e t r c i ≡ some n
    → (r ≡ some n.reference_id) × (c ≡ some n.commitment)
with_digests-eq-some e t (some x) (some y) (some z) n h = (ground arith, ground arith)
with_digests-eq-some e t none c i n h = absurd cc
with_digests-eq-some e t (some x) none i n h = absurd cc
with_digests-eq-some e t (some x) (some y) none n h = absurd cc

pub normalize_reference_data-eq-some :
    (d n : ReferenceAttestationData)
    → normalize_reference_data d ≡ some n
    → (normalize_hex32 d.reference_id ≡ some n.reference_id)
      × (normalize_hex32 d.commitment ≡ some n.commitment)
unfolding normalize_reference_data
normalize_reference_data-eq-some d n h =
    with_digests-eq-some d.expires_at d.tier_count (normalize_hex32 d.reference_id)
      (normalize_hex32 d.commitment) (normalize_hex32 d.derivation_id) n h
