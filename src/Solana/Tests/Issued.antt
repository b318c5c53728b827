-- ===== src/Solana/Tests/Issued.antt =====
-- An attestation whose data was encoded, under a serialiser that sets the fields side by side.
use zegel.Common.{
  ℕ, ◌≡◌, refl, sym, subst, true, Option, none, some, List, ◌∷◌, ◌++◌, take, drop, take-append,
  drop-append, replicate, inr, arith,
}
use zegel.Common.Text.{codes, text_eq, to_lower_case}
use zegel.Common.Result.{ok}
use zegel.Solana.Hex.{strip_0x, is_hex32, normalize_hex32, byte_values, hex32_to_bytes}
use zegel.Solana.Schema.{
  SchemaAccount, RawData, ReferenceAttestationData, to_borsh_record, encode_reference_data,
  normalize_reference_data,
}
use zegel.Solana.Schema.Data.{IsRaw}
use zegel.Solana.Verify.{valid, VerifyOptions, Chain, VerifyResult, verify}
use zegel.Solana.Verify.Issued.{IsHeld, verify-encode_reference_data}
use zegel.Solana.Tests.{upper_id, lower_id, schema, live_chain, schema_matches}

abbrev serialize : SchemaAccount → RawData → Option (List ℕ)
serialize s raw =
    some (
      raw.expires_at ∷ raw.tier_count ∷ (raw.reference_id ++ (raw.commitment ++ raw.derivation_id)))

abbrev deserialize : SchemaAccount → List ℕ → Option RawData
deserialize s (e ∷ t ∷ bytes) = some (record {
  reference_id = take 32 bytes;
  commitment = take 32 (drop 32 bytes);
  expires_at = e;
  derivation_id = drop 32 (drop 32 bytes);
  tier_count = t;
})
deserialize s _ = none

reads_back :
    (s : SchemaAccount) (raw : RawData) (b : List ℕ)
    → IsRaw raw
    → serialize s raw ≡ some b
    → deserialize s b ≡ some raw
reads_back s raw b sizes h =
    let rest = raw.commitment ++ raw.derivation_id in
    let same : raw.expires_at ∷ raw.tier_count ∷ (raw.reference_id ++ rest) ≡ b = cc in
    subst (λ x. deserialize s x ≡ some raw) same
      (rw
        (
          take-append raw.reference_id rest 32 (sym sizes.reference_count),
          drop-append raw.reference_id rest 32 (sym sizes.reference_count),
          take-append raw.commitment raw.derivation_id 32 (sym sizes.commitment_count),
          drop-append raw.commitment raw.derivation_id 32 (sym sizes.commitment_count),
        )
        refl)

-- One id in capitals, with no prefix.
abbrev issued : ReferenceAttestationData
issued = record {
  reference_id = upper_id;
  commitment = lower_id;
  expires_at = 2000;
  derivation_id = codes "0x" ++ replicate 64 b'0';
  tier_count = 2;
}

abbrev stored : List ℕ
stored = 2000 ∷ 2 ∷ (replicate 32 0xaa ++ (replicate 32 0xaa ++ replicate 32 0))

abbrev chain : Chain
chain = record live_chain {
  attestation = some (record { data_bytes = stored; expiry = 2000; token_account = codes "token" });
  deserialize = deserialize;
}

abbrev asked : VerifyOptions
asked = record {
  reference_id = lower_id;
  commitment = some upper_id;
  now = 1999000;
  check_revocation_history = true;
}

encoded : encode_reference_data serialize issued schema ≡ some stored
unfolding encode_reference_data to_borsh_record hex32_to_bytes byte_values normalize_hex32 is_hex32
    strip_0x text_eq to_lower_case
encoded = refl

same_id : normalize_hex32 lower_id ≡ normalize_hex32 upper_id
unfolding normalize_hex32 is_hex32 strip_0x text_eq to_lower_case
same_id = refl

held : IsHeld asked chain schema stored
held = record {
  held_schema = refl;
  matched = schema_matches;
  running = refl;
  account = record { data_bytes = stored; expiry = 2000; token_account = codes "token" };
  held = refl;
  stored = refl;
  unexpired = λ (set, past). omega (arith, past);
}

verify-encode_reference_data_example :
    (r : VerifyResult) × (verify asked chain ≡ ok r)
    × (r.status ≡ valid)
    × (r.onchain ≡ normalize_reference_data issued)
verify-encode_reference_data_example =
    verify-encode_reference_data serialize asked chain schema issued stored (reads_back schema)
      encoded held same_id (inr (upper_id, refl, sym same_id))
