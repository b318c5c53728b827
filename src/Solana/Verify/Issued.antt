-- ===== src/Solana/Verify/Issued.antt =====
-- solana/src/schema.ts and verify.ts: what was encoded for an attestation is called valid.
use zegel.Common.{
  ℕ, ◌≡◌, refl, sym, ap, ◌∙◌, ◌⊎◌, inl, inr, true, false, Option, none, some, List, arith,
}
use zegel.Common.Text.{Text}
use zegel.Common.Result.{ok}
use zegel.Solana.Hex.{normalize_hex32, hex_equal}
use zegel.Solana.Hex.Laws.{hex_equal_iff}
use zegel.Solana.Schema.{
  SchemaAccount, RawData, ReferenceAttestationData, schema_matches_expected, encode_reference_data,
  normalize_reference_data,
}
use zegel.Solana.Schema.Data.{
  IsRaw, decode_reference_data-encode_reference_data, normalize_reference_data-eq-some,
}
use zegel.Solana.Verify.{
  valid, VerifyOptions, AttestationAccount, Chain, VerifyResult, contradicts, optional_hex32,
  verify,
}
use zegel.Solana.Verify.Laws.{IsPast, IsLive, IsLive-verify}

-- No text, or another spelling of `anchored`.
abbrev IsShown : Option Text → Text → Type 0
IsShown shown anchored =
    (shown ≡ none)
    ⊎ ((c : Text) × (shown ≡ some c) × (normalize_hex32 c ≡ normalize_hex32 anchored))

-- The account that holds `bytes`, under a schema that is the expected one and not paused, and no
-- expiry that has come.
pub record IsHeld (o : VerifyOptions) (chain : Chain) (schema : SchemaAccount) (bytes : List ℕ)
    : Type 0 where
  pub held_schema : chain.schema ≡ some schema
  pub matched : schema_matches_expected chain.decode_text schema ≡ true
  pub running : schema.is_paused ≡ false
  pub account : AttestationAccount
  pub held : chain.attestation ≡ some account
  pub stored : account.data_bytes ≡ bytes
  pub unexpired : ¬ (IsPast account o.now)

shown-agrees :
    (shown : Option Text) (anchored n : Text)
    → normalize_hex32 anchored ≡ some n
    → IsShown shown anchored
    → (claims : Option Text) × (optional_hex32 shown ≡ ok claims) × (contradicts n claims ≡ false)
shown-agrees shown anchored n e (inl h) = (none, rw h refl, refl)
shown-agrees shown anchored n e (inr (c, h, same)) =
    let equal : hex_equal n n ≡ true = (hex_equal_iff n n).1 refl in
    let normal : normalize_hex32 c ≡ some n = same ∙ e in
    (some n, ap optional_hex32 h ∙ ground (arith, normal), rw equal refl)

-- If data is encoded, and the account of the attestation holds the bytes, under the expected
-- schema, which is not paused, with no expiry that has come, and sas-lib returns a record of
-- three arrays of 32 bytes, a u64 and a u8 that it serialised under that schema, then the
-- verification of the data's reference id, in any spelling, with no commitment or any spelling of
-- the data's, is valid and returns the data in normal form.
pub verify-encode_reference_data :
    (serialize : SchemaAccount → RawData → Option (List ℕ)) (o : VerifyOptions) (chain : Chain)
    (schema : SchemaAccount) (d : ReferenceAttestationData) (bytes : List ℕ)
    → ((raw : RawData) (b : List ℕ)
        → IsRaw raw
        → serialize schema raw ≡ some b
        → chain.deserialize schema b ≡ some raw)
    → encode_reference_data serialize d schema ≡ some bytes
    → IsHeld o chain schema bytes
    → normalize_hex32 o.reference_id ≡ normalize_hex32 d.reference_id
    → IsShown o.commitment d.commitment
    → (r : VerifyResult) × (verify o chain ≡ ok r)
      × (r.status ≡ valid)
      × (r.onchain ≡ normalize_reference_data d)
verify-encode_reference_data serialize o chain schema d bytes codec h held asked shown =
    let (n, normal, decoded) =
      decode_reference_data-encode_reference_data serialize chain.deserialize schema d bytes codec
        h in
    let (same_id, same_commitment) = normalize_reference_data-eq-some d n normal in
    let (claims, shows, agrees) =
      shown-agrees o.commitment d.commitment n.commitment same_commitment shown in
    let live : IsLive o chain = record {
      id = n.reference_id;
      asked = asked ∙ same_id;
      claims = claims;
      shown = shows;
      schema = schema;
      held_schema = held.held_schema;
      matched = held.matched;
      account = held.account;
      held = held.held;
      onchain = n;
      decoded = rw held.stored decoded;
      same_reference = refl;
      same_claims = agrees;
      running = held.running;
      unexpired = held.unexpired;
    } in
    let (r, verified, is_valid, read) = IsLive-verify o chain live in
    (r, verified, is_valid, read ∙ sym normal)
