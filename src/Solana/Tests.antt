-- ===== src/Solana/Tests.antt =====
-- Concrete attestations: one that is live, and one that was closed.
mod Issued
use zegel.Common.{
  ◌≡◌, refl, true, false, none, some, List, [], ◌∷◌, ◌++◌, take, replicate, Any, All, arith,
}
use zegel.Common.Text.{Text, codes, text_eq, to_lower_case}
use zegel.Common.Result.{ok}
use zegel.Common.Bits.{differences}
use zegel.Solana.Hex.{strip_0x, is_hex32, normalize_hex32, hex_bytes, bytes_to_hex32, hex_equal}
use zegel.Solana.Schema.{
  SchemaAccount, RawData, ReferenceAttestationData, schema_fields, schema_layout,
  encode_field_names, names_from, decode_field_names, numbers_equal, texts_equal,
  schema_matches_expected, decode_reference_data,
}
use zegel.Solana.Schema.Names.{IsCoded}
use zegel.Solana.Revocation.{
  close_attestation, close, SignatureInfo, RevocationEvidence, HistoryNode,
  max_history_transactions, closing_of, first_closing, flat, identify_closing_instruction,
  successful, first_evidence, find_revocation,
}
use zegel.Solana.Revocation.Laws.{IsEvidence}
use zegel.Solana.Verify.{
  valid, revoked, VerifyOptions, AttestationAccount, Chain, VerifyResult, absent_result,
  bare_result, present_result, status_of, verify_accounts, verify,
}
use zegel.Solana.Verify.Laws.{IsLive, verify-IsLive, verify-revoked}

-- Sixty-four times the digit A, in either case.
abbrev upper_id : Text
upper_id = replicate 64 b'A'

abbrev lower_id : Text
lower_id = codes "0x" ++ replicate 64 b'a'

abbrev schema : SchemaAccount
schema = record {
  layout = schema_layout;
  field_names = encode_field_names (λ t. t) schema_fields;
  is_paused = false;
}

abbrev account : AttestationAccount
account = record { data_bytes = []; expiry = 2000; token_account = codes "token" }

abbrev raw : RawData
raw = record {
  reference_id = replicate 32 0xaa;
  commitment = replicate 32 0xaa;
  expires_at = 2000;
  derivation_id = replicate 32 0;
  tier_count = 2;
}

abbrev onchain : ReferenceAttestationData
onchain = record {
  reference_id = lower_id;
  commitment = lower_id;
  expires_at = 2000;
  derivation_id = codes "0x" ++ replicate 64 b'0';
  tier_count = 2;
}

-- A failed transaction, then one that closes the attestation through another program.
abbrev node : HistoryNode
node = record {
  signatures = some (
      record { signature = codes "s1"; slot = 9; failed = true; block_time = none }
      ∷ record { signature = codes "s2"; slot = 8; failed = false; block_time = some 1500 }
      ∷ []);
  transaction = λ s. some (
      some (record {
        instructions =
            record { program_id = some (codes "other"); data_text = some (codes "x") } ∷ [];
        inner =
            (record { program_id = some (codes "sas"); data_text = some (codes "x") } ∷ []) ∷ [];
      }));
  sas_program = codes "sas";
  identify = λ data_text. some close_attestation;
}

abbrev live_chain : Chain
live_chain = record {
  schema = some schema;
  attestation = some account;
  node = node;
  decode_text = λ bytes. bytes;
  deserialize = λ s bytes. some raw;
}

abbrev closed_chain : Chain
closed_chain = record live_chain { attestation = none }

abbrev options : VerifyOptions
options = record {
  reference_id = upper_id;
  commitment = some lower_id;
  now = 1999000;
  check_revocation_history = true;
}

abbrev evidence : RevocationEvidence
evidence = record { signature = codes "s2"; slot = 8; block_time = some 1500; instruction = close }

abbrev live_result : VerifyResult
live_result = present_result live_chain lower_id (some lower_id) 1999000 account onchain

abbrev closed_result : VerifyResult
closed_result = bare_result closed_chain lower_id revoked (some evidence)

normalize_hex32-upper_id : normalize_hex32 upper_id ≡ some lower_id
unfolding normalize_hex32 is_hex32 strip_0x text_eq to_lower_case
normalize_hex32-upper_id = refl

normalize_hex32-lower_id : normalize_hex32 lower_id ≡ some lower_id
unfolding normalize_hex32 is_hex32 strip_0x text_eq to_lower_case
normalize_hex32-lower_id = refl

schema_matches : schema_matches_expected (λ bytes. bytes) schema ≡ true
unfolding schema_matches_expected numbers_equal texts_equal decode_field_names names_from text_eq
    encode_field_names
schema_matches = refl

verify-live : verify options live_chain ≡ ok live_result
unfolding verify verify_accounts normalize_hex32 is_hex32 strip_0x text_eq to_lower_case
    decode_reference_data hex_bytes bytes_to_hex32 schema_matches_expected numbers_equal texts_equal
    decode_field_names names_from encode_field_names
verify-live = refl

live-status : live_result.status ≡ valid
unfolding status_of hex_equal strip_0x text_eq to_lower_case differences
live-status = refl

verify-closed : verify options closed_chain ≡ ok closed_result
unfolding verify verify_accounts absent_result normalize_hex32 is_hex32 strip_0x text_eq
    to_lower_case find_revocation first_evidence successful identify_closing_instruction
    first_closing closing_of flat
verify-closed = refl

schema_fields-IsCoded : All (IsCoded (λ t. t) (λ bytes. bytes)) schema_fields
schema_fields-IsCoded = (
  (omega arith, refl),
  ((omega arith, refl), ((omega arith, refl), ((omega arith, refl), ((omega arith, refl), tt)))),
)

verify-IsLive_example : IsLive options live_chain
verify-IsLive_example = verify-IsLive options live_chain live_result verify-live live-status

verify-revoked_example :
    (closed_chain.attestation ≡ none)
    × ((e : RevocationEvidence) × (closed_result.revocation ≡ some e)
        × ((signatures : List SignatureInfo) × (node.signatures ≡ some signatures)
            × Any (IsEvidence node e) (take max_history_transactions (successful signatures))))
verify-revoked_example = verify-revoked options closed_chain closed_result verify-closed refl
