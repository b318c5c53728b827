-- ===== src/Solana/Verify.antt =====
-- solana/src/verify.ts: the verdict on a reference. The model begins behind the derivation of the
-- addresses; the two accounts fetched, the node and sas-lib are parameters. `detail` and the fields
-- that repeat an address are left out. Times are milliseconds since 1970.
pub mod Laws
pub mod Issued
use zegel.Common.{
  ℕ, ◌/◌, Bool, true, false, not, ◌&&◌, Option, none, some, List, leb, ◌==◌, if◌then◌else◌,
}
use zegel.Common.Text.{Text}
use zegel.Common.Result.{Result, ok, err, ◌>>=◌, or_throw}
use zegel.Solana.Hex.{normalize_hex32, hex_equal}
use zegel.Solana.Schema.{
  SchemaAccount, RawData, ReferenceAttestationData, schema_matches_expected, decode_reference_data,
}
use zegel.Solana.Revocation.{HistoryNode, RevocationEvidence, RevocationSearch, find_revocation}

pub data ReferenceStatus : Type 0 where
  valid expired revoked not_found commitment_mismatch reference_mismatch schema_paused :
      ReferenceStatus

pub data VerifyError : Type 0 where
  hex_error schema_drift : VerifyError

pub record VerifyOptions : Type 0 where
  pub reference_id : Text
  pub commitment : Option Text
  pub now : ℕ
  pub check_revocation_history : Bool

pub record AttestationAccount : Type 0 where
  pub data_bytes : List ℕ
  pub expiry : ℕ
  pub token_account : Text

-- What the chain and the libraries answer.
pub record Chain : Type 0 where
  pub schema : Option SchemaAccount
  pub attestation : Option AttestationAccount
  pub node : HistoryNode
  pub decode_text : List ℕ → Text
  pub deserialize : SchemaAccount → List ℕ → Option RawData

pub record VerifyResult : Type 0 where
  pub status : ReferenceStatus
  pub reference_id : Text
  pub onchain : Option ReferenceAttestationData
  pub token_account : Option Text
  pub is_paused : Bool
  pub matches_expected : Bool
  pub revocation : Option RevocationEvidence

abbrev pub paused_of : Option SchemaAccount → Bool
paused_of none = false
paused_of (some s) = s.is_paused

abbrev pub matches_of : Chain → Option SchemaAccount → Bool
matches_of chain none = false
matches_of chain (some s) = schema_matches_expected chain.decode_text s

-- A result without the attestation's data.
abbrev pub bare_result : Chain → Text → ReferenceStatus → Option RevocationEvidence → VerifyResult
bare_result chain id status evidence = record {
  status = status;
  reference_id = id;
  onchain = none;
  token_account = none;
  is_paused = paused_of chain.schema;
  matches_expected = matches_of chain chain.schema;
  revocation = evidence;
}

-- Without an account: revoked if the history shows it.
unfoldable pub absent_result : Chain → Text → Bool → VerifyResult
absent_result chain id check =
    if check
    then elim (find_revocation chain.node).evidence [
      | some e ↦ bare_result chain id revoked (some e)
      | none ↦ bare_result chain id not_found none
    ]
    else bare_result chain id not_found none

-- `commitment !== undefined && !hexEqual(onchain.commitment, commitment)`
abbrev pub contradicts : Text → Option Text → Bool
contradicts anchored none = false
contradicts anchored (some c) = not (hex_equal anchored c)

-- The verdict on data that could be read, in the order of the checks.
unfoldable pub status_of :
    Text → Option Text → ℕ → Bool → AttestationAccount → ReferenceAttestationData → ReferenceStatus
status_of id commitment now paused account onchain =
    if not (hex_equal onchain.reference_id id)
    then reference_mismatch
    else if contradicts onchain.commitment commitment
    then commitment_mismatch
    else if paused
    then schema_paused
    else if not (account.expiry == 0) && leb account.expiry (now / 1000)
    then expired
    else valid

abbrev pub present_result :
    Chain → Text → Option Text → ℕ → AttestationAccount → ReferenceAttestationData → VerifyResult
present_result chain id commitment now account onchain = record {
  status = status_of id commitment now (paused_of chain.schema) account onchain;
  reference_id = id;
  onchain = some onchain;
  token_account = some account.token_account;
  is_paused = paused_of chain.schema;
  matches_expected = matches_of chain chain.schema;
  revocation = none;
}

-- `rawCommitment === undefined ? undefined : normalizeHex32(…)`
abbrev pub optional_hex32 : Option Text → Result VerifyError (Option Text)
optional_hex32 none = ok none
optional_hex32 (some c) = elim (normalize_hex32 c) [ none ↦ err hex_error | some n ↦ ok (some n) ]

unfoldable pub verify_accounts :
    Chain
    → Bool
    → ℕ
    → Text
    → Option Text
    → Option SchemaAccount
    → Option AttestationAccount
    → Result VerifyError VerifyResult
verify_accounts chain check now id commitment none account =
    ok (bare_result chain id not_found none)
verify_accounts chain check now id commitment (some schema) none = ok (absent_result chain id check)
verify_accounts chain check now id commitment (some schema) (some account) =
    if not (schema_matches_expected chain.decode_text schema)
    then err schema_drift
    else elim (decode_reference_data chain.deserialize account.data_bytes schema) [
      | none ↦ err schema_drift
      | some onchain ↦ ok (present_result chain id commitment now account onchain)
    ]

unfoldable pub verify : VerifyOptions → Chain → Result VerifyError VerifyResult
verify o chain = do
  id ← or_throw (normalize_hex32 o.reference_id) hex_error
  commitment ← optional_hex32 o.commitment
  verify_accounts chain o.check_revocation_history o.now id commitment chain.schema
      chain.attestation
