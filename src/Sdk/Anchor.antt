-- ===== src/Sdk/Anchor.antt =====
-- packages/sdk/src/verify.ts: the check of a reference against its anchor.
pub mod Laws
use zegel.Common.{ℕ, ◌==◌, Bool, true, false, not, ◌&&◌, Option, none, some, if◌then◌else◌}
use zegel.Common.Text.{Text}
use zegel.Common.Result.{Result, ok, err}
use zegel.Sdk.Canonical.{Value, Writer, Hashing, EncodeError, canonical_digest, digests_equal}

pub data AnchorStatus : Type 0 where
  never_anchored valid expired revoked commitment_mismatch : AnchorStatus

pub record AnchorRecord : Type 0 where
  pub commitment : Text
  pub issuer : Text
  pub expires_at : ℕ
  pub anchored_at : ℕ
  pub revoked_at : ℕ

-- The fields of the envelope that the check reads.
pub record SealedEnvelope : Type 0 where
  pub reference_id : Text
  pub commitment : Text

-- `client.readContract` at the anchor's address: `verify` and `getAnchor`. `none` is a call that throws.
pub record AnchorClient : Type 0 where
  pub verify : Text → Text → Option ℕ
  pub get_anchor : Text → Option AnchorRecord

-- The five sentences, and that for a live anchor whose envelope does not match the claims.
pub data Summary : Type 0 where
  never_anchored_here has_expired was_revoked claims_not_sealed : Summary
  claims_differ_from_envelope claims_match : Summary

pub record VerificationReport : Type 0 where
  pub anchor : AnchorStatus
  pub commitment_matches : Option Bool
  pub ok : Bool
  pub summary : Summary
  pub on_chain : Option AnchorRecord

-- `TypeError` of the encoding, or a call of the contract that throws.
pub data VerifyError : Type 0 where
  not_encodable : EncodeError → VerifyError
  contract_unreadable : VerifyError

-- `ANCHOR_STATUS[Number(statusIndex)] ?? 'never-anchored'`
unfoldable pub status_at : ℕ → AnchorStatus
status_at n =
    if n == 1
    then valid
    else if n == 2
    then expired
    else if n == 3
    then revoked
    else if n == 4
    then commitment_mismatch
    else never_anchored

abbrev says_valid : AnchorStatus → Bool
says_valid valid = true
says_valid _ = false

abbrev is_some_false : Option Bool → Bool
is_some_false (some false) = true
is_some_false _ = false

unfoldable pub summarise : AnchorStatus → Option Bool → Summary
summarise never_anchored matches = never_anchored_here
summarise expired matches = has_expired
summarise revoked matches = was_revoked
summarise commitment_mismatch matches = claims_not_sealed
summarise valid matches =
    if is_some_false matches then claims_differ_from_envelope else claims_match

unfoldable pub report_of : AnchorStatus → Option Bool → Option AnchorRecord → VerificationReport
report_of anchor matches on_chain = record {
  anchor = anchor;
  commitment_matches = matches;
  ok = says_valid anchor && not (is_some_false matches);
  summary = summarise anchor matches;
  on_chain = on_chain;
}

-- The digest of the claims shown, or an error, if claims are shown.
unfoldable pub shown_digest : Writer → Hashing → Option Value → Result VerifyError (Option Text)
shown_digest w h none = ok none
shown_digest w h (some claims) = elim (canonical_digest w h claims) [
  | ok d ↦ ok (some d)
  | err e ↦ err (not_encodable e)
]

-- The commitment to ask the contract about.
abbrev pub asked : SealedEnvelope → Option Text → Text
asked envelope none = envelope.commitment
asked envelope (some d) = d

abbrev matches_envelope : SealedEnvelope → Option Text → Option Bool
matches_envelope envelope none = none
matches_envelope envelope (some d) = some (digests_equal d envelope.commitment)

unfoldable pub read_anchor :
    AnchorClient → SealedEnvelope → Option Text → Result VerifyError VerificationReport
read_anchor client envelope shown =
    elim (client.verify envelope.reference_id (asked envelope shown)) [
      | none ↦ err contract_unreadable
      | some index ↦ ok (
          report_of (status_at index) (matches_envelope envelope shown)
            (client.get_anchor envelope.reference_id))
    ]

unfoldable pub verify_anchor :
    Writer
    → Hashing
    → AnchorClient
    → SealedEnvelope
    → Option Value
    → Result VerifyError VerificationReport
verify_anchor w h client envelope claims = elim (shown_digest w h claims) [
  | err e ↦ err e
  | ok shown ↦ read_anchor client envelope shown
]

-- `commitmentFor`
unfoldable pub commitment_for : Writer → Hashing → Value → Result EncodeError Text
commitment_for w h claims = canonical_digest w h claims
