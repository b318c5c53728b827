-- ===== src/Seal/Envelope.antt =====
-- packages/seal/src/envelope.ts: what goes on Swarm inside the access control. `JSON.parse` is a
-- parameter, where `none` is a text that it refuses; UTF-8 is left to the client.
pub mod Read
pub mod Laws
pub mod Errors
use zegel.Common.{ℕ, Bool, not, Option, none, some, List, [], length, ◌==◌, if◌then◌else◌}
use zegel.Common.Text.{Text, codes, text_eq}
use zegel.Common.Result.{Result, ok, err, ◌>>=◌, ◌>>◌, or_throw, throw_if}
use zegel.Sdk.Canonical.{
  Value, Fields, number, string, object, end, field, member, Writer, Hashing, EncodeError,
  canonical_digest, canonicalize,
}
use zegel.Seal.Errors.{SealError, invalid_envelope, upstream}
use zegel.Seal.Receipt.{SealTierNumber, tier_1, tier_2}

abbrev pub seal_envelope_schema : Text
seal_envelope_schema = codes "zegel.seal.v1"

-- The doubles 1 and 2.
abbrev pub one : ℕ
one = 0x3FF0000000000000

abbrev pub two : ℕ
two = 0x4000000000000000

-- Its `schema` is always the one above.
pub record SealEnvelope : Type 0 where
  pub tier : SealTierNumber
  pub reference_id : Text
  pub digest : Text
  pub sealed_at : Text
  pub payload : Value

pub record EncodeEnvelopeInput : Type 0 where
  pub tier : SealTierNumber
  pub reference_id : Text
  pub payload : Value
  pub sealed_at : Option Text

-- A `TypeError` of the encoder is an exception without a status.
abbrev pub encoded {ℓ} : {A : Type ℓ} → Result EncodeError A → Result SealError A
encoded (ok a) = ok a
encoded (err e) = err (upstream none)

abbrev or_now : Option Text → Text → Text
or_now none now = now
or_now (some t) now = t

abbrev pub tier_value : SealTierNumber → Value
tier_value tier_1 = number one
tier_value tier_2 = number two

-- The object that the record stands for.
abbrev pub envelope_fields : SealEnvelope → Fields
envelope_fields e = field (codes "schema") (string seal_envelope_schema) (
    field (codes "tier") (tier_value e.tier) (
      field (codes "referenceId") (string e.reference_id) (
        field (codes "digest") (string e.digest)
          (field (codes "sealedAt") (string e.sealed_at) (field (codes "payload") e.payload end)))))

unfoldable pub object_of : Value → Result SealError Fields
object_of (object fs) = ok fs
object_of _ = err invalid_envelope

unfoldable pub text_of : Option Value → Result SealError Text
text_of (some (string s)) = ok s
text_of _ = err invalid_envelope

unfoldable pub tier_of : Option Value → Result SealError SealTierNumber
tier_of (some (number n)) =
    if n == one then ok tier_1 else if n == two then ok tier_2 else err invalid_envelope
tier_of _ = err invalid_envelope

unfoldable pub check_schema : Option Value → Result SealError (Unit {0})
check_schema value = do
  s ← text_of value
  throw_if (not (text_eq s seal_envelope_schema)) invalid_envelope

unfoldable pub reference_of : Option Value → Result SealError Text
reference_of value = do s ← text_of value; throw_if (length s == 0) invalid_envelope; ok s

-- The fields of a candidate, after the schema.
unfoldable pub read_fields : Fields → Result SealError SealEnvelope
read_fields candidate = do
  tier ← tier_of (member (codes "tier") candidate)
  reference_id ← reference_of (member (codes "referenceId") candidate)
  digest ← text_of (member (codes "digest") candidate)
  sealed_at ← text_of (member (codes "sealedAt") candidate)
  payload ← or_throw (member (codes "payload") candidate) invalid_envelope
  ok (record {
    tier = tier;
    reference_id = reference_id;
    digest = digest;
    sealed_at = sealed_at;
    payload = payload;
  })

module _ (w : Writer) (h : Hashing) where
  -- `now` is `new Date().toISOString()`.
  unfoldable pub make_envelope : Text → EncodeEnvelopeInput → Result SealError SealEnvelope
  make_envelope now input = do
    digest ← encoded (canonical_digest w h input.payload)
    ok (record {
      tier = input.tier;
      reference_id = input.reference_id;
      digest = digest;
      sealed_at = or_now input.sealed_at now;
      payload = input.payload;
    })

  unfoldable pub encode_envelope_object : SealEnvelope → Result SealError Text
  encode_envelope_object e = encoded (canonicalize w (object (envelope_fields e)))

  unfoldable pub encode_envelope : Text → EncodeEnvelopeInput → Result SealError Text
  encode_envelope now input = do e ← make_envelope now input; encode_envelope_object e

  -- The digest is that of the payload.
  unfoldable pub check_digest : SealEnvelope → Result SealError (Unit {0})
  check_digest e = do
    recomputed ← encoded (canonical_digest w h e.payload)
    throw_if (not (text_eq recomputed e.digest)) invalid_envelope

  unfoldable pub decode_envelope : (Text → Option Value) → Text → Result SealError SealEnvelope
  decode_envelope parse text = do
    parsed ← or_throw (parse text) invalid_envelope
    candidate ← object_of parsed
    check_schema (member (codes "schema") candidate)
    e ← read_fields candidate
    check_digest e
    ok e
