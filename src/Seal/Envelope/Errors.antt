-- ===== src/Seal/Envelope/Errors.antt =====
-- packages/seal/src/envelope.ts: the errors of decoding, none of which is an answer 404.
use zegel.Common.{
  ◌≡◌, refl, Bool, true, false, not, Option, none, some, length, ◌==◌, if◌then◌else◌,
}
use zegel.Common.Text.{Text, codes, text_eq}
use zegel.Common.Result.{Result, ok, err, ◌>>=◌, ◌>>◌, or_throw, throw_if}
use zegel.Sdk.Canonical.{
  Value, Fields, undefined, null, boolean, number, non_finite_number, bigint, string, array, object,
  function_or_symbol, member, Writer, Hashing, EncodeError, canonical_digest,
}
use zegel.Seal.Errors.{SealError, invalid_envelope, is_not_found}
use zegel.Seal.Receipt.{SealTierNumber, tier_1, tier_2}
use zegel.Seal.Envelope.{
  SealEnvelope, one, two, seal_envelope_schema, encoded, object_of, text_of, tier_of, check_schema,
  reference_of, read_fields, check_digest, decode_envelope,
}

-- A result that is no 404.
abbrev pub IsNot404 {ℓ} : {A : Type ℓ} → Result SealError A → Type 0
IsNot404 (ok a) = Unit
IsNot404 (err f) = is_not_found f ≡ false

bind-IsNot404 {ℓ κ} :
    {A : Type ℓ} {B : Type κ} (r : Result SealError A) (f : A → Result SealError B)
    → IsNot404 r
    → ((a : A) → IsNot404 (f a))
    → IsNot404 (r >>= f)
bind-IsNot404 (ok a) f h k = k a
bind-IsNot404 (err e) f h k = h

then-IsNot404 {κ} :
    {B : Type κ} (r : Result SealError (Unit {0})) (k : Result SealError B)
    → IsNot404 r
    → IsNot404 k
    → IsNot404 (r >> k)
then-IsNot404 (ok u) k h i = i
then-IsNot404 (err e) k h i = h

malformed : is_not_found invalid_envelope ≡ false
unfolding is_not_found
malformed = refl

throw_if-IsNot404 : (t : Bool) → IsNot404 (throw_if t invalid_envelope)
throw_if-IsNot404 true = malformed
throw_if-IsNot404 false = tt

or_throw-IsNot404 {ℓ} : {A : Type ℓ} (o : Option A) → IsNot404 (or_throw o invalid_envelope)
or_throw-IsNot404 none = malformed
or_throw-IsNot404 (some a) = tt

encoded-IsNot404 {ℓ} : {A : Type ℓ} (r : Result EncodeError A) → IsNot404 (encoded r)
unfolding is_not_found
encoded-IsNot404 (ok a) = tt
encoded-IsNot404 (err e) = refl

text_of-IsNot404 : (o : Option Value) → IsNot404 (text_of o)
unfolding text_of
text_of-IsNot404 none = malformed
text_of-IsNot404 (some undefined) = malformed
text_of-IsNot404 (some null) = malformed
text_of-IsNot404 (some (boolean b)) = malformed
text_of-IsNot404 (some (number n)) = malformed
text_of-IsNot404 (some non_finite_number) = malformed
text_of-IsNot404 (some (bigint n)) = malformed
text_of-IsNot404 (some (string s)) = tt
text_of-IsNot404 (some (array xs)) = malformed
text_of-IsNot404 (some (object fs)) = malformed
text_of-IsNot404 (some function_or_symbol) = malformed

tier_test :
    (a b : Bool) → IsNot404 (if a then ok tier_1 else if b then ok tier_2 else err invalid_envelope)
tier_test true b = tt
tier_test false true = tt
tier_test false false = malformed

tier_of-IsNot404 : (o : Option Value) → IsNot404 (tier_of o)
unfolding tier_of
tier_of-IsNot404 none = malformed
tier_of-IsNot404 (some undefined) = malformed
tier_of-IsNot404 (some null) = malformed
tier_of-IsNot404 (some (boolean b)) = malformed
tier_of-IsNot404 (some (number n)) = tier_test (n == one) (n == two)
tier_of-IsNot404 (some non_finite_number) = malformed
tier_of-IsNot404 (some (bigint n)) = malformed
tier_of-IsNot404 (some (string s)) = malformed
tier_of-IsNot404 (some (array xs)) = malformed
tier_of-IsNot404 (some (object fs)) = malformed
tier_of-IsNot404 (some function_or_symbol) = malformed

object_of-IsNot404 : (v : Value) → IsNot404 (object_of v)
unfolding object_of
object_of-IsNot404 undefined = malformed
object_of-IsNot404 null = malformed
object_of-IsNot404 (boolean b) = malformed
object_of-IsNot404 (number n) = malformed
object_of-IsNot404 non_finite_number = malformed
object_of-IsNot404 (bigint n) = malformed
object_of-IsNot404 (string s) = malformed
object_of-IsNot404 (array xs) = malformed
object_of-IsNot404 (object fs) = tt
object_of-IsNot404 function_or_symbol = malformed

check_schema-IsNot404 : (o : Option Value) → IsNot404 (check_schema o)
unfolding check_schema
check_schema-IsNot404 o =
    bind-IsNot404 (text_of o)
      (λ s. throw_if (not (text_eq s seal_envelope_schema)) invalid_envelope) (text_of-IsNot404 o)
      (λ s. throw_if-IsNot404 (not (text_eq s seal_envelope_schema)))

reference_of-IsNot404 : (o : Option Value) → IsNot404 (reference_of o)
unfolding reference_of
reference_of-IsNot404 o =
    bind-IsNot404 (text_of o) (λ s. throw_if (length s == 0) invalid_envelope >> ok s)
      (text_of-IsNot404 o)
      (λ s.
        then-IsNot404 (throw_if (length s == 0) invalid_envelope) (ok s)
          (throw_if-IsNot404 (length s == 0)) tt)

-- The fields, each read or refused.
abbrev assembled :
    Result SealError SealTierNumber
    → Result SealError Text
    → Result SealError Text
    → Result SealError Text
    → Result SealError Value
    → Result SealError SealEnvelope
assembled tier reference_id digest sealed_at payload = do
  t ← tier
  i ← reference_id
  d ← digest
  a ← sealed_at
  p ← payload
  ok (record { tier = t; reference_id = i; digest = d; sealed_at = a; payload = p })

assembled-IsNot404 :
    (t : Result SealError SealTierNumber) (i d a : Result SealError Text)
    (p : Result SealError Value)
    → IsNot404 t
    → IsNot404 i
    → IsNot404 d
    → IsNot404 a
    → IsNot404 p
    → IsNot404 (assembled t i d a p)
assembled-IsNot404 (err e) i d a p ht hi hd ha hp = ht
assembled-IsNot404 (ok t) (err e) d a p ht hi hd ha hp = hi
assembled-IsNot404 (ok t) (ok i) (err e) a p ht hi hd ha hp = hd
assembled-IsNot404 (ok t) (ok i) (ok d) (err e) p ht hi hd ha hp = ha
assembled-IsNot404 (ok t) (ok i) (ok d) (ok a) (err e) ht hi hd ha hp = hp
assembled-IsNot404 (ok t) (ok i) (ok d) (ok a) (ok p) ht hi hd ha hp = tt

read_fields-IsNot404 : (c : Fields) → IsNot404 (read_fields c)
unfolding read_fields
read_fields-IsNot404 c =
    assembled-IsNot404 (tier_of (member (codes "tier") c))
      (reference_of (member (codes "referenceId") c)) (text_of (member (codes "digest") c))
      (text_of (member (codes "sealedAt") c))
      (or_throw (member (codes "payload") c) invalid_envelope)
      (tier_of-IsNot404 (member (codes "tier") c))
      (reference_of-IsNot404 (member (codes "referenceId") c))
      (text_of-IsNot404 (member (codes "digest") c))
      (text_of-IsNot404 (member (codes "sealedAt") c))
      (or_throw-IsNot404 (member (codes "payload") c))

module _ (w : Writer) (h : Hashing) where
  check_digest-IsNot404 : (e : SealEnvelope) → IsNot404 (check_digest w h e)
  unfolding check_digest
  check_digest-IsNot404 e =
      bind-IsNot404 (encoded (canonical_digest w h e.payload))
        (λ d. throw_if (not (text_eq d e.digest)) invalid_envelope)
        (encoded-IsNot404 (canonical_digest w h e.payload))
        (λ d. throw_if-IsNot404 (not (text_eq d e.digest)))

  abbrev digest_part : SealEnvelope → Result SealError SealEnvelope
  digest_part e = check_digest w h e >> ok e

  abbrev fields_part : Fields → Result SealError SealEnvelope
  fields_part c = check_schema (member (codes "schema") c) >> (read_fields c >>= digest_part)

  abbrev object_part : Value → Result SealError SealEnvelope
  object_part v = object_of v >>= fields_part

  digest_part-IsNot404 : (e : SealEnvelope) → IsNot404 (digest_part e)
  digest_part-IsNot404 e = then-IsNot404 (check_digest w h e) (ok e) (check_digest-IsNot404 e) tt

  fields_part-IsNot404 : (c : Fields) → IsNot404 (fields_part c)
  fields_part-IsNot404 c =
      then-IsNot404 (check_schema (member (codes "schema") c)) (read_fields c >>= digest_part)
        (check_schema-IsNot404 (member (codes "schema") c))
        (bind-IsNot404 (read_fields c) digest_part (read_fields-IsNot404 c) digest_part-IsNot404)

  object_part-IsNot404 : (v : Value) → IsNot404 (object_part v)
  object_part-IsNot404 v =
      bind-IsNot404 (object_of v) fields_part (object_of-IsNot404 v) fields_part-IsNot404

  pub decode_envelope-IsNot404 :
      (parse : Text → Option Value) (text : Text) → IsNot404 (decode_envelope w h parse text)
  unfolding decode_envelope
  decode_envelope-IsNot404 parse text =
      bind-IsNot404 (or_throw (parse text) invalid_envelope) object_part
        (or_throw-IsNot404 (parse text)) object_part-IsNot404
