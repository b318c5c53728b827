-- ===== src/Seal/Envelope/Read.antt =====
-- packages/seal/src/envelope.ts: the reader of the fields, by the fields that it finds.
use zegel.Common.{
  ◌≡◌, refl, subst, ap, ◌∙◌, ◌≢◌, ℕ, Option, none, some, length, ==_iff, arith, inl, inr, false,
  ◌==◌, Option-cases,
}
use zegel.Common.Text.{Text, codes, text_eq_iff}
use zegel.Common.Result.{ok, Result-cases}
use zegel.Sdk.Canonical.{
  Value, Fields, undefined, null, boolean, number, non_finite_number, bigint, string, array, object,
  function_or_symbol, member,
}
use zegel.Seal.Receipt.{SealTierNumber, tier_1, tier_2}
use zegel.Seal.Envelope.{
  SealEnvelope, one, two, seal_envelope_schema, tier_value, object_of, text_of, tier_of,
  check_schema, reference_of, read_fields,
}

text_of-eq-ok : (o : Option Value) (s : Text) → text_of o ≡ ok s → o ≡ some (string s)
unfolding text_of
text_of-eq-ok none t h = absurd cc
text_of-eq-ok (some undefined) t h = absurd cc
text_of-eq-ok (some null) t h = absurd cc
text_of-eq-ok (some (boolean b)) t h = absurd cc
text_of-eq-ok (some (number n)) t h = absurd cc
text_of-eq-ok (some non_finite_number) t h = absurd cc
text_of-eq-ok (some (bigint n)) t h = absurd cc
text_of-eq-ok (some (string s)) t h = cc
text_of-eq-ok (some (array xs)) t h = absurd cc
text_of-eq-ok (some (object fs)) t h = absurd cc
text_of-eq-ok (some function_or_symbol) t h = absurd cc

tier_of-eq-ok : (o : Option Value) (t : SealTierNumber) → tier_of o ≡ ok t → o ≡ some (tier_value t)
unfolding tier_of
tier_of-eq-ok none t h = absurd cc
tier_of-eq-ok (some undefined) t h = absurd cc
tier_of-eq-ok (some null) t h = absurd cc
tier_of-eq-ok (some (boolean b)) t h = absurd cc
tier_of-eq-ok (some (number n)) tier_1 h = ground (arith, ==_iff n one, ==_iff n two)
tier_of-eq-ok (some (number n)) tier_2 h = ground (arith, ==_iff n one, ==_iff n two)
tier_of-eq-ok (some non_finite_number) t h = absurd cc
tier_of-eq-ok (some (bigint n)) t h = absurd cc
tier_of-eq-ok (some (string s)) t h = absurd cc
tier_of-eq-ok (some (array xs)) t h = absurd cc
tier_of-eq-ok (some (object fs)) t h = absurd cc
tier_of-eq-ok (some function_or_symbol) t h = absurd cc

pub object_of-eq-ok : (v : Value) (fs : Fields) → object_of v ≡ ok fs → v ≡ object fs
unfolding object_of
object_of-eq-ok undefined fs h = absurd cc
object_of-eq-ok null fs h = absurd cc
object_of-eq-ok (boolean b) fs h = absurd cc
object_of-eq-ok (number n) fs h = absurd cc
object_of-eq-ok non_finite_number fs h = absurd cc
object_of-eq-ok (bigint n) fs h = absurd cc
object_of-eq-ok (string s) fs h = absurd cc
object_of-eq-ok (array xs) fs h = absurd cc
object_of-eq-ok (object gs) fs h = cc
object_of-eq-ok function_or_symbol fs h = absurd cc

-- The fields that a decoded envelope is read from.
pub record HasFields (c : Fields) (e : SealEnvelope) : Type 0 where
  pub schema : member (codes "schema") c ≡ some (string seal_envelope_schema)
  pub tier : member (codes "tier") c ≡ some (tier_value e.tier)
  pub reference_id : member (codes "referenceId") c ≡ some (string e.reference_id)
  pub named : length e.reference_id ≢ 0
  pub digest : member (codes "digest") c ≡ some (string e.digest)
  pub sealed_at : member (codes "sealedAt") c ≡ some (string e.sealed_at)
  pub payload : member (codes "payload") c ≡ some e.payload

pub check_schema-eq-ok :
    (o : Option Value) → check_schema o ≡ ok tt → o ≡ some (string seal_envelope_schema)
unfolding check_schema
check_schema-eq-ok o h = elim (Result-cases (text_of o)) [
  | inr (f, e) ↦ absurd (ground arith)
  | inl (s, e) ↦
      text_of-eq-ok o s e
      ∙ ap (λ t. some (string t)) (ground (arith, text_eq_iff s seal_envelope_schema))
]

reference_of-eq-ok :
    (o : Option Value) (s : Text) → reference_of o ≡ ok s → (o ≡ some (string s)) × (length s ≢ 0)
unfolding reference_of
reference_of-eq-ok o s h = elim (Result-cases (text_of o)) [
  | inr (f, e) ↦ absurd (ground arith)
  | inl (t, e) ↦ let q = text_of-eq-ok o t e in (ground arith, ground arith)
]

pub read_fields-eq-ok :
    (c : Fields) (e : SealEnvelope)
    → member (codes "schema") c ≡ some (string seal_envelope_schema)
    → read_fields c ≡ ok e
    → HasFields c e
unfolding read_fields
read_fields-eq-ok c e schema h = elim (Result-cases (tier_of (member (codes "tier") c))) [
  | inr (f, q) ↦ absurd (ground arith)
  | inl (t, q) ↦ elim (Result-cases (reference_of (member (codes "referenceId") c))) [
    | inr (f, r) ↦ absurd (ground arith)
    | inl (i, r) ↦ elim (Result-cases (text_of (member (codes "digest") c))) [
      | inr (f, d) ↦ absurd (ground arith)
      | inl (g, d) ↦ elim (Result-cases (text_of (member (codes "sealedAt") c))) [
        | inr (f, a) ↦ absurd (ground arith)
        | inl (u, a) ↦ elim (Option-cases (member (codes "payload") c)) [
          | inl p ↦ absurd (ground arith)
          | inr (v, p) ↦
              let same : record {
                tier = t;
                reference_id = i;
                digest = g;
                sealed_at = u;
                payload = v;
              }
                  ≡ e =
                ground arith in
              let ref = reference_of-eq-ok (member (codes "referenceId") c) i r in
              subst (HasFields c) same (record {
                schema = schema;
                tier = tier_of-eq-ok (member (codes "tier") c) t q;
                reference_id = ref.0;
                named = ref.1;
                digest = text_of-eq-ok (member (codes "digest") c) g d;
                sealed_at = text_of-eq-ok (member (codes "sealedAt") c) u a;
                payload = p;
              })
        ]
      ]
    ]
  ]
]

tier_of-tier_value : (t : SealTierNumber) → tier_of (some (tier_value t)) ≡ ok t
unfolding tier_of
tier_of-tier_value tier_1 = refl
tier_of-tier_value tier_2 = refl

pub not_zero : (n : ℕ) → n ≢ 0 → (n == 0) ≡ false
not_zero n h = ground arith

pub HasFields-read_fields : (c : Fields) (e : SealEnvelope) → HasFields c e → read_fields c ≡ ok e
unfolding read_fields reference_of text_of
HasFields-read_fields c e f =
    rw
      (
        f.tier,
        f.reference_id,
        f.digest,
        f.sealed_at,
        f.payload,
        tier_of-tier_value e.tier,
        not_zero (length e.reference_id) f.named,
      )
      refl
