-- ===== src/Seal/Envelope/Laws.antt =====
-- packages/seal/src/envelope.ts: what a decoded envelope is, and envelopes that come back.
use zegel.Common.{
  ◌≡◌, refl, sym, ap, ◌∙◌, ◌↔◌, ◌≢◌, Option, some, [], ◌∷◌, All, length, arith, inl, inr,
  Option-cases,
}
use zegel.Common.Text.{Text, codes, text_eq, text_eq_iff, text_eq_refl}
use zegel.Common.Result.{ok, Result-cases}
use zegel.Sdk.Canonical.{Value, Fields, object, member, Writer, Hashing, canonical_digest}
use zegel.Sdk.Canonical.Laws.{Same, canonical_digest-Same}
use zegel.Seal.Envelope.{
  SealEnvelope, EncodeEnvelopeInput, seal_envelope_schema, envelope_fields, make_envelope,
  object_of, text_of, check_schema, read_fields, check_digest, decode_envelope,
}
use zegel.Seal.Envelope.Read.{
  HasFields, HasFields-read_fields, check_schema-eq-ok, object_of-eq-ok, read_fields-eq-ok,
}

-- The six members of an envelope, whatever their order.
abbrev pub HasMembers : Fields → SealEnvelope → Type 0
HasMembers read e =
    All (λ name. member name read ≡ member name (envelope_fields e))
      (codes "schema"
        ∷ codes "tier"
        ∷ codes "referenceId"
        ∷ codes "digest"
        ∷ codes "sealedAt"
        ∷ codes "payload"
        ∷ [])

module _ (w : Writer) (h : Hashing) where
  check_digest_iff :
      (e : SealEnvelope)
      → (check_digest w h e ≡ ok tt) ↔ (canonical_digest w h e.payload ≡ ok e.digest)
  unfolding check_digest
  check_digest_iff e = elim (Result-cases (canonical_digest w h e.payload)) [
    | inr (f, q) ↦ (λ k. absurd (ground arith), λ k. absurd (ground arith))
    | inl (d, q) ↦ ground (arith, text_eq_iff d e.digest)
  ]

  -- The JSON of an object with these fields, of which the digest is the payload's.
  pub record IsSealed (parse : Text → Option Value) (text : Text) (e : SealEnvelope) : Type 0 where
    pub candidate : Fields
    pub parsed : parse text ≡ some (object candidate)
    pub fields : HasFields candidate e
    pub digested : canonical_digest w h e.payload ≡ ok e.digest

  decode_envelope-IsSealed :
      (parse : Text → Option Value) (text : Text) (e : SealEnvelope)
      → decode_envelope w h parse text ≡ ok e
      → IsSealed parse text e
  unfolding decode_envelope
  decode_envelope-IsSealed parse text e k = elim (Option-cases (parse text)) [
    | inl p ↦ absurd (ground arith)
    | inr (v, p) ↦ elim (Result-cases (object_of v)) [
      | inr (f, o) ↦ absurd (ground arith)
      | inl (c, o) ↦ elim (Result-cases (check_schema (member (codes "schema") c))) [
        | inr (f, s) ↦ absurd (ground arith)
        | inl (u, s) ↦ elim (Result-cases (read_fields c)) [
          | inr (f, r) ↦ absurd (ground arith)
          | inl (g, r) ↦
              let same : g ≡ e = ground arith in
              let schema = check_schema-eq-ok (member (codes "schema") c) s in
              record {
                candidate = c;
                parsed = p ∙ ap some (object_of-eq-ok v c o);
                fields = read_fields-eq-ok c e schema (r ∙ ap ok same);
                digested = (check_digest_iff e).0 (ground arith);
              }
        ]
      ]
    ]
  ]

  IsSealed-decode_envelope :
      (parse : Text → Option Value) (text : Text) (e : SealEnvelope)
      → IsSealed parse text e
      → decode_envelope w h parse text ≡ ok e
  unfolding decode_envelope object_of check_schema text_of
  IsSealed-decode_envelope parse text e s =
      rw
        (
          s.parsed,
          s.fields.schema,
          text_eq_refl seal_envelope_schema,
          HasFields-read_fields s.candidate e s.fields,
          (check_digest_iff e).1 s.digested,
        )
        refl

  -- A text is decoded to an envelope exactly if it is sealed as one.
  pub decode_envelope_iff :
      (parse : Text → Option Value) (text : Text) (e : SealEnvelope)
      → (decode_envelope w h parse text ≡ ok e) ↔ IsSealed parse text e
  decode_envelope_iff parse text e =
      (decode_envelope-IsSealed parse text e, IsSealed-decode_envelope parse text e)

  -- An envelope that is made, written and read back is the one that was made, but for the payload,
  -- which is read as one with the same canonical digest.
  pub make_envelope-IsSealed :
      (parse : Text → Option Value) (now : Text) (input : EncodeEnvelopeInput) (e : SealEnvelope)
      (text : Text) (read : Fields) (payload : Value)
      → make_envelope w h now input ≡ ok e
      → parse text ≡ some (object read)
      → Same input.payload payload
      → HasMembers read (record e { payload = payload })
      → length input.reference_id ≢ 0
      → IsSealed parse text (record e { payload = payload })
  unfolding make_envelope member text_eq
  make_envelope-IsSealed parse now input e text read payload made parsed alike members named =
      elim (Result-cases (canonical_digest w h input.payload)) [
        | inr (f, q) ↦ absurd (ground arith)
        | inl (d, q) ↦
            let digest : d ≡ e.digest = ground arith in
            let reference : input.reference_id ≡ e.reference_id = ground arith in
            record {
              candidate = read;
              parsed = parsed;
              fields = record {
                schema = members.0;
                tier = members.1.0;
                reference_id = members.1.1.0;
                named = λ z. named (ap length reference ∙ z);
                digest = members.1.1.1.0;
                sealed_at = members.1.1.1.1.0;
                payload = members.1.1.1.1.1.0;
              };
              digested =
                  sym (canonical_digest-Same w h input.payload payload alike) ∙ q ∙ ap ok digest;
            }
      ]
