-- ===== src/Seal/Client/Access/Laws.antt =====
-- packages/seal/src/client.ts: when a read is granted, and what is sealed can be read.
use zegel.Common.{
  ◌≡◌, refl, ap, subst, ◌∙◌, inl, inr, ◌≢◌, ◌↔◌, true, false, Option, some, List, length, arith,
  Option-cases,
}
use zegel.Common.Text.{Text}
use zegel.Common.Result.{ok, err, Result-cases}
use zegel.Sdk.Canonical.Laws.{Same}
use zegel.Sdk.Canonical.{Value, Fields, object}
use zegel.Seal.Errors.{SealError, is_not_found}
use zegel.Seal.Refs.{swarm_reference, history_address}
use zegel.Seal.Receipt.{SealReceipt, SealCoordinates, coordinates_of}
use zegel.Seal.Envelope.{SealEnvelope, make_envelope, encode_envelope_object, decode_envelope}
use zegel.Seal.Envelope.Laws.{IsSealed, HasMembers, decode_envelope_iff, make_envelope-IsSealed}
use zegel.Seal.Envelope.Read.{not_zero}
use zegel.Seal.Envelope.Errors.{IsNot404, decode_envelope-IsNot404}
use zegel.Seal.Client.{Backend, Services, Event, Uploaded, SealOptions, non_empty, seal}
use zegel.Seal.Client.Laws.{input_of, seal-IsSealed}
use zegel.Seal.Client.Access.{granted, not_granted, unseal_envelope, unseal}

coordinates_of-eq-ok :
    (r : SealReceipt) (c : SealCoordinates)
    → coordinates_of r ≡ ok c
    → (r.swarm_ref ≡ c.swarm_ref) × (r.act_history_address ≡ c.act_history_address)
unfolding coordinates_of
coordinates_of-eq-ok r c h = elim (Option-cases r.act_publisher) [
  | inl n ↦ absurd (ground arith)
  | inr (p, n) ↦ (ground arith, ground arith)
]

module _ (b : Backend) (s : Services) where
  decode_envelope_found :
      (text : Text) (f : SealError)
      → decode_envelope s.writer s.hashing s.json_parse text ≡ err f
      → is_not_found f ≡ false
  decode_envelope_found text f h =
      subst IsNot404 h (decode_envelope-IsNot404 s.writer s.hashing s.json_parse text)

  -- The node answered with a sealed envelope that carries this payload.
  pub record IsGranted (c : SealCoordinates) (at : Option Text) (payload : Value) : Type 0 where
    pub publisher_known : length c.act_publisher ≢ 0
    pub text : Text
    pub downloaded : b.download c at ≡ ok text
    pub envelope : SealEnvelope
    pub sealed : IsSealed s.writer s.hashing s.json_parse text envelope
    pub same_payload : envelope.payload ≡ payload

  -- The node answered 404.
  pub record IsRefused (c : SealCoordinates) (at : Option Text) : Type 0 where
    pub publisher_known : length c.act_publisher ≢ 0
    pub failure : SealError
    pub refused : b.download c at ≡ err failure
    pub missing : is_not_found failure ≡ true

  unseal-IsGranted :
      (c : SealCoordinates) (at : Option Text) (payload : Value)
      → unseal b s c at ≡ ok (granted payload)
      → IsGranted c at payload
  unfolding unseal unseal_envelope
  unseal-IsGranted c at payload h = elim (Result-cases (b.download c at)) [
    | inr (f, d) ↦ absurd (ground arith)
    | inl (text, d) ↦ elim (Result-cases (decode_envelope s.writer s.hashing s.json_parse text)) [
      | inr (f, e) ↦ absurd (ground (arith, decode_envelope_found text f))
      | inl (envelope, e) ↦ record {
        publisher_known = ground arith;
        text = text;
        downloaded = d;
        envelope = envelope;
        sealed = (decode_envelope_iff s.writer s.hashing s.json_parse text envelope).0 e;
        same_payload = ground arith;
      }
    ]
  ]

  unseal-IsRefused :
      (c : SealCoordinates) (at : Option Text) → unseal b s c at ≡ ok not_granted → IsRefused c at
  unfolding unseal unseal_envelope
  unseal-IsRefused c at h = elim (Result-cases (b.download c at)) [
    | inr (f, d) ↦ record {
      publisher_known = ground arith;
      failure = f;
      refused = d;
      missing = ground arith;
    }
    | inl (text, d) ↦ elim (Result-cases (decode_envelope s.writer s.hashing s.json_parse text)) [
      | inr (f, e) ↦ absurd (ground (arith, decode_envelope_found text f))
      | inl (envelope, e) ↦ absurd (ground arith)
    ]
  ]

  IsGranted-unseal :
      (c : SealCoordinates) (at : Option Text) (payload : Value)
      → IsGranted c at payload
      → unseal b s c at ≡ ok (granted payload)
  unfolding unseal unseal_envelope
  IsGranted-unseal c at payload g =
      rw
        (
          not_zero (length c.act_publisher) g.publisher_known,
          g.downloaded,
          (decode_envelope_iff s.writer s.hashing s.json_parse g.text g.envelope).1 g.sealed,
          unseal,
          unseal_envelope,
        )
        (ap (λ p. ok (granted p)) g.same_payload)

  IsRefused-unseal :
      (c : SealCoordinates) (at : Option Text) → IsRefused c at → unseal b s c at ≡ ok not_granted
  unfolding unseal unseal_envelope
  IsRefused-unseal c at r =
      rw
        (
          not_zero (length c.act_publisher) r.publisher_known,
          r.refused,
          r.missing,
          unseal,
          unseal_envelope,
        )
        refl

  -- A read gives a payload exactly if the publisher is not empty and the node answers with the
  -- JSON of a sealed envelope of that payload, its digest that of the payload; and it says not
  -- granted exactly if the publisher is not empty and the node answers 404.
  pub unseal_iff :
      (c : SealCoordinates) (at : Option Text) (payload : Value)
      → ((unseal b s c at ≡ ok (granted payload)) ↔ IsGranted c at payload)
        × ((unseal b s c at ≡ ok not_granted) ↔ IsRefused c at)
  unseal_iff c at payload = (
    (unseal-IsGranted c at payload, IsGranted-unseal c at payload),
    (unseal-IsRefused c at, IsRefused-unseal c at),
  )

  -- What the node keeps: a text that was uploaded is downloaded under the coordinates of its answer.
  pub record IsStoring (c : SealCoordinates) (at : Option Text) : Type 0 where
    pub reads :
        (text : Text) (under : Option Text) (answer : Uploaded) (history : Text)
        → b.upload text under ≡ ok answer
        → answer.history ≡ some history
        → swarm_reference answer.reference ≡ ok c.swarm_ref
        → history_address history ≡ ok c.act_history_address
        → b.download c at ≡ ok text

  -- A read under the coordinates of the receipt gives the payload that was sealed, as JSON reads
  -- it from the canonical text: it may differ in the order of the fields of its objects, in
  -- fields that are undefined, and in elements of arrays that are undefined or null. The node
  -- returns for these coordinates the text that it took under them, JSON reads that text with the
  -- other members of the envelope as they are, and the reference id and the publisher are not
  -- empty.
  pub unseal-seal :
      (payload seen : Value) (keys : List Text) (o : SealOptions) (r : SealReceipt)
      (t t' : List Event) (c : SealCoordinates) (at : Option Text) (read : Fields)
      → ((e : SealEnvelope) (text : Text)
          → make_envelope s.writer s.hashing s.now (input_of o payload) ≡ ok e
          → encode_envelope_object s.writer s.hashing e ≡ ok text
          → (s.json_parse text ≡ some (object read))
            × HasMembers read (record e { payload = seen }))
      → Same payload seen
      → length o.reference_id ≢ 0
      → seal b s payload keys o t ≡ (ok r, t')
      → coordinates_of r ≡ ok c
      → length c.act_publisher ≢ 0
      → IsStoring c at
      → unseal b s c at ≡ ok (granted seen)
  unfolding coordinates_of
  unseal-seal payload seen keys o r t t' c at read parses alike named sealed coordinates known
        storing =
      let q = seal-IsSealed b s payload keys o r t t' sealed in
      let p = parses q.envelope q.body q.made q.encoded in
      let w = coordinates_of-eq-ok r c coordinates in
      IsGranted-unseal c at seen (record {
        publisher_known = known;
        text = q.body;
        downloaded =
            storing.reads q.body (non_empty q.prepared.history) q.stored.answer q.stored.history
              q.stored.uploaded q.stored.has_history (q.stored.reference ∙ ap ok w.0)
              (q.stored.address ∙ ap ok w.1);
        envelope = record q.envelope { payload = seen };
        sealed =
            make_envelope-IsSealed s.writer s.hashing s.json_parse s.now (input_of o payload)
              q.envelope q.body read seen q.made p.0 alike p.1 named;
        same_payload = refl;
      })
