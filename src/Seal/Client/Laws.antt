-- ===== src/Seal/Client/Laws.antt =====
-- packages/seal/src/client.ts: what a seal that returns has done.
use zegel.Common.{
  ◌≡◌, refl, ap, subst, ◌∙◌, inl, inr, true, false, Option, none, some, List, [], ◌∷◌, ◌++◌, arith,
  Option-cases, Bool-cases,
}
use mathlib.Core.List.{append_assoc, append-nil}
use zegel.Common.Text.{Text}
use zegel.Common.Result.{Result, ok, err, Result-cases}
use zegel.Sdk.Canonical.{Value}
use zegel.Seal.Errors.{SealError, grantee_management_unavailable}
use zegel.Seal.Pubkey.{normalise_grantees}
use zegel.Seal.Refs.{swarm_reference, history_address}
use zegel.Seal.Receipt.{SealReceipt}
use zegel.Seal.Envelope.{SealEnvelope, EncodeEnvelopeInput, make_envelope, encode_envelope_object}
use zegel.Seal.Client.{
  Backend, Services, Event, creates_list, uploads, keeps, warns, non_empty, Uploaded, SealOptions,
  Prepared, throw, defer, WhenUnsupported, prepare_grantee_list, create_list, store_sealed, seal,
  receipt_of, no_list,
}

abbrev pub input_of : SealOptions → Value → EncodeEnvelopeInput
input_of o payload = record {
  tier = o.tier;
  reference_id = o.reference_id;
  payload = payload;
  sealed_at = non_empty o.sealed_at;
}

module _ (b : Backend) (s : Services) where
  -- The list was made for all the keys, or there are none, or the caller deferred them; `made` are
  -- the calls of each case.
  pub data IsPrepared (keys : List Text) (w : WhenUnsupported) (p : Prepared) (made : List Event)
      : Type 0 where
    no_keys : keys ≡ [] → p ≡ no_list [] false → made ≡ [] → IsPrepared keys w p made
    deferred :
        b.can_manage_grantees ≡ false
        → w ≡ defer
        → p ≡ no_list keys true
        → made ≡ warns ∷ []
        → IsPrepared keys w p made
    listed :
        (ref history list_ref : Text)
        → b.can_manage_grantees ≡ true
        → b.create keys ≡ ok (ref, history)
        → swarm_reference ref ≡ ok list_ref
        → p.list_ref ≡ some list_ref
        → p.history ≡ some history
        → p.outcome ≡ record { applied = keys; deferred = []; has_reason = false }
        → made ≡ creates_list keys ∷ []
        → IsPrepared keys w p made

  prepare_grantee_list-IsPrepared :
      (keys : List Text) (w : WhenUnsupported) (p : Prepared) (t t' : List Event)
      → prepare_grantee_list b s keys w t ≡ (ok p, t')
      → (made : List Event) × IsPrepared keys w p made × (t' ≡ t ++ made)
  unfolding prepare_grantee_list create_list
  prepare_grantee_list-IsPrepared [] w p t t' h =
      ([], no_keys refl (ground arith) refl, ground (arith, append-nil t))
  prepare_grantee_list-IsPrepared (k ∷ ks) w p t t' h = elim (Bool-cases b.can_manage_grantees) [
    | inr cannot ↦ refused w cannot h
    | inl can ↦ elim (Result-cases (b.create (k ∷ ks))) [
      | inr (e, c) ↦ absurd (ground arith)
      | inl ((ref, history), c) ↦ elim (Result-cases (swarm_reference ref)) [
        | inr (e, q) ↦ absurd (ground arith)
        | inl (list_ref, q) ↦ (
          creates_list (k ∷ ks) ∷ [],
          listed ref history list_ref can c q (ground arith) (ground arith) (ground arith) refl,
          ground arith,
        )
      ]
    ]
  ]
    where
      refused :
          (u : WhenUnsupported)
          → b.can_manage_grantees ≡ false
          → prepare_grantee_list b s (k ∷ ks) u t ≡ (ok p, t')
          → (made : List Event) × IsPrepared (k ∷ ks) u p made × (t' ≡ t ++ made)
      refused throw cannot h = absurd (ground arith)
      refused defer cannot h = (warns ∷ [], deferred cannot refl (ground arith) refl, ground arith)

  abbrev pub warning : Option Text → List Event
  warning none = warns ∷ []
  warning (some p) = []

  -- What holds of a receipt that was stored: the upload under the list's history answered with the
  -- reference and the history that it names, and the keeper took it. The calls are the upload, a
  -- warning if the publisher is unknown, and the keeper's.
  pub record IsStored (o : SealOptions) (envelope : SealEnvelope) (body : Text)
      (prepared : Prepared) (r : SealReceipt) (made : List Event) : Type 0 where
    pub answer : Uploaded
    pub uploaded : b.upload body (non_empty prepared.history) ≡ ok answer
    pub history : Text
    pub has_history : answer.history ≡ some history
    pub reference : swarm_reference answer.reference ≡ ok r.swarm_ref
    pub address : history_address history ≡ ok r.act_history_address
    pub is_receipt :
        r
        ≡ receipt_of b s o.tier o.reference_id envelope body r.swarm_ref r.act_history_address
            prepared
    pub kept : s.keep r ≡ ok tt
    pub calls :
        made
        ≡ uploads body (non_empty prepared.history)
          ∷ (warning (non_empty b.publisher) ++ keeps r ∷ [])

  -- The calls of a seal that stores `r`, after those made before.
  warned : Option Text → List Event → Event → SealReceipt → List Event
  warned none t e r = ((t ++ e ∷ []) ++ warns ∷ []) ++ keeps r ∷ []
  warned (some p) t e r = (t ++ e ∷ []) ++ keeps r ∷ []

  warned-append :
      (o : Option Text) (t : List Event) (e : Event) (r : SealReceipt)
      → warned o t e r ≡ t ++ (e ∷ (warning o ++ keeps r ∷ []))
  unfolding warned
  warned-append none t e r = simp append_assoc
  warned-append (some p) t e r = simp append_assoc

  store_sealed-IsStored :
      (o : SealOptions) (e : SealEnvelope) (body : Text) (p : Prepared) (r : SealReceipt)
      (t t' : List Event)
      → store_sealed b s o e body p t ≡ (ok r, t')
      → (made : List Event) × IsStored o e body p r made × (t' ≡ t ++ made)
  unfolding store_sealed warned
  store_sealed-IsStored o e body p r t t' h =
      elim (Result-cases (b.upload body (non_empty p.history))) [
        | inr (f, u) ↦ absurd (ground arith)
        | inl (answer, u) ↦ elim (Option-cases answer.history) [
          | inl n ↦ absurd (ground arith)
          | inr (history, n) ↦ elim (Result-cases (swarm_reference answer.reference)) [
            | inr (f, q) ↦ absurd (ground arith)
            | inl (ref, q) ↦ elim (Result-cases (history_address history)) [
              | inr (f, a) ↦ absurd (ground arith)
              | inl (address, a) ↦
                  let receipt = receipt_of b s o.tier o.reference_id e body ref address p in
                  elim (Result-cases (s.keep receipt)) [
                    | inr (f, k) ↦ absurd (ground arith)
                    | inl (done, k) ↦
                        let same : receipt ≡ r = ground arith in
                        let upload = uploads body (non_empty p.history) in
                        let known = non_empty b.publisher in
                        let kept_calls : t' ≡ warned known t upload receipt = ground arith in
                        subst
                          (λ x. (made : List Event) × IsStored o e body p x made × (t' ≡ t ++ made))
                          same
                          (
                            upload ∷ (warning known ++ keeps receipt ∷ []),
                            record {
                              answer = answer;
                              uploaded = u;
                              history = history;
                              has_history = n;
                              reference = q;
                              address = a;
                              is_receipt = refl;
                              kept = k;
                              calls = refl;
                            },
                            kept_calls ∙ warned-append known t upload receipt,
                          )
                  ]
            ]
          ]
        ]
      ]

  -- What holds of a receipt that is returned.
  pub record IsSealed (payload : Value) (keys : List Text) (o : SealOptions) (r : SealReceipt)
      (t t' : List Event) : Type 0 where
    pub grantees : List Text
    pub normalised : normalise_grantees s.on_curve keys ≡ ok grantees
    pub prepared : Prepared
    pub list_calls : List Event
    pub is_prepared : IsPrepared grantees o.when_grantees_unsupported prepared list_calls
    pub envelope : SealEnvelope
    pub made : make_envelope s.writer s.hashing s.now (input_of o payload) ≡ ok envelope
    pub body : Text
    pub encoded : encode_envelope_object s.writer s.hashing envelope ≡ ok body
    pub store_calls : List Event
    pub stored : IsStored o envelope body prepared r store_calls
    pub all_calls : t' ≡ t ++ (list_calls ++ store_calls)

  -- A seal that returns a receipt has uploaded the encoded envelope of the payload under the
  -- history, if it is not empty, of a grantee list made for all the keys in normal form, or under
  -- none if there are no keys or the caller deferred them on an endpoint without lists, which the
  -- receipt says; the answer had a history, the receipt carries it and the reference in normal
  -- form. The calls that it made are, in this order, the making of the list or the warning where
  -- there is one, that upload, a warning if the publisher is unknown, and the keeper's, which
  -- took this receipt.
  pub seal-IsSealed :
      (payload : Value) (keys : List Text) (o : SealOptions) (r : SealReceipt) (t t' : List Event)
      → seal b s payload keys o t ≡ (ok r, t')
      → IsSealed payload keys o r t t'
  unfolding seal
  seal-IsSealed payload keys o r t t' h = elim (Result-cases (normalise_grantees s.on_curve keys)) [
    | inr (e, n) ↦ absurd (ground arith)
    | inl (grantees, n) ↦
        prepare grantees n (prepare_grantee_list b s grantees o.when_grantees_unsupported t) refl
  ]
    where
      prepare :
          (grantees : List Text)
          → normalise_grantees s.on_curve keys ≡ ok grantees
          → (x : Result SealError Prepared × List Event)
          → prepare_grantee_list b s grantees o.when_grantees_unsupported t ≡ x
          → IsSealed payload keys o r t t'
      prepare grantees n (err e, u) p = absurd (ground arith)
      prepare grantees n (ok prepared, u) p =
          elim (Result-cases (make_envelope s.writer s.hashing s.now (input_of o payload))) [
            | inr (e, m) ↦ absurd (ground arith)
            | inl (envelope, m) ↦
                elim (Result-cases (encode_envelope_object s.writer s.hashing envelope)) [
                  | inr (e, k) ↦ absurd (ground arith)
                  | inl (body, k) ↦
                      let (list_calls, is_prepared, u_is) =
                        prepare_grantee_list-IsPrepared grantees o.when_grantees_unsupported
                          prepared t u p in
                      let (store_calls, stored, t_is) =
                        store_sealed-IsStored o envelope body prepared r u t' (ground arith) in
                      record {
                        grantees = grantees;
                        normalised = n;
                        prepared = prepared;
                        list_calls = list_calls;
                        is_prepared = is_prepared;
                        envelope = envelope;
                        made = m;
                        body = body;
                        encoded = k;
                        store_calls = store_calls;
                        stored = stored;
                        all_calls =
                            t_is
                            ∙ ap (λ x. x ++ store_calls) u_is
                            ∙ append_assoc t list_calls store_calls;
                      }
                ]
          ]

  -- If the keys are accepted and at least one is left in normal form, the endpoint has no grantee
  -- lists and the caller did not defer, a seal fails before it makes any call.
  seal_unsupported :
      (payload : Value) (keys : List Text) (o : SealOptions) (k : Text) (ks : List Text)
      (t : List Event)
      → normalise_grantees s.on_curve keys ≡ ok (k ∷ ks)
      → b.can_manage_grantees ≡ false
      → o.when_grantees_unsupported ≡ throw
      → seal b s payload keys o t ≡ (err grantee_management_unavailable, t)
  unfolding seal prepare_grantee_list
  seal_unsupported payload keys o k ks t n cannot w = rw (n, cannot, w) refl
