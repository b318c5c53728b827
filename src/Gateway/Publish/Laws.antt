-- ===== src/Gateway/Publish/Laws.antt =====
-- gateway/src/admin.ts: the conditions of a publish.
use zegel.Common.{ℕ, ◌+◌, ◌≡◌, ◌≤◌, ◌<◌, ◌↔◌, true, some, arith, inl, inr}
use zegel.Common.Int.{pos, ◌<ℤ◌}
use zegel.Common.Text.{Text}
use zegel.Common.Result.{ok, Result-cases}
use zegel.Gateway.Platform.{Platform}
use zegel.Gateway.Envelope.{StoredEnvelope, parse_envelope}
use zegel.Gateway.Store.{EnvelopeRecord, EnvelopeStore}
use zegel.Gateway.Publish.{
  PublishRequest, Config, check_times, check_owner, verify_publish_signature, message_of, record_of,
  publish_envelope,
}

-- The conditions of an admitted publish: the text is an envelope, the authorisation is running and
-- at most an hour long, the envelope has not expired, the nonce is new, and the owner of the name
-- signed this very message; the record says so, and the store has taken it.
pub record IsAdmitted {S : Type 0} (v : Platform) (config : Config) (store : EnvelopeStore S)
    (now later : ℕ) (req : PublishRequest) (s : S) (r : EnvelopeRecord) (s' : S) : Type 0 where
  pub envelope : StoredEnvelope
  pub parsed : parse_envelope v req.envelope ≡ ok envelope
  pub running : now < req.valid_until
  pub bounded : req.valid_until ≤ now + 3600
  pub live : pos now <ℤ envelope.expires_at_seconds
  pub fresh : (store.last_nonce req.node s).0 < req.nonce
  pub owner : Text
  pub owned : config.owner_of req.node ≡ some (some owner)
  pub signed :
      verify_publish_signature v config owner (message_of config req envelope) req.signature ≡ true
  pub recorded : r ≡ record_of req envelope owner later
  pub stored : store.put r (store.last_nonce req.node s).1 ≡ (ok tt, s')

check_times_iff :
    (now : ℕ) (req : PublishRequest) (e : StoredEnvelope)
    → (check_times now req e ≡ ok tt) ↔ (
        (now < req.valid_until)
        × (req.valid_until ≤ now + 3600)
        × (pos now <ℤ e.expires_at_seconds))
unfolding check_times
check_times_iff now req e = ground arith

check_owner-eq-ok :
    (v : Platform) (config : Config) (req : PublishRequest) (e : StoredEnvelope) (owner : Text)
    → (check_owner v config req e ≡ ok owner) ↔ (
        (config.owner_of req.node ≡ some (some owner))
        × (verify_publish_signature v config owner (message_of config req e) req.signature ≡ true))
unfolding check_owner
check_owner-eq-ok v config req e owner = ground arith

module _ {S : Type 0} (v : Platform) (config : Config) (store : EnvelopeStore S) (now later : ℕ)
    (req : PublishRequest) (s : S) where
  -- A publish that succeeds met every condition: the text is an envelope, the authorisation is
  -- running and ends within an hour, the envelope has not expired, the nonce is above the
  -- store's, the node has an owner and the signature over this message is theirs; and the store
  -- has taken the record of it.
  pub publish_envelope-IsAdmitted :
      (r : EnvelopeRecord) (s' : S)
      → publish_envelope v config store now later req s ≡ (ok r, s')
      → IsAdmitted v config store now later req s r s'
  unfolding publish_envelope
  publish_envelope-IsAdmitted r s' h = elim (Result-cases (parse_envelope v req.envelope)) [
    | inr (e, p) ↦ ground arith
    | inl (e, p) ↦ elim (Result-cases (check_owner v config req e)) [
      | inr (f, q) ↦ ground arith
      | inl (owner, q) ↦
          let times : check_times now req e ≡ ok tt = ground arith in
          record {
            envelope = e;
            parsed = p;
            running = ((check_times_iff now req e).0 times).0;
            bounded = ((check_times_iff now req e).0 times).1;
            live = ((check_times_iff now req e).0 times).2;
            fresh = ground arith;
            owner = owner;
            owned = ((check_owner-eq-ok v config req e owner).0 q).0;
            signed = ((check_owner-eq-ok v config req e owner).0 q).1;
            recorded = ground arith;
            stored = ground arith;
          }
    ]
  ]

  -- A publish that meets these conditions, and whose record the store takes, succeeds with that
  -- record.
  IsAdmitted-publish_envelope :
      (r : EnvelopeRecord) (s' : S)
      → IsAdmitted v config store now later req s r s'
      → publish_envelope v config store now later req s ≡ (ok r, s')
  unfolding publish_envelope
  IsAdmitted-publish_envelope r s' a = ground (
    arith,
    a.parsed,
    (check_times_iff now req a.envelope).1 (a.running, a.bounded, a.live),
    (check_owner-eq-ok v config req a.envelope a.owner).1 (a.owned, a.signed),
  )
