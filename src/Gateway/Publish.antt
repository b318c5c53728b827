-- ===== src/Gateway/Publish.antt =====
-- gateway/src/admin.ts: a publish is admitted when the owner of the name signed it. The store, the
-- owner lookup and the signature checks of viem are parameters.
pub mod History
pub mod Interleaved
pub mod Laws
use zegel.Common.{ℕ, ◌+◌, ◌-◌, Bool, true, false, not, Option, none, some, ltb, leb, if◌then◌else◌}
use zegel.Common.Int.{pos, leb_ℤ}
use zegel.Common.Text.{Text, text_eq, to_lower_case}
use zegel.Common.Result.{Result, ok, err, throw_if, or_throw}
use zegel.Gateway.Failure.{
  Failure, bad_request, unauthorized, conflict, gateway, unclassified, authorisation_expired,
  authorisation_too_long, envelope_expired, stale_nonce, no_known_owner, not_the_owner,
  read_only_store,
}
use zegel.Gateway.Platform.{Platform}
use zegel.Gateway.Envelope.{StoredEnvelope, parse_envelope}
use zegel.Gateway.Store.{EnvelopeRecord, EnvelopeStore}

abbrev pub max_authorisation_window_seconds : ℕ
max_authorisation_window_seconds = 3600

pub record PublishRequest : Type 0 where
  pub node : Text
  pub name : Option Text
  pub envelope : Text
  pub nonce : ℕ
  pub valid_until : ℕ
  pub signature : Text

-- The EIP-712 message, with the chain id of its domain.
pub record Message : Type 0 where
  pub chain_id : ℕ
  pub node : Text
  pub envelope_digest : Text
  pub gateway_address : Text
  pub nonce : ℕ
  pub valid_until : ℕ

-- The configuration, and what the calls that leave the gateway answer. `none` is a call that throws.
pub record Config : Type 0 where
  pub signer_address : Text
  pub chain_id : ℕ
  pub owner_of : Text → Option (Option Text)
  -- `recoverTypedDataAddress`
  pub recover : Message → Text → Option Text
  -- `config.client`, and its `verifyTypedData(message, address, signature)`
  pub verify_typed_data : Option (Message → Text → Text → Option Bool)

-- A step of the handler: it may fail, and it may change the store's state.
abbrev pub M : Type 0 → Type 0 → Type 0
M S A = S → Result Failure A × S

-- A call that throws ends the handler.
abbrev pub and_then : {S A B : Type 0} → Result Failure A × S → (A → M S B) → Result Failure B × S
and_then (ok a, s) f = f a s
and_then (err e, s) f = (err e, s)

infixl 5 ◌>>=◌ ◌>>◌
abbrev ◌>>=◌ : {S A B : Type 0} → M S A → (A → M S B) → M S B
◌>>=◌ m f s = and_then (m s) f

abbrev ◌>>◌ : {S B : Type 0} → M S (Unit {0}) → M S B → M S B
m >> k = m >>= λ _. k

-- A step that leaves the store alone.
abbrev lift : {S A : Type 0} → Result Failure A → M S A
lift r s = (r, s)

-- `getAddress(recovered) === getAddress(owner)`, in a `try`
abbrev same_address : Platform → Option Text → Text → Bool
same_address v none owner = false
same_address v (some recovered) owner = elim (v.get_address recovered) [
  | none ↦ false
  | some a ↦ elim (v.get_address owner) [ none ↦ false | some b ↦ text_eq a b ]
]

abbrev or_false : Option Bool → Bool
or_false none = false
or_false (some b) = b

abbrev contract_accepts :
    Option (Message → Text → Text → Option Bool) → Message → Text → Text → Bool
contract_accepts none m owner sig = false
contract_accepts (some verify) m owner sig = or_false (verify m owner sig)

unfoldable pub verify_publish_signature : Platform → Config → Text → Message → Text → Bool
verify_publish_signature v config owner m sig =
    if same_address v (config.recover m sig) owner
    then true
    else contract_accepts config.verify_typed_data m owner sig

abbrev pub message_of : Config → PublishRequest → StoredEnvelope → Message
message_of config req envelope = record {
  chain_id = config.chain_id;
  node = req.node;
  envelope_digest = envelope.digest;
  gateway_address = config.signer_address;
  nonce = req.nonce;
  valid_until = req.valid_until;
}

-- The checks on time, which come first.
unfoldable pub check_times : ℕ → PublishRequest → StoredEnvelope → Result Failure (Unit {0})
check_times now req envelope =
    if leb req.valid_until now
    then err (unauthorized authorisation_expired)
    else if ltb max_authorisation_window_seconds (req.valid_until - now)
    then err (bad_request authorisation_too_long)
    else if leb_ℤ envelope.expires_at_seconds (pos now)
    then err (bad_request envelope_expired)
    else ok tt

-- The owner of the node, if the signature is theirs.
unfoldable pub check_owner :
    Platform → Config → PublishRequest → StoredEnvelope → Result Failure Text
check_owner v config req envelope = elim (config.owner_of req.node) [
  | none ↦ err unclassified
  | some none ↦ err (unauthorized no_known_owner)
  | some (some owner) ↦
      if verify_publish_signature v config owner (message_of config req envelope) req.signature
      then ok owner
      else err (unauthorized not_the_owner)
]

abbrev pub record_of : PublishRequest → StoredEnvelope → Text → ℕ → EnvelopeRecord
record_of req envelope owner at = record {
  node = to_lower_case req.node;
  name = req.name;
  envelope = envelope;
  published_at = at;
  publisher = owner;
  nonce = req.nonce;
}

module _ {S : Type 0} (v : Platform) (config : Config) (store : EnvelopeStore S) where
  abbrev read_nonce : Text → M S ℕ
  read_nonce node s = let (n, s') = store.last_nonce node s in (ok n, s')

  -- `now` and `later` are the two readings of the clock, before the checks and at the write.
  unfoldable pub publish_envelope : ℕ → ℕ → PublishRequest → M S EnvelopeRecord
  publish_envelope now later req = do
    envelope ← lift (parse_envelope v req.envelope)
    lift (check_times now req envelope)
    last ← read_nonce req.node
    lift (throw_if (leb req.nonce last) (conflict stale_nonce))
    owner ← lift (check_owner v config req envelope)
    store.put (record_of req envelope owner later)
    lift (ok (record_of req envelope owner later))

  -- The handler of `POST /admin/envelopes`, behind the reading of the request's body.
  unfoldable pub post_admin_envelopes : ℕ → ℕ → PublishRequest → M S EnvelopeRecord
  unfolding publish_envelope
  post_admin_envelopes now later req s =
      if store.writable
      then publish_envelope now later req s
      else (err (gateway 501 read_only_store), s)
