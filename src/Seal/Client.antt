-- ===== src/Seal/Client.antt =====
-- packages/seal/src/client.ts: sealing, reading and granting. The Bee node's answers are parameters,
-- and the calls that leave the client are recorded in their order. The queue that spaces the calls for
-- grantees is modelled by itself; here each call has its turn.
pub mod Laws
pub mod Access
use zegel.Common.{ℕ, Bool, true, false, not, Option, none, some, List, [], ◌∷◌, ◌++◌, if◌then◌else◌}
use zegel.Common.Text.{Text}
use zegel.Common.Result.{Result, ok, err, or_throw}
use zegel.Sdk.Canonical.{Value, Writer, Hashing}
use zegel.Seal.Errors.{
  SealError, invalid_envelope, grantee_management_unavailable, publisher_unknown, is_not_found,
}
use zegel.Seal.Pubkey.{normalise_grantees}
use zegel.Seal.Refs.{swarm_reference, history_address}
use zegel.Seal.Receipt.{SealReceipt, SealCoordinates, GranteeOutcome, BackendKind, SealTierNumber}
use zegel.Seal.Envelope.{SealEnvelope, make_envelope, encode_envelope_object, decode_envelope}

-- What `upload` answers: the reference and the history address, which may be missing.
pub record Uploaded : Type 0 where
  pub reference : Text
  pub history : Option Text

-- The capabilities that the client reads, and the node behind it. `create` and `patch` answer with the
-- reference of the list and its history; `download` with the text of the bytes.
pub record Backend : Type 0 where
  pub kind : BackendKind
  pub url : Text
  pub can_manage_grantees : Bool
  pub publisher : Option Text
  pub batch_id : Text
  pub upload : Text → Option Text → Result SealError Uploaded
  pub download : SealCoordinates → Option Text → Result SealError Text
  pub create : List Text → Result SealError (Text × Text)
  pub patch : Text → Text → List Text → List Text → Result SealError (Text × Text)
  pub get : Text → Result SealError (List Text)

-- What the platform and the packages provide, and the keeper of the receipts.
pub record Services : Type 0 where
  pub writer : Writer
  pub hashing : Hashing
  pub on_curve : Text → Bool
  pub byte_length : Text → ℕ
  pub json_parse : Text → Option Value
  pub now : Text
  pub keep : SealReceipt → Result SealError (Unit {0})

-- The calls that leave the client.
pub data Event : Type 0 where
  creates_list : (grantees : List Text) → Event
  uploads : (body : Text) (history : Option Text) → Event
  patches_list : (list history : Text) (add revoke : List Text) → Event
  keeps : SealReceipt → Event
  warns : Event

-- A step of the client: it may throw, and it adds to the calls made.
abbrev pub M : Type 0 → Type 0
M A = List Event → Result SealError A × List Event

abbrev pub and_then :
    {A B : Type 0} → Result SealError A × List Event → (A → M B) → Result SealError B × List Event
and_then (ok a, t) f = f a t
and_then (err e, t) f = (err e, t)

infixl 5 ◌>>=◌ ◌>>◌
abbrev pub ◌>>=◌ : {A B : Type 0} → M A → (A → M B) → M B
◌>>=◌ m f t = and_then (m t) f

abbrev pub ◌>>◌ : {B : Type 0} → M (Unit {0}) → M B → M B
m >> k = m >>= λ _. k

abbrev pub lift : {A : Type 0} → Result SealError A → M A
lift r t = (r, t)

-- A call that is made, whatever it answers.
abbrev pub call : {A : Type 0} → Event → Result SealError A → M A
call e r t = (r, t ++ e ∷ [])

pub data WhenUnsupported : Type 0 where
  throw defer : WhenUnsupported

pub record SealOptions : Type 0 where
  pub reference_id : Text
  pub tier : SealTierNumber
  pub sealed_at : Option Text
  pub when_grantees_unsupported : WhenUnsupported

-- A text that is there and not empty, which is what a test of truth asks.
abbrev pub non_empty : Option Text → Option Text
non_empty none = none
non_empty (some []) = none
non_empty (some (c ∷ t)) = some (c ∷ t)

-- The list that a seal goes under: its reference and history, if one is made.
pub record Prepared : Type 0 where
  pub list_ref : Option Text
  pub history : Option Text
  pub outcome : GranteeOutcome

abbrev pub no_list : List Text → Bool → Prepared
no_list deferred has_reason = record {
  list_ref = none;
  history = none;
  outcome = record { applied = []; deferred = deferred; has_reason = has_reason };
}

module _ (b : Backend) (s : Services) where
  unfoldable pub create_list : List Text → M Prepared
  create_list requested = do
    created ← call (creates_list requested) (b.create requested)
    ref ← lift (swarm_reference created.0)
    lift (
        ok (record {
          list_ref = some ref;
          history = some created.1;
          outcome = record { applied = requested; deferred = []; has_reason = false };
        }))

  abbrev unsupported : WhenUnsupported → List Text → M Prepared
  unsupported throw requested = lift (err grantee_management_unavailable)
  unsupported defer requested = call warns (ok (no_list requested true))

  -- `#prepareGranteeList`
  unfoldable pub prepare_grantee_list : List Text → WhenUnsupported → M Prepared
  prepare_grantee_list [] w = lift (ok (no_list [] false))
  prepare_grantee_list (k ∷ ks) w =
      if not b.can_manage_grantees then unsupported w (k ∷ ks) else create_list (k ∷ ks)

  abbrev warn_unknown : Option Text → M (Unit {0})
  warn_unknown none = call warns (ok tt)
  warn_unknown (some p) = lift (ok tt)

  abbrev pub receipt_of :
      SealTierNumber → Text → SealEnvelope → Text → Text → Text → Prepared → SealReceipt
  receipt_of tier reference_id envelope body swarm_ref history prepared = record {
    tier = tier;
    reference_id = reference_id;
    swarm_ref = swarm_ref;
    act_history_address = history;
    act_publisher = b.publisher;
    digest = envelope.digest;
    sealed_at = envelope.sealed_at;
    backend = b.kind;
    backend_url = b.url;
    batch_id = b.batch_id;
    grantee_list_ref = prepared.list_ref;
    grantees = prepared.outcome;
    bytes = s.byte_length body;
  }

  -- From the upload to the keeper.
  unfoldable pub store_sealed : SealOptions → SealEnvelope → Text → Prepared → M SealReceipt
  store_sealed o envelope body prepared = do
    let under = non_empty prepared.history
    uploaded ← call (uploads body under) (b.upload body under)
    history ← lift (or_throw uploaded.history invalid_envelope)
    warn_unknown (non_empty b.publisher)
    swarm_ref ← lift (swarm_reference uploaded.reference)
    address ← lift (history_address history)
    let receipt = receipt_of o.tier o.reference_id envelope body swarm_ref address prepared
    call (keeps receipt) (s.keep receipt)
    lift (ok receipt)

  unfoldable pub seal : Value → List Text → SealOptions → M SealReceipt
  seal payload keys o = do
    requested ← lift (normalise_grantees s.on_curve keys)
    prepared ← prepare_grantee_list requested o.when_grantees_unsupported
    envelope ← lift (
        make_envelope s.writer s.hashing s.now (record {
          tier = o.tier;
          reference_id = o.reference_id;
          payload = payload;
          sealed_at = non_empty o.sealed_at;
        }))
    body ← lift (encode_envelope_object s.writer s.hashing envelope)
    store_sealed o envelope body prepared

  abbrev or_previous : Option Text → Text → Text
  or_previous none previous = previous
  or_previous (some history) previous = history

  unfoldable pub reseal : SealReceipt → Value → Option Text → Option Text → M SealReceipt
  reseal previous payload sealed_at history = do
    envelope ← lift (
        make_envelope s.writer s.hashing s.now (record {
          tier = previous.tier;
          reference_id = previous.reference_id;
          payload = payload;
          sealed_at = non_empty sealed_at;
        }))
    body ← lift (encode_envelope_object s.writer s.hashing envelope)
    let under = some (or_previous history previous.act_history_address)
    uploaded ← call (uploads body under) (b.upload body under)
    swarm_ref ← lift (swarm_reference uploaded.reference)
    found ← lift (or_throw uploaded.history (zegel.Seal.Errors.upstream none))
    address ← lift (history_address found)
    let receipt = record previous {
      swarm_ref = swarm_ref;
      act_history_address = address;
      digest = envelope.digest;
      sealed_at = envelope.sealed_at;
      bytes = s.byte_length body;
    }
    call (keeps receipt) (s.keep receipt)
    lift (ok receipt)
