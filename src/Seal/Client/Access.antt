-- ===== src/Seal/Client/Access.antt =====
-- packages/seal/src/client.ts: reading a sealed object, and changing who may read it.
pub mod Laws
pub mod Patches
use zegel.Common.{
  ℕ, Bool, true, false, not, Option, none, some, List, [], ◌∷◌, length, ◌==◌, if◌then◌else◌,
}
use zegel.Common.Text.{Text}
use zegel.Common.Result.{Result, ok, err}
use zegel.Sdk.Canonical.{Value}
use zegel.Seal.Errors.{SealError, grantee_management_unavailable, publisher_unknown, is_not_found}
use zegel.Seal.Pubkey.{normalise_grantees}
use zegel.Seal.Refs.{swarm_reference, history_address}
use zegel.Seal.Receipt.{SealReceipt, SealCoordinates}
use zegel.Seal.Envelope.{SealEnvelope, decode_envelope}
use zegel.Seal.Client.{Backend, Services, M, ◌>>=◌, ◌>>◌, lift, call, patches_list}

-- The answer of a read: what is asked for, or that it is not granted or absent.
pub data Unsealed (A : Type 0) : Type 0 where
  granted : A → Unsealed A
  not_granted : Unsealed A

-- `at`, the time of the answer, is left out.
pub record GranteeListReceipt : Type 0 where
  pub grantee_list_ref : Text
  pub act_history_address : Text
  pub added : List Text
  pub revoked : List Text
  pub rotation_required : Bool

abbrev pub is_empty : List Text → Bool
is_empty [] = true
is_empty (k ∷ ks) = false

-- What the `catch` of a read makes of an exception.
abbrev if_not_found : {A : Type 0} → A → SealError → Result SealError A
if_not_found a e = if is_not_found e then ok a else err e

module _ (b : Backend) (s : Services) where
  abbrev decode_text : Text → Result SealError (Unsealed SealEnvelope)
  decode_text text = elim (decode_envelope s.writer s.hashing s.json_parse text) [
    | ok e ↦ ok (granted e)
    | err f ↦ if_not_found not_granted f
  ]

  -- `at` is the option `actTimestamp`.
  unfoldable pub unseal_envelope :
      SealCoordinates → Option Text → Result SealError (Unsealed SealEnvelope)
  unseal_envelope c at =
      if length c.act_publisher == 0 then err publisher_unknown else elim (b.download c at) [
        | ok text ↦ decode_text text
        | err f ↦ if_not_found not_granted f
      ]

  abbrev payload_of : Unsealed SealEnvelope → Unsealed Value
  payload_of (granted e) = granted e.payload
  payload_of not_granted = not_granted

  unfoldable pub unseal : SealCoordinates → Option Text → Result SealError (Unsealed Value)
  unseal c at = elim (unseal_envelope c at) [ ok u ↦ ok (payload_of u) | err f ↦ err f ]

  -- `#requireGranteeManagement`
  abbrev require_grantee_management : Result SealError (Unit {0})
  require_grantee_management =
      if b.can_manage_grantees then ok tt else err grantee_management_unavailable

  -- `receipt.granteeListRef`, if there is one.
  abbrev list_of : SealReceipt → Result SealError Text
  list_of r = elim r.grantee_list_ref [ none ↦ err grantee_management_unavailable | some l ↦ ok l ]

  -- `#patch`
  unfoldable pub patch : SealReceipt → List Text → List Text → M GranteeListReceipt
  patch r add revoke = do
    lift require_grantee_management
    reference ← lift (list_of r)
    result ←
        call (patches_list reference r.act_history_address add revoke)
          (b.patch reference r.act_history_address add revoke)
    ref ← lift (swarm_reference result.0)
    history ← lift (history_address result.1)
    lift (
        ok (record {
          grantee_list_ref = ref;
          act_history_address = history;
          added = add;
          revoked = revoke;
          rotation_required = not (is_empty revoke);
        }))

  unfoldable pub grant : SealReceipt → List Text → M GranteeListReceipt
  grant r keys = do add ← lift (normalise_grantees s.on_curve keys); patch r add []

  unfoldable pub revoke : SealReceipt → List Text → M GranteeListReceipt
  revoke r keys = do gone ← lift (normalise_grantees s.on_curve keys); patch r [] gone

  unfoldable pub patch_grantees : SealReceipt → List Text → List Text → M GranteeListReceipt
  patch_grantees r add revoke = do
    added ← lift (normalise_grantees s.on_curve add)
    gone ← lift (normalise_grantees s.on_curve revoke)
    patch r added gone

  abbrev or_swarm_ref : SealReceipt → Text
  or_swarm_ref r = elim r.grantee_list_ref [ none ↦ r.swarm_ref | some l ↦ l ]

  unfoldable pub list_grantees : SealReceipt → Result SealError (Option (List Text))
  list_grantees r =
      if not b.can_manage_grantees
      then err grantee_management_unavailable
      else elim (b.get (or_swarm_ref r)) [ ok keys ↦ ok (some keys) | err f ↦ if_not_found none f ]
