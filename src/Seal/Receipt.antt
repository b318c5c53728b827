-- ===== src/Seal/Receipt.antt =====
-- packages/seal/src/receipt.ts: what a seal leaves behind, and the coordinates that a read needs.
pub mod Laws
use zegel.Common.{ℕ, Bool, true, false, Option, none, some, List}
use zegel.Common.Text.{Text}
use zegel.Common.Result.{Result, ok, err, ◌>>=◌}
use zegel.Seal.Errors.{SealError, publisher_unknown}
use zegel.Seal.Pubkey.{grantee_public_key}
use zegel.Seal.Refs.{swarm_reference, history_address}

pub record SealCoordinates : Type 0 where
  pub swarm_ref : Text
  pub act_history_address : Text
  pub act_publisher : Text

-- `reason` is whether one is given: its text is left out.
pub record GranteeOutcome : Type 0 where
  pub applied : List Text
  pub deferred : List Text
  pub has_reason : Bool

pub data BackendKind : Type 0 where
  gateway node : BackendKind

pub data SealTierNumber : Type 0 where
  tier_1 tier_2 : SealTierNumber

pub record SealReceipt : Type 0 where
  pub tier : SealTierNumber
  pub reference_id : Text
  pub swarm_ref : Text
  pub act_history_address : Text
  pub act_publisher : Option Text
  pub digest : Text
  pub sealed_at : Text
  pub backend : BackendKind
  pub backend_url : Text
  pub batch_id : Text
  pub grantee_list_ref : Option Text
  pub grantees : GranteeOutcome
  pub bytes : ℕ

-- The public record of a tier.
pub record SealedTier : Type 0 where
  pub tier : SealTierNumber
  pub swarm_ref : Text
  pub act_history_address : Text
  pub act_publisher : Text

unfoldable pub is_readable : SealReceipt → Bool
is_readable r = elim r.act_publisher [ none ↦ false | some p ↦ true ]

unfoldable pub coordinates_of : SealReceipt → Result SealError SealCoordinates
coordinates_of r = elim r.act_publisher [
  | none ↦ err publisher_unknown
  | some p ↦ ok (record {
    swarm_ref = r.swarm_ref;
    act_history_address = r.act_history_address;
    act_publisher = p;
  })
]

unfoldable pub to_sealed_tier : SealReceipt → Result SealError SealedTier
to_sealed_tier r = elim r.act_publisher [
  | none ↦ err publisher_unknown
  | some p ↦ ok (record {
    tier = r.tier;
    swarm_ref = r.swarm_ref;
    act_history_address = r.act_history_address;
    act_publisher = p;
  })
]

unfoldable pub coordinates_from_tier : (Text → Bool) → SealedTier → Result SealError SealCoordinates
coordinates_from_tier on_curve t = do
  swarm_ref ← swarm_reference t.swarm_ref
  history ← history_address t.act_history_address
  publisher ← grantee_public_key on_curve t.act_publisher
  ok (record { swarm_ref = swarm_ref; act_history_address = history; act_publisher = publisher })
