-- ===== src/Evidence/Bundle.antt =====
-- packages/sdk/src/types.ts: claims, the set of claims of tier 1 and the bundle of tier 2, at their
-- declared types.
use zegel.Common.{ℕ, Bool, Option, List}
use zegel.Common.Text.{Text, codes}
use zegel.Sdk.Canonical.{Value}
use zegel.Evidence.Numbers.{Double}
use zegel.Evidence.Client.Settings.{Param}

abbrev pub claims_schema : Text
claims_schema = codes "zegel.claims.v1"

abbrev pub bundle_schema : Text
bundle_schema = codes "zegel.bundle.v1"

pub data ClaimOp : Type 0 where
  gte lte between eq : ClaimOp

pub data ClaimUnit : Type 0 where
  usd count ratio days score : ClaimUnit

pub data Threshold : Type 0 where
  bar : Double → Threshold
  range : Double → Double → Threshold

-- `actual` is `none` where the field is absent.
pub record Claim : Type 0 where
  pub id : Text
  pub statement : Text
  pub op : ClaimOp
  pub threshold : Threshold
  pub unit : ClaimUnit
  pub passed : Bool
  pub actual : Option Double
  pub sources : List ℕ

pub record TimeWindow : Type 0 where
  pub from : Text
  pub to : Text

pub record ClaimSet : Type 0 where
  pub schema : Text
  pub reference_id : Text
  pub chains : List Text
  pub window : TimeWindow
  pub claims : List Claim
  pub derived_at : Text
  pub derivation_id : Text

-- The reason, and the status if there is one.
pub record Unavailable : Type 0 where
  pub reason : Text
  pub status : Option ℕ

pub record EvidenceSource : Type 0 where
  pub index : ℕ
  pub endpoint : Text
  pub params : List (Text × Param)
  pub fetched_at : Text
  pub digest : Text
  pub body : Option Value
  pub unavailable : Option Unavailable

pub record ControlProof : Type 0 where
  pub message : Text
  pub signature : Text
  pub signer : Text

pub record EvidenceBundle : Type 0 where
  pub schema : Text
  pub reference_id : Text
  pub address : Text
  pub chains : List Text
  pub window : TimeWindow
  pub sources : List EvidenceSource
  pub claims : List Claim
  pub derived_at : Text
  pub derivation_id : Text
  pub control_proof : ControlProof
