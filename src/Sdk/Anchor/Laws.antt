-- ===== src/Sdk/Anchor/Laws.antt =====
-- packages/sdk/src/verify.ts, on the contract of contracts/src/ZegelAnchor.sol.
use zegel.Common.{
  ℕ, ◌≡◌, ◌↔◌, ◌<◌, ◌≢◌, Option, none, some, true, false, arith, Option-cases, inl, inr, Bool,
}
use zegel.Common.Text.{Text}
use zegel.Common.Result.{Result, ok, err}
use zegel.Contracts.Anchor.{Anchor, Anchors, Status}
use zegel.Sdk.Canonical.{Value, Writer, Hashing}
use zegel.Sdk.Canonical.Laws.{digests_equal_iff}
use zegel.Sdk.Anchor.{
  SealedEnvelope, AnchorClient, VerificationReport, VerifyError, status_at, report_of, shown_digest,
  asked, read_anchor, verify_anchor,
}

-- The place of a status in the contract's enumeration.
abbrev pub index_of : Status → ℕ
index_of Status.never_anchored = 0
index_of Status.valid = 1
index_of Status.expired = 2
index_of Status.revoked = 3
index_of Status.commitment_mismatch = 4

-- What a call of the contract's `verify` answers, where `bytes32` reads the two arguments.
abbrev pub contract_answer : (Text → Option ℕ) → ℕ → Anchors → Text → Text → Option ℕ
contract_answer bytes32 time m reference commitment = elim (bytes32 reference) [
  | none ↦ none
  | some id ↦ elim (bytes32 commitment) [
    | none ↦ none
    | some c ↦ some (index_of (zegel.Contracts.Anchor.verify time id c m))
  ]
]

-- Anchored under this commitment, neither revoked nor expired.
pub record IsLive (bytes32 : Text → Option ℕ) (time : ℕ) (m : Anchors) (reference commitment : Text)
    : Type 0 where
  pub id : ℕ
  pub is_reference : bytes32 reference ≡ some id
  pub anchored : (m id).anchored_at ≢ 0
  pub not_revoked : (m id).revoked_at ≡ 0
  pub running : time < (m id).expires_at
  pub sealed_under : bytes32 commitment ≡ some (m id).commitment

-- A report that is returned, and is good.
abbrev pub is_good : Result VerifyError VerificationReport → Bool
is_good (ok report) = report.ok
is_good (err e) = false

module _ (bytes32 : Text → Option ℕ) (time : ℕ) (m : Anchors) where
  contract_answer_iff :
      (reference commitment : Text)
      → (contract_answer bytes32 time m reference commitment ≡ some 1)
        ↔ IsLive bytes32 time m reference commitment
  unfolding zegel.Contracts.Anchor.verify
  contract_answer_iff reference commitment = (
    λ h. elim (Option-cases (bytes32 reference)) [
      | inl r ↦ absurd (ground arith)
      | inr (id, r) ↦ elim (Option-cases (bytes32 commitment)) [
        | inl c ↦ absurd (ground arith)
        | inr (k, c) ↦ record {
          id = id;
          is_reference = r;
          anchored = ground arith;
          not_revoked = ground arith;
          running = ground arith;
          sealed_under = ground arith;
        }
      ]
    ],
    λ l. ground (arith, l.is_reference, l.sealed_under, l.anchored, l.not_revoked, l.running),
  )

  read_anchor_good_iff :
      (client : AnchorClient) (envelope : SealedEnvelope) (shown : Option Text)
      → ((r c : Text) → client.verify r c ≡ contract_answer bytes32 time m r c)
      → (is_good (read_anchor client envelope shown) ≡ true) ↔ (
          IsLive bytes32 time m envelope.reference_id (asked envelope shown)
          × (asked envelope shown ≡ envelope.commitment))
  unfolding read_anchor report_of status_at
  read_anchor_good_iff client envelope none reads = ground (
    arith,
    reads envelope.reference_id envelope.commitment,
    contract_answer_iff envelope.reference_id envelope.commitment,
  )
  read_anchor_good_iff client envelope (some d) reads = ground (
    arith,
    reads envelope.reference_id d,
    contract_answer_iff envelope.reference_id d,
    digests_equal_iff d envelope.commitment,
  )

  -- On a client that reads the anchor contract, if the claims shown, where any are, have a
  -- digest, the check of a reference returns a report that is good exactly if the contract holds
  -- a live anchor of it under the digest of the claims shown, or under the envelope's commitment
  -- where none are, and the envelope's commitment is that text.
  pub verify_anchor_good_iff :
      (w : Writer) (h : Hashing) (client : AnchorClient) (envelope : SealedEnvelope)
      (claims : Option Value) (shown : Option Text)
      → ((r c : Text) → client.verify r c ≡ contract_answer bytes32 time m r c)
      → shown_digest w h claims ≡ ok shown
      → (is_good (verify_anchor w h client envelope claims) ≡ true) ↔ (
          IsLive bytes32 time m envelope.reference_id (asked envelope shown)
          × (asked envelope shown ≡ envelope.commitment))
  unfolding verify_anchor
  verify_anchor_good_iff w h client envelope claims shown reads digest =
      rw (digest, is_good, verify_anchor) (read_anchor_good_iff client envelope shown reads)
