-- ===== src/Cli/Status.antt =====
-- cli/src/core/status.ts: what a verifier may conclude. A text of the source is the constructor that
-- stands for it, without the values that are written into it.
pub mod Verdicts
use zegel.Common.{
  ℕ, Bool, true, false, not, ◌&&◌, ◌||◌, Option, none, some, List, [], ◌∷◌, ◌++◌, ◌==◌,
  if◌then◌else◌,
}
use zegel.Common.Int.{ℤ, leb_ℤ}

pub data ReferenceStatus : Type 0 where
  valid expired revoked tampered not_granted unverifiable malformed : ReferenceStatus

pub data AnchorOutcome : Type 0 where
  never_anchored anchored_valid anchor_expired anchor_revoked commitment_mismatch : AnchorOutcome

pub data CheckOutcome : Type 0 where
  pass fail skipped : CheckOutcome

pub data CheckName : Type 0 where
  envelope_schema expiry commitment on_chain_anchor sealed_tier : CheckName

pub record Check : Type 0 where
  pub name : CheckName
  pub outcome : CheckOutcome

pub data TierRead : Type 0 where
  granted refused not_attempted : TierRead

-- `input.commitment`: absent, not checked, or checked with its result.
pub data CommitmentCheck : Type 0 where
  absent unchecked : CommitmentCheck
  checked : Bool → CommitmentCheck

-- The fields of the envelope that are read: its expiry in milliseconds, with `none` for a text that
-- `Date.parse` cannot read, and the number of its tiers.
pub record EnvelopeView : Type 0 where
  pub expires_ms : Option ℤ
  pub tiers : ℕ

pub record AssessInput : Type 0 where
  pub envelope : Option EnvelopeView
  pub now : ℤ
  pub anchor : Option AnchorOutcome
  pub has_anchor_address : Bool
  pub commitment : CommitmentCheck
  pub tier_read : Option TierRead
  pub malformed : Bool

pub data Remark : Type 0 where
  unreadable wrong_claims also_mismatched_on_chain mismatched_on_chain anyone_can_repeat : Remark
  observable_on_chain forward_only was_valid_until aged_out swarm_404 by_design : Remark
  nothing_supplied public_metadata all_passed live_on_chain no_anchor_consulted : Remark
  anchor_unreadable unknown_to_anchor no_tier_published no_claim_set : Remark

pub record Assessment : Type 0 where
  pub status : ReferenceStatus
  pub reasons : List Remark
  pub checks : List Check
  pub exit_code : ℕ
  pub anchor_checked : Bool

unfoldable pub exit_code : ReferenceStatus → ℕ
exit_code valid = 0
exit_code expired = 2
exit_code revoked = 3
exit_code tampered = 4
exit_code not_granted = 5
exit_code malformed = 6
exit_code unverifiable = 7

abbrev pub exit_failure : ℕ
exit_failure = 1

abbrev check : CheckName → CheckOutcome → Check
check name outcome = record { name = name; outcome = outcome }

abbrev is_past : Option ℤ → ℤ → Bool
is_past none now = false
is_past (some ms) now = leb_ℤ ms now

abbrev pub expiry_outcome : Option ℤ → ℤ → CheckOutcome
expiry_outcome none now = skipped
expiry_outcome (some ms) now = if leb_ℤ ms now then fail else pass

abbrev pub commitment_outcome : CommitmentCheck → CheckOutcome
commitment_outcome absent = skipped
commitment_outcome unchecked = skipped
commitment_outcome (checked matches) = if matches then pass else fail

abbrev pub anchor_outcome : Option AnchorOutcome → CheckOutcome
anchor_outcome none = skipped
anchor_outcome (some anchored_valid) = pass
anchor_outcome (some never_anchored) = skipped
anchor_outcome (some _) = fail

-- `input.tierRead ?? 'not-attempted'`
abbrev pub tier_of : Option TierRead → TierRead
tier_of none = not_attempted
tier_of (some t) = t

abbrev pub tier_outcome : TierRead → CheckOutcome
tier_outcome granted = pass
tier_outcome refused = fail
tier_outcome not_attempted = skipped

abbrev is_checked : Option AnchorOutcome → Bool
is_checked none = false
is_checked (some a) = true

abbrev pub checks_of : AssessInput → EnvelopeView → List Check
checks_of i e =
    check envelope_schema pass
    ∷ check expiry (expiry_outcome e.expires_ms i.now)
    ∷ check commitment (commitment_outcome i.commitment)
    ∷ check on_chain_anchor (anchor_outcome i.anchor)
    ∷ check sealed_tier (tier_outcome (tier_of i.tier_read))
    ∷ []

abbrev verdict : AssessInput → EnvelopeView → ReferenceStatus → List Remark → Assessment
verdict i e status reasons = record {
  status = status;
  reasons = reasons;
  checks = checks_of i e;
  exit_code = exit_code status;
  anchor_checked = is_checked i.anchor;
}

abbrev is_mismatch : CommitmentCheck → Bool
is_mismatch (checked matches) = not matches
is_mismatch _ = false

abbrev is_match : CommitmentCheck → Bool
is_match (checked matches) = matches
is_match _ = false

abbrev claims_read : CommitmentCheck → Bool
claims_read (checked matches) = true
claims_read _ = false

abbrev contradicts : Option AnchorOutcome → Bool
contradicts (some commitment_mismatch) = true
contradicts _ = false

abbrev says_revoked : Option AnchorOutcome → Bool
says_revoked (some anchor_revoked) = true
says_revoked _ = false

abbrev says_expired : Option AnchorOutcome → Bool
says_expired (some anchor_expired) = true
says_expired _ = false

abbrev says_valid : Option AnchorOutcome → Bool
says_valid (some anchored_valid) = true
says_valid _ = false

abbrev is_refused : TierRead → Bool
is_refused refused = true
is_refused _ = false

abbrev is_granted : TierRead → Bool
is_granted granted = true
is_granted _ = false

abbrev when : Bool → Remark → List Remark
when true r = r ∷ []
when false r = []

abbrev tampered_reasons : AssessInput → List Remark
tampered_reasons i =
    if is_mismatch i.commitment
    then wrong_claims ∷ when (contradicts i.anchor) also_mismatched_on_chain
    else mismatched_on_chain ∷ anyone_can_repeat ∷ []

abbrev anchor_reasons : Option AnchorOutcome → Bool → List Remark
anchor_reasons none address = (if address then anchor_unreadable else no_anchor_consulted) ∷ []
anchor_reasons (some anchored_valid) address = live_on_chain ∷ []
anchor_reasons (some never_anchored) address = unknown_to_anchor ∷ []
anchor_reasons (some _) address = []

abbrev valid_reasons : AssessInput → EnvelopeView → List Remark
valid_reasons i e =
    all_passed
    ∷ (anchor_reasons i.anchor i.has_anchor_address
        ++ (when (e.tiers == 0) no_tier_published
            ++ when (not (claims_read i.commitment)) no_claim_set))

-- The verdict on an envelope that could be read, in the order of what matters most to the reader.
unfoldable pub assess_envelope : AssessInput → EnvelopeView → Assessment
assess_envelope i e =
    if is_mismatch i.commitment || contradicts i.anchor
    then verdict i e tampered (tampered_reasons i)
    else if says_revoked i.anchor
    then verdict i e revoked (observable_on_chain ∷ forward_only ∷ [])
    else if is_past e.expires_ms i.now || says_expired i.anchor
    then verdict i e expired (was_valid_until ∷ aged_out ∷ [])
    else if is_refused (tier_of i.tier_read)
    then verdict i e not_granted (swarm_404 ∷ by_design ∷ [])
    else if not (is_match i.commitment || (says_valid i.anchor || is_granted (tier_of i.tier_read)))
    then verdict i e unverifiable (nothing_supplied ∷ public_metadata ∷ [])
    else verdict i e valid (valid_reasons i e)

abbrev pub malformed_assessment : Assessment
malformed_assessment = record {
  status = malformed;
  reasons = unreadable ∷ [];
  checks = check envelope_schema fail ∷ [];
  exit_code = exit_code malformed;
  anchor_checked = false;
}

abbrev assess_view : AssessInput → Option EnvelopeView → Assessment
assess_view i none = malformed_assessment
assess_view i (some e) = assess_envelope i e

unfoldable pub assess_reference : AssessInput → Assessment
assess_reference i = if i.malformed then malformed_assessment else assess_view i i.envelope
