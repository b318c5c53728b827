-- ===== src/Cli/Tests.antt =====
-- Concrete assessments.
use zegel.Common.{◌≡◌, refl, ◌≢◌, ◌↔◌, true, false, none, some, All}
use zegel.Common.Int.{pos}
use zegel.Cli.Status.{
  valid, expired, revoked, tampered, not_granted, unverifiable, malformed, anchored_valid,
  anchor_revoked, commitment_mismatch, fail, granted, unchecked, checked, EnvelopeView, AssessInput,
  assess_reference, exit_code, exit_failure,
}
use zegel.Cli.Status.Verdicts.{IsProof, Some, valid_iff}

-- A reference that has not expired, is live on the chain and is read with its claims.
abbrev live : AssessInput
live = record {
  envelope = some (record { expires_ms = some (pos 2000); tiers = 2 });
  now = pos 1000;
  anchor = some anchored_valid;
  has_anchor_address = true;
  commitment = checked true;
  tier_read = some granted;
  malformed = false;
}

-- The same, revoked and past its expiry.
abbrev withdrawn : AssessInput
withdrawn = record live { anchor = some anchor_revoked; now = pos 3000 }

-- The public envelope alone.
abbrev bare : AssessInput
bare = record live { anchor = none; commitment = unchecked; tier_read = none }

live_status : (assess_reference live).status ≡ valid
unfolding assess_reference zegel.Cli.Status.assess_envelope
live_status = refl

withdrawn_status : (assess_reference withdrawn).status ≡ revoked
unfolding assess_reference zegel.Cli.Status.assess_envelope
withdrawn_status = refl

bare_status : (assess_reference bare).status ≡ unverifiable
unfolding assess_reference zegel.Cli.Status.assess_envelope
bare_status = refl

valid_iff_example : ((assess_reference live).status ≡ valid) ↔ (
    All (λ c. c.outcome ≢ fail) (assess_reference live).checks
    × Some IsProof (assess_reference live).checks)
valid_iff_example = valid_iff live
