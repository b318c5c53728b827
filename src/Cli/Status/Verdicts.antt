-- ===== src/Cli/Status/Verdicts.antt =====
-- cli/src/core/status.ts: the verdicts, in terms of the checks that the assessment lists.
use zegel.Common.{◌≡◌, ◌≢◌, ◌↔◌, ◌⊎◌, true, false, none, some, List, [], ◌∷◌, All, arith}
use zegel.Cli.Status.{
  ReferenceStatus, valid, revoked, tampered, unverifiable, malformed, anchor_revoked,
  commitment_mismatch, pass, fail, commitment, on_chain_anchor, sealed_tier, Check, checked,
  AssessInput, Assessment, exit_code, exit_failure, assess_envelope, assess_reference,
}

-- A check of something beyond the envelope itself that passed.
abbrev pub IsProof : Check → Type 0
IsProof c =
    ((c.name ≡ commitment) ⊎ ((c.name ≡ on_chain_anchor) ⊎ (c.name ≡ sealed_tier)))
    × (c.outcome ≡ pass)

abbrev pub Some : (Check → Type 0) → List Check → Type 0
Some P [] = ⊥
Some P (c ∷ cs) = P c ⊎ Some P cs

module _ (i : AssessInput) where
  abbrev pub result : Assessment
  result = assess_reference i

  -- The verdict is valid exactly if no listed check failed and one of the commitment, the chain's
  -- anchor and the sealed tier passed.
  pub valid_iff :
      (result.status ≡ valid)
      ↔ (All (λ c. c.outcome ≢ fail) result.checks × Some IsProof result.checks)
  unfolding assess_reference assess_envelope
  valid_iff = ground arith

  -- The input could be read as an envelope.
  abbrev pub IsReadable : Type 0
  IsReadable = (i.malformed ≡ false) × (i.envelope ≢ none)

  -- The verdict is malformed exactly if the input was marked malformed or holds no envelope.
  pub malformed_iff : (result.status ≡ malformed) ↔ ((i.malformed ≡ true) ⊎ (i.envelope ≡ none))
  unfolding assess_reference assess_envelope
  malformed_iff = ground arith

  -- The verdict is tampered exactly if the input is an envelope and the recomputed commitment or
  -- the chain contradicts it.
  tampered_iff :
      (result.status ≡ tampered)
      ↔ (IsReadable × ((i.commitment ≡ checked false) ⊎ (i.anchor ≡ some commitment_mismatch)))
  unfolding assess_reference assess_envelope
  tampered_iff = ground arith

  -- The verdict is revoked exactly if the input is an envelope, the chain says revoked, and the
  -- commitment is not known to be wrong.
  revoked_iff :
      (result.status ≡ revoked)
      ↔ (IsReadable × (i.anchor ≡ some anchor_revoked) × (i.commitment ≢ checked false))
  unfolding assess_reference assess_envelope
  revoked_iff = ground arith

  -- The verdict is unverifiable exactly if no listed check failed and none of the commitment, the
  -- anchor and the sealed tier passed.
  unverifiable_iff :
      (result.status ≡ unverifiable)
      ↔ (All (λ c. c.outcome ≢ fail) result.checks × ¬ (Some IsProof result.checks))
  unfolding assess_reference assess_envelope
  unverifiable_iff = ground arith

  -- The exit code of an assessment is 0 exactly if its verdict is valid, and it is never the code
  -- of an operational failure.
  exit_code_iff :
      ((result.exit_code ≡ 0) ↔ (result.status ≡ valid)) × (result.exit_code ≢ exit_failure)
  unfolding assess_reference assess_envelope exit_code
  exit_code_iff = ground arith

-- Two verdicts with the same exit code are the same.
exit_code_injective : (s t : ReferenceStatus) → exit_code s ≡ exit_code t → s ≡ t
unfolding exit_code
exit_code_injective s t h = ground arith
