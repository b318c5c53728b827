-- ===== src/Evidence/Claimset/Laws.antt =====
-- packages/evidence/src/claimset.ts: what tier 1 and the commitment do not disclose.
use zegel.Common.{◌≡◌, refl, ap, Option, none, List, [], ◌∷◌, All}
use zegel.Common.Text.{Text}
use zegel.Sdk.Canonical.{Writer, Hashing}
use zegel.Evidence.Numbers.{Double, Arithmetic}
use zegel.Evidence.Bundle.{Claim, EvidenceSource, EvidenceBundle, ControlProof}
use zegel.Evidence.Claimset.{strip_actual, strip_all, to_claim_set, commitment_for}

-- The claims with other measured values.
abbrev pub with_actuals : List (Option Double) → List Claim → List Claim
with_actuals vs [] = []
with_actuals [] (c ∷ cs) = c ∷ cs
with_actuals (v ∷ vs) (c ∷ cs) = record c { actual = v } ∷ with_actuals vs cs

-- A bundle that differs in all that tier 1 leaves out.
abbrev pub with_secrets :
    Text
    → List EvidenceSource
    → ControlProof
    → List (Option Double)
    → EvidenceBundle
    → EvidenceBundle
with_secrets address sources proof vs b = record b {
  address = address;
  sources = sources;
  control_proof = proof;
  claims = with_actuals vs b.claims;
}

strip_all-with_actuals :
    (vs : List (Option Double)) (cs : List Claim) → strip_all (with_actuals vs cs) ≡ strip_all cs
unfolding strip_all strip_actual
strip_all-with_actuals vs [] = refl
strip_all-with_actuals [] (c ∷ cs) = refl
strip_all-with_actuals (v ∷ vs) (c ∷ cs) = ap (◌∷◌ (strip_actual c)) (strip_all-with_actuals vs cs)

strip_all-none : (cs : List Claim) → All (λ c. c.actual ≡ none) (strip_all cs)
unfolding strip_all strip_actual
strip_all-none [] = tt
strip_all-none (c ∷ cs) = (refl, strip_all-none cs)

-- The set of claims holds no measured value; and with another address, other sources, another
-- proof of control and other measured values, a bundle has the same set of claims and the same
-- commitment.
pub commitment_for-with_secrets :
    (a : Arithmetic) (w : Writer) (h : Hashing) (b : EvidenceBundle) (address : Text)
    (sources : List EvidenceSource) (proof : ControlProof) (vs : List (Option Double))
    → All (λ c. c.actual ≡ none) (to_claim_set b).claims
      × (to_claim_set (with_secrets address sources proof vs b) ≡ to_claim_set b)
      × (commitment_for a w h (with_secrets address sources proof vs b) ≡ commitment_for a w h b)
unfolding to_claim_set commitment_for
commitment_for-with_secrets a w h b address sources proof vs = (
  strip_all-none b.claims,
  rw (strip_all-with_actuals vs b.claims) refl,
  rw (strip_all-with_actuals vs b.claims) refl,
)
