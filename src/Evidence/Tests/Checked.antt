-- ===== src/Evidence/Tests/Checked.antt =====
-- packages/evidence/src/verify.ts, claimset.ts and collect.ts: a bundle of two sources.
use zegel.Common.{
  ℕ, ◌≡◌, refl, ◌↔◌, false, Option, none, some, List, [], ◌∷◌, ◌++◌, All, if◌then◌else◌,
}
use zegel.Common.Text.{Text, codes}
use zegel.Common.Result.{ok}
use zegel.Sdk.Canonical.{
  boolean, canonicalize, canonical_digest, encode, encode_items, insert_entry, sort_entries,
  write_entries, join_commas, text_ltb,
}
use zegel.Evidence.Bundle.{
  Claim, EvidenceSource, EvidenceBundle, ControlProof, Threshold, bar, range,
}
use zegel.Evidence.Derivation
use zegel.Evidence.Derivation.{op_text, unit_text, threshold_value}
use zegel.Evidence.Specs
use zegel.Evidence.Claims.Laws.{derive_claims_lem, claims_of, measured}
use zegel.Evidence.Metrics
use zegel.Evidence.Claimset
use zegel.Evidence.Claimset.Laws.{with_secrets, commitment_for-with_secrets}
use zegel.Evidence.Verify
use zegel.Evidence.Verify.{Checker, VerifyError}
use zegel.Evidence.Verify.Honest.{IsConfirmed, Accepts, verify_claims_iff}
use zegel.Evidence.Build
use zegel.Evidence.Build.{draft, CollectedResult, body, failure, Subject, build_evidence}
use zegel.Evidence.Build.Laws.{HasForms, build_evidence-Accepts}
use zegel.Evidence.Tests.{whole_numbers, one_trade_runtime, plain_writer, plain_hashing}

abbrev checker : Checker
checker = record { runtime = one_trade_runtime; writer = plain_writer; hashing = plain_hashing }

abbrev subject : Subject
subject = record {
  address = codes "0xab";
  chains = codes "solana" ∷ codes "evm:1" ∷ [];
  window = record { from = codes "1"; to = codes "12345" };
  reference_id = codes "0x1";
  derived_at = codes "now";
  control_proof = none;
}

-- The funding of the wallet, and an endpoint that failed.
abbrev funded : CollectedResult
funded = record {
  path = Specs.funding;
  params = [];
  fetched_at = codes "t";
  outcome = body (boolean false);
}

abbrev unlabelled : CollectedResult
unlabelled = record {
  path = Specs.labels;
  params = [];
  fetched_at = codes "t";
  outcome = failure (codes "HTTP 500") (some 500);
}

-- Every digest is the empty one, and every number is finite.
abbrev no_digest : Text
no_digest = codes "0x"

abbrev two_sources : List EvidenceSource
two_sources =
    record {
      index = 0;
      endpoint = codes "GET " ++ Specs.funding;
      params = [];
      fetched_at = codes "t";
      digest = no_digest;
      body = some (boolean false);
      unavailable = none;
    }
    ∷ record {
      index = 1;
      endpoint = codes "GET " ++ Specs.labels;
      params = [];
      fetched_at = codes "t";
      digest = no_digest;
      body = none;
      unavailable = some (record { reason = codes "HTTP 500"; status = some 500 });
    }
    ∷ []

abbrev built : EvidenceBundle
built = record (draft subject no_digest two_sources) {
  claims = claims_of whole_numbers (
      measured whole_numbers
        (Metrics.derive_metrics one_trade_runtime (draft subject no_digest two_sources)).measures);
}

verify_claims_iff_example :
    Accepts checker built built.claims ↔ IsConfirmed checker built built.claims
verify_claims_iff_example = verify_claims_iff checker built built.claims

abbrev signed_proof : ControlProof
signed_proof = record { message = codes "m"; signature = codes "s"; signer = codes "a" }

commitment_for-with_secrets_example :
    All (λ c. c.actual ≡ none) (Claimset.to_claim_set built).claims
    × (Claimset.to_claim_set (with_secrets (codes "0xcd") [] signed_proof (none ∷ []) built)
        ≡ Claimset.to_claim_set built)
    × (Claimset.commitment_for whole_numbers plain_writer plain_hashing
          (with_secrets (codes "0xcd") [] signed_proof (none ∷ []) built)
        ≡ Claimset.commitment_for whole_numbers plain_writer plain_hashing built)
commitment_for-with_secrets_example =
    commitment_for-with_secrets whole_numbers plain_writer plain_hashing built (codes "0xcd") []
      signed_proof (none ∷ [])

index_items-form :
    (is : List ℕ)
    → (ts : List Text) × (encode_items plain_writer (Verify.index_items whole_numbers is) ≡ ok ts)
unfolding encode
index_items-form [] = ([], refl)
index_items-form (i ∷ is) = let (ts, e) = index_items-form is in ((i ∷ []) ∷ ts, rw e refl)

threshold-form :
    (t : Threshold)
    → (x : Text) × (canonicalize plain_writer (threshold_value whole_numbers t) ≡ ok x)
unfolding canonicalize encode
threshold-form (bar d) = (d ∷ [], refl)
threshold-form (range lo hi) = (_, refl)

actual-form :
    (o : Option ℕ)
    → (x : Text) × (canonicalize plain_writer (Verify.actual_value whole_numbers o) ≡ ok x)
unfolding canonicalize encode
actual-form none = (codes "null", refl)
actual-form (some d) = (d ∷ [], refl)

every_claim-HasForms : (c : Claim) → HasForms checker c
unfolding canonicalize encode Verify.field_value
every_claim-HasForms c =
    let (ts, e) = index_items-form c.sources in
    (
      (c.statement, refl),
      (
        (op_text c.op, refl),
        (
          (unit_text c.unit, refl),
          (
            (if c.passed then codes "true" else codes "false", refl),
            (
              actual-form c.actual,
              (
                threshold-form c.threshold,
                ((codes "[" ++ join_commas ts ++ codes "]", rw e refl), tt),
              ),
            ),
          ),
        ),
      ),
    )

claims-HasForms : (cs : List Claim) → All (HasForms checker) cs
claims-HasForms [] = tt
claims-HasForms (c ∷ cs) = (every_claim-HasForms c, claims-HasForms cs)

built_here : build_evidence checker subject (funded ∷ unlabelled ∷ []) [] ≡ ok built
unfolding build_evidence Build.to_sources Build.to_source Derivation.derivation_id
    Derivation.derivation canonical_digest canonicalize encode sort_entries insert_entry
    write_entries join_commas text_ltb Metrics.claims_of_bundle
built_here =
    rw
      (derive_claims_lem whole_numbers
        (Metrics.derive_metrics one_trade_runtime (draft subject no_digest two_sources)).measures)
      refl

build_evidence-Accepts_example : Accepts checker built built.claims
build_evidence-Accepts_example =
    build_evidence-Accepts checker subject (funded ∷ unlabelled ∷ []) [] built built_here
      (claims-HasForms built.claims)
