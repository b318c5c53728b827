-- ===== src/Evidence/Build/Laws.antt =====
-- packages/evidence/src/collect.ts: a bundle that is built passes its own check.
use zegel.Common.{
  ℕ, ◌+◌, ◌≡◌, refl, sym, subst, ◌∙◌, Bool, true, false, Option, none, some, List, [], ◌∷◌, ◌++◌,
  All, if◌then◌else◌,
}
use zegel.Common.Text.{Text, text_eq}
use zegel.Common.Result.{ok, bind-eq-ok, ok-inj}
use zegel.Sdk.Canonical.{null, canonicalize, canonical_digest}
use zegel.Evidence.Bundle.{Claim, EvidenceSource, EvidenceBundle}
use zegel.Evidence.Derivation.{derivation_id}
use zegel.Evidence.Metrics.{claims_of_bundle, derive_metrics}
use zegel.Evidence.Cycles.{bounds_of, closed_cycles, collect_cycles}
use zegel.Evidence.Sources.{usable_sources}
use zegel.Evidence.Verify.{Checker, encoded, derived_or, field_value, claim_fields}
use zegel.Evidence.Verify.Laws.{All-mono, IsFaithful, Agree, encoded-eq-ok, derived_or-eq-ok}
use zegel.Evidence.Verify.Stated.{last_or, last_with, SameClaim, SameStated, AgreesWith-iff}
use zegel.Evidence.Verify.Honest.{Accepts, verify_claims_iff}
use zegel.Evidence.Build.{
  CollectedResult, Outcome, body, failure, Subject, source_of, to_source, to_sources, draft,
  build_evidence,
}

source_of-IsFaithful :
    (k : Checker) (r : CollectedResult) (i : ℕ) (o : Outcome) (s : EvidenceSource)
    → source_of k r i o ≡ ok s
    → IsFaithful k s s.unavailable s.body
source_of-IsFaithful k r i (failure reason status) s h =
    let (digest, e, m) = bind-eq-ok (encoded (canonical_digest k.writer k.hashing null)) _ s h in
    subst (λ x. IsFaithful k x x.unavailable x.body) (ok-inj _ s m) tt
source_of-IsFaithful k r i (body v) s h =
    let (digest, e, m) = bind-eq-ok (encoded (canonical_digest k.writer k.hashing v)) _ s h in
    subst (λ x. IsFaithful k x x.unavailable x.body) (ok-inj _ s m)
      (encoded-eq-ok (canonical_digest k.writer k.hashing v) digest e)

to_sources-IsFaithful :
    (k : Checker) (i : ℕ) (rs : List CollectedResult) (ss : List EvidenceSource)
    → to_sources k i rs ≡ ok ss
    → All (λ s. IsFaithful k s s.unavailable s.body) ss
unfolding to_sources to_source
to_sources-IsFaithful k i [] ss h =
    subst (All (λ s. IsFaithful k s s.unavailable s.body)) (ok-inj [] ss h) tt
to_sources-IsFaithful k i (r ∷ rs) ss h =
    let (s, e, m) = bind-eq-ok (to_source k r i) _ ss h in
    let (rest, e', m') = bind-eq-ok (to_sources k (i + 1) rs) _ ss m in
    subst (All (λ s. IsFaithful k s s.unavailable s.body)) (ok-inj (s ∷ rest) ss m')
      (source_of-IsFaithful k r i r.outcome s e, to_sources-IsFaithful k (i + 1) rs rest e')

-- Every field of a claim has a canonical form.
abbrev pub HasForms : Checker → Claim → Type 0
HasForms k c =
    All (λ f. (t : Text) × (canonicalize k.writer (field_value k.runtime.numbers f c) ≡ ok t))
      claim_fields

-- The derivation does not read the claims that a bundle states.
claims_of_bundle-stated :
    (k : Checker) (b : EvidenceBundle) (cs : List Claim)
    → claims_of_bundle k.runtime (record b { claims = cs }) ≡ claims_of_bundle k.runtime b
unfolding claims_of_bundle derive_metrics closed_cycles collect_cycles bounds_of usable_sources
claims_of_bundle-stated k b cs = refl

HasForms-SameClaim : (k : Checker) (c : Claim) → HasForms k c → SameClaim k c c
HasForms-SameClaim k c forms = (AgreesWith-iff k c c).0 (
    All-mono (λ f. (t : Text) × (canonicalize k.writer (field_value k.runtime.numbers f c) ≡ ok t))
      (Agree k c c) claim_fields (λ f x. (x.0, x.1, x.1)) forms)

last_or-itself :
    (k : Checker) (o : Option Claim) (t : Bool) (c : Claim)
    → SameStated k o o
    → SameClaim k c c
    → let e = last_or o (if t then some c else none) in SameStated k e e
last_or-itself k none true c h q = q
last_or-itself k none false c h q = tt
last_or-itself k (some d) t c h q = h

-- Where the fields of the claims have canonical forms, the last claim of a name is the same as
-- itself.
last_with-itself :
    (k : Checker) (id : Text) (cs : List Claim)
    → All (HasForms k) cs
    → SameStated k (last_with id cs) (last_with id cs)
unfolding last_with
last_with-itself k id [] h = tt
last_with-itself k id (c ∷ cs) (q, h) =
    last_or-itself k (last_with id cs) (text_eq c.id id) c (last_with-itself k id cs h)
      (HasForms-SameClaim k c q)

-- A bundle that is built is accepted by the check, with the very claims that it states, if every
-- field of these claims has a canonical form.
pub build_evidence-Accepts :
    (k : Checker) (s : Subject) (collected security : List CollectedResult) (b : EvidenceBundle)
    → build_evidence k s collected security ≡ ok b
    → All (HasForms k) b.claims
    → Accepts k b b.claims
unfolding build_evidence
build_evidence-Accepts k s collected security b h forms =
    let (rules, e1, m1) =
      bind-eq-ok (encoded (derivation_id k.writer k.hashing k.runtime.numbers)) _ b h in
    let (sources, e2, m2) = bind-eq-ok (to_sources k 0 (collected ++ security)) _ b m1 in
    let (claims, e3, m3) =
      bind-eq-ok (derived_or (claims_of_bundle k.runtime (draft s rules sources))) _ b m2 in
    let same = ok-inj (record (draft s rules sources) { claims = claims }) b m3 in
    let given = subst (λ x. All (HasForms k) x.claims) (sym same) forms in
    subst (λ x. Accepts k x x.claims) same
      ((verify_claims_iff k (record (draft s rules sources) { claims = claims }) claims).1 (record {
        schema = refl;
        rules = encoded-eq-ok (derivation_id k.writer k.hashing k.runtime.numbers) rules e1;
        sources = to_sources-IsFaithful k 0 (collected ++ security) sources e2;
        derived =
            claims_of_bundle-stated k (draft s rules sources) claims
            ∙ derived_or-eq-ok (claims_of_bundle k.runtime (draft s rules sources)) claims e3;
        claims = λ id. last_with-itself k id claims given;
      }))
