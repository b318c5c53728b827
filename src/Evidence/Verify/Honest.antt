-- ===== src/Evidence/Verify/Honest.antt =====
-- packages/evidence/src/verify.ts: which bundles the check accepts.
use zegel.Common.{
  ◌≡◌, refl, sym, ap, subst, ◌∙◌, ◌↔◌, Bool, true, false, List, [], ◌∷◌, ◌++◌, All, arith,
  if◌then◌else◌,
}
use zegel.Common.Text.{Text, text_eq_iff}
use zegel.Common.JsMap.{get}
use zegel.Common.Result.{Result, ok, bind-eq-ok, ok-inj}
use zegel.Sdk.Canonical.{digests_equal}
use zegel.Sdk.Canonical.Laws.{digests_equal_iff}
use zegel.Evidence.Bundle.{Claim, EvidenceBundle, bundle_schema}
use zegel.Evidence.Derivation.{derivation_id}
use zegel.Evidence.Metrics.{claims_of_bundle}
use zegel.Evidence.Verify.{
  Checker, VerifyError, VerifyResult, Mismatch, other_rules, encoded, derived_or, collect,
  source_mismatch, claim_mismatch, claims_by_id, keys_lacking, absent_claim, underivable_claim,
  schema_mismatch, is_empty, verify_sources, verify_claims,
}
use zegel.Evidence.Verify.Stated.{last_with, SameStated, HasEqualMaps-iff}
use zegel.Evidence.Verify.Laws.{
  All-mono, is_empty-append, is_empty-eq, collect-nil, collect-All, keys_lacking_iff, IsFaithful,
  source_mismatch_iff, AgreesWith, claim_mismatch_iff, encoded-eq-ok, derived_or-eq-ok,
}

-- What the check is to find: `cs` are the claims that the bundle's own sources give.
pub record IsConfirmed (k : Checker) (b : EvidenceBundle) (cs : List Claim) : Type 0 where
  pub schema : b.schema ≡ bundle_schema
  pub rules : derivation_id k.writer k.hashing k.runtime.numbers ≡ ok b.derivation_id
  pub sources : All (λ s. IsFaithful k s s.unavailable s.body) b.sources
  pub derived : claims_of_bundle k.runtime b ≡ ok cs
  pub claims : (id : Text) → SameStated k (last_with id b.claims) (last_with id cs)

-- The check returns that the bundle is in order, having found the claims `cs`.
abbrev pub Accepts : Checker → EvidenceBundle → List Claim → Type 0
Accepts k b cs =
    (r : VerifyResult) × (verify_claims k b ≡ ok r)
    × (r.is_ok ≡ true)
    × (r.mismatches ≡ [])
    × (r.recomputed ≡ cs)

IsConfirmed-Accepts :
    (k : Checker) (b : EvidenceBundle) (cs : List Claim) → IsConfirmed k b cs → Accepts k b cs
unfolding verify_claims verify_sources
IsConfirmed-Accepts k b cs h =
    let maps = (HasEqualMaps-iff k b.claims cs).1 h.claims in
    (
      record { is_ok = true; mismatches = []; recomputed = cs },
      rw
          (
            h.rules,
            (digests_equal_iff b.derivation_id b.derivation_id).1 refl,
            collect-All (source_mismatch k) b.sources (
                All-mono (λ s. IsFaithful k s s.unavailable s.body)
                  (λ s. source_mismatch k s ≡ ok []) b.sources
                  (λ s e. (source_mismatch_iff k s).1 e) h.sources),
            h.derived,
            collect-All (claim_mismatch k (claims_by_id b.claims)) (claims_by_id cs) (
                All-mono (λ e. AgreesWith k e.1 (get e.0 (claims_by_id b.claims)))
                  (λ e. claim_mismatch k (claims_by_id b.claims) e ≡ ok []) (claims_by_id cs)
                  (λ e a. (claim_mismatch_iff k (claims_by_id b.claims) e).1 a) maps.equal),
            (keys_lacking_iff absent_claim (claims_by_id cs) (claims_by_id b.claims)).1
                maps.none_absent,
            (keys_lacking_iff underivable_claim (claims_by_id b.claims) (claims_by_id cs)).1
                maps.none_added,
            (text_eq_iff b.schema bundle_schema).1 h.schema,
          )
          refl,
      refl,
      refl,
      refl,
    )

schema_mismatch-nil : (s : Text) → schema_mismatch s ≡ [] → s ≡ bundle_schema
schema_mismatch-nil s h = ground (arith, text_eq_iff s bundle_schema)

chosen :
    (t : Bool) (x : Result VerifyError VerifyResult) (o r : VerifyResult)
    → (if t then x else ok o) ≡ ok r
    → o.is_ok ≡ false
    → r.is_ok ≡ true
    → (t ≡ true) × (x ≡ ok r)
chosen true x o r h e f = (refl, h)
chosen false x o r h e f = let same = ap (λ y. y.is_ok) (ok-inj o r h) in absurd cc

-- The rules of an accepted bundle are those of this build, and its sources were looked at.
accepted_rules :
    (k : Checker) (b : EvidenceBundle) (r : VerifyResult)
    → verify_claims k b ≡ ok r
    → r.is_ok ≡ true
    → (derivation_id k.writer k.hashing k.runtime.numbers ≡ ok b.derivation_id)
      × (verify_sources k b ≡ ok r)
unfolding verify_claims
accepted_rules k b r e h =
    let (rules, found, rest) =
      bind-eq-ok (encoded (derivation_id k.writer k.hashing k.runtime.numbers)) _ r e in
    let (same, checked) =
      chosen (digests_equal b.derivation_id rules) (verify_sources k b)
        (record {
          is_ok = false;
          mismatches = schema_mismatch b.schema ++ other_rules b.derivation_id rules ∷ [];
          recomputed = [];
        })
        r rest refl h in
    (
      encoded-eq-ok (derivation_id k.writer k.hashing k.runtime.numbers) rules found
          ∙ ap ok (sym ((digests_equal_iff b.derivation_id rules).0 same)),
      checked,
    )

-- The parts of the report are empty if it is.
all_empty :
    (s t u v w : List Mismatch)
    → is_empty (s ++ (t ++ (u ++ (v ++ w)))) ≡ true
    → (s ≡ []) × (t ≡ []) × (u ≡ []) × (v ≡ []) × (w ≡ [])
all_empty s t u v w h =
    let (a, h1) = is_empty-append s (t ++ (u ++ (v ++ w))) h in
    let (b, h2) = is_empty-append t (u ++ (v ++ w)) h1 in
    let (c, h3) = is_empty-append u (v ++ w) h2 in
    let (d, h4) = is_empty-append v w h3 in (a, b, c, d, is_empty-eq w h4)

IsConfirmed-of_parts :
    (k : Checker) (b : EvidenceBundle) (cs : List Claim) (in_sources in_claims : List Mismatch)
    → derivation_id k.writer k.hashing k.runtime.numbers ≡ ok b.derivation_id
    → collect (source_mismatch k) b.sources ≡ ok in_sources
    → derived_or (claims_of_bundle k.runtime b) ≡ ok cs
    → collect (claim_mismatch k (claims_by_id b.claims)) (claims_by_id cs) ≡ ok in_claims
    → is_empty (
        schema_mismatch b.schema
        ++ (in_sources
            ++ (keys_lacking absent_claim (claims_by_id cs) (claims_by_id b.claims)
                ++ (keys_lacking underivable_claim (claims_by_id b.claims) (claims_by_id cs)
                    ++ in_claims))))
      ≡ true
    → IsConfirmed k b cs
IsConfirmed-of_parts k b cs in_sources in_claims rules e1 e2 e3 h =
    let (no_schema, no_sources, no_absent, no_added, no_claims) =
      all_empty (schema_mismatch b.schema) in_sources
        (keys_lacking absent_claim (claims_by_id cs) (claims_by_id b.claims))
        (keys_lacking underivable_claim (claims_by_id b.claims) (claims_by_id cs)) in_claims h in
    record {
      schema = schema_mismatch-nil b.schema no_schema;
      rules = rules;
      sources =
          All-mono (λ s. source_mismatch k s ≡ ok []) (λ s. IsFaithful k s s.unavailable s.body)
            b.sources (λ s e. (source_mismatch_iff k s).0 e)
            (collect-nil (source_mismatch k) b.sources (e1 ∙ ap ok no_sources));
      derived = derived_or-eq-ok (claims_of_bundle k.runtime b) cs e2;
      claims = (HasEqualMaps-iff k b.claims cs).0 (record {
        none_absent =
            (keys_lacking_iff absent_claim (claims_by_id cs) (claims_by_id b.claims)).0 no_absent;
        none_added =
            (keys_lacking_iff underivable_claim (claims_by_id b.claims) (claims_by_id cs)).0
              no_added;
        equal =
            All-mono (λ e. claim_mismatch k (claims_by_id b.claims) e ≡ ok [])
              (λ e. AgreesWith k e.1 (get e.0 (claims_by_id b.claims))) (claims_by_id cs)
              (λ e a. (claim_mismatch_iff k (claims_by_id b.claims) e).0 a)
              (collect-nil (claim_mismatch k (claims_by_id b.claims)) (claims_by_id cs)
                (e3 ∙ ap ok no_claims));
      });
    }

Accepts-IsConfirmed :
    (k : Checker) (b : EvidenceBundle) (cs : List Claim) → Accepts k b cs → IsConfirmed k b cs
unfolding verify_sources
Accepts-IsConfirmed k b cs (r, e, is_ok, none_found, same) =
    let (rules, checked) = accepted_rules k b r e is_ok in
    let (in_sources, e1, k1) = bind-eq-ok (collect (source_mismatch k) b.sources) _ r checked in
    let (found, e2, k2) = bind-eq-ok (derived_or (claims_of_bundle k.runtime b)) _ r k1 in
    let (in_claims, e3, k3) =
      bind-eq-ok (collect (claim_mismatch k (claims_by_id b.claims)) (claims_by_id found)) _ r k2 in
    let report = ok-inj _ r k3 in
    subst (IsConfirmed k b) (ap (λ x. x.recomputed) report ∙ same) (
      IsConfirmed-of_parts k b found in_sources in_claims rules e1 e2 e3
        (ap (λ x. x.is_ok) report ∙ is_ok))

-- The check returns that a bundle is in order, with the claims it found, exactly if the bundle
-- has the schema and the rules of this build, no source that is marked unavailable has a body,
-- each other source's body, where it has one, has the digest stated, and for every name the last
-- claim stated under it and the last that the sources give are both missing, or have the same
-- canonical forms of statement, operator, unit, verdict, measure, threshold and sources; an
-- earlier claim of the same name is not compared.
pub verify_claims_iff :
    (k : Checker) (b : EvidenceBundle) (cs : List Claim) → Accepts k b cs ↔ IsConfirmed k b cs
verify_claims_iff k b cs = (Accepts-IsConfirmed k b cs, IsConfirmed-Accepts k b cs)
