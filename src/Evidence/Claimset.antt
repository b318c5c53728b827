-- ===== src/Evidence/Claimset.antt =====
-- packages/evidence/src/claimset.ts: what a bundle discloses at tier 1, and the commitment to it.
pub mod Laws
use zegel.Common.{Option, none, List, [], ◌∷◌}
use zegel.Common.Text.{Text, codes}
use zegel.Common.Result.{Result}
use zegel.Sdk.Canonical.{
  Value, Items, nil, cons, string, boolean, array, object, EncodeError, Writer, Hashing,
  canonical_digest,
}
use zegel.Evidence.Numbers.{Double, Arithmetic}
use zegel.Evidence.Bundle.{Claim, ClaimSet, TimeWindow, EvidenceBundle, claims_schema}
use zegel.Evidence.Derivation.{
  fields_of, text_items, op_text, unit_text, threshold_value, number_value,
}
use zegel.Evidence.Verify.{index_items}

unfoldable pub strip_actual : Claim → Claim
strip_actual c = record {
  id = c.id;
  statement = c.statement;
  op = c.op;
  threshold = c.threshold;
  unit = c.unit;
  passed = c.passed;
  actual = none;
  sources = c.sources;
}

unfoldable pub strip_all : List Claim → List Claim
strip_all [] = []
strip_all (c ∷ cs) = strip_actual c ∷ strip_all cs

unfoldable pub to_claim_set : EvidenceBundle → ClaimSet
to_claim_set b = record {
  schema = claims_schema;
  reference_id = b.reference_id;
  chains = b.chains;
  window = b.window;
  claims = strip_all b.claims;
  derived_at = b.derived_at;
  derivation_id = b.derivation_id;
}

-- A claim as a JavaScript object. `stripActual` gives its fields in this order, with no `actual`.
abbrev claim_value : Arithmetic → Claim → Value
claim_value a c = object (
    fields_of (
      (codes "id", string c.id)
      ∷ (codes "statement", string c.statement)
      ∷ (codes "op", string (op_text c.op))
      ∷ (codes "threshold", threshold_value a c.threshold)
      ∷ (codes "unit", string (unit_text c.unit))
      ∷ (codes "passed", boolean c.passed)
      ∷ (codes "sources", array (index_items a c.sources))
      ∷ []))

abbrev claim_items : Arithmetic → List Claim → Items
claim_items a [] = nil
claim_items a (c ∷ cs) = cons (claim_value a c) (claim_items a cs)

abbrev window_value : TimeWindow → Value
window_value w = object (fields_of ((codes "from", string w.from) ∷ (codes "to", string w.to) ∷ []))

unfoldable pub claim_set_value : Arithmetic → ClaimSet → Value
claim_set_value a s = object (
    fields_of (
      (codes "schema", string s.schema)
      ∷ (codes "referenceId", string s.reference_id)
      ∷ (codes "chains", array (text_items s.chains))
      ∷ (codes "window", window_value s.window)
      ∷ (codes "claims", array (claim_items a s.claims))
      ∷ (codes "derivedAt", string s.derived_at)
      ∷ (codes "derivationId", string s.derivation_id)
      ∷ []))

unfoldable pub commitment_for :
    Arithmetic → Writer → Hashing → EvidenceBundle → Result EncodeError Text
commitment_for a w h b = canonical_digest w h (claim_set_value a (to_claim_set b))
