-- ===== src/Evidence/Verify.antt =====
-- packages/evidence/src/verify.ts: a bundle is checked by deriving its claims once more. A line of the
-- report is the constructor that stands for it.
pub mod Laws
pub mod Stated
pub mod Honest
use zegel.Common.{ℕ, Bool, true, false, not, Option, none, some, List, [], ◌∷◌, ◌++◌, if◌then◌else◌}
use zegel.Common.Text.{Text, codes, text_eq}
use zegel.Common.JsMap.{get, set, lacks}
use zegel.Common.Result.{Result, ok, err, ◌>>=◌}
use zegel.Sdk.Canonical.{
  Value, Items, nil, cons, string, boolean, array, null, EncodeError, Writer, Hashing, canonicalize,
  canonical_digest, digests_equal,
}
use zegel.Evidence.Numbers.{Double, Arithmetic}
use zegel.Evidence.Bundle.{
  Claim, EvidenceSource, EvidenceBundle, Unavailable, bundle_schema, ClaimOp, ClaimUnit,
}
use zegel.Evidence.Derivation.{op_text, unit_text, number_value, threshold_value, derivation_id}
use zegel.Evidence.Sources.{Runtime}
use zegel.Evidence.Claims.{ClaimError}
use zegel.Evidence.Metrics.{claims_of_bundle}

pub data FieldName : Type 0 where
  statement op unit passed actual threshold sources : FieldName

pub data Mismatch : Type 0 where
  other_schema : Text → Mismatch
  other_rules : Text → Text → Mismatch
  unexpected_body : ℕ → Mismatch
  other_digest : ℕ → Text → Text → Mismatch
  absent_claim : Text → Mismatch
  underivable_claim : Text → Mismatch
  other_field : Text → FieldName → Text → Text → Mismatch

-- What is thrown: a value that has no canonical form, or a claim without a specification.
pub data VerifyError : Type 0 where
  encoding : EncodeError → VerifyError
  deriving_claims : ClaimError → VerifyError

pub record VerifyResult : Type 0 where
  pub is_ok : Bool
  pub mismatches : List Mismatch
  pub recomputed : List Claim

abbrev pub encoded {ℓ} : {A : Type ℓ} → Result EncodeError A → Result VerifyError A
encoded (ok x) = ok x
encoded (err e) = err (encoding e)

abbrev pub derived_or {ℓ} : {A : Type ℓ} → Result ClaimError A → Result VerifyError A
derived_or (ok x) = ok x
derived_or (err e) = err (deriving_claims e)

-- A loop that adds the mismatches of each element.
unfoldable pub collect {ℓ} :
    {X : Type ℓ}
    → (X → Result VerifyError (List Mismatch))
    → List X
    → Result VerifyError (List Mismatch)
collect f [] = ok []
collect f (x ∷ xs) = do here ← f x; rest ← collect f xs; ok (here ++ rest)

-- What the package's code takes from elsewhere.
pub record Checker : Type 0 where
  pub runtime : Runtime
  pub writer : Writer
  pub hashing : Hashing

abbrev pub body_mismatch :
    Checker
    → EvidenceSource
    → Option Unavailable
    → Option Value
    → Result VerifyError (List Mismatch)
body_mismatch k s (some u) none = ok []
body_mismatch k s (some u) (some v) = ok (unexpected_body s.index ∷ [])
body_mismatch k s none none = ok []
body_mismatch k s none (some v) = do
  digest ← encoded (canonical_digest k.writer k.hashing v)
  ok (if digests_equal digest s.digest then [] else other_digest s.index s.digest digest ∷ [])

unfoldable pub source_mismatch : Checker → EvidenceSource → Result VerifyError (List Mismatch)
source_mismatch k s = body_mismatch k s s.unavailable s.body

-- `new Map(claims.map((c) => [c.id, c]))`
unfoldable pub claims_from : List Claim → List (Text × Claim) → List (Text × Claim)
claims_from [] m = m
claims_from (c ∷ cs) m = claims_from cs (set c.id c m)

abbrev pub claims_by_id : List Claim → List (Text × Claim)
claims_by_id cs = claims_from cs []

-- One mismatch for each key of the first map that the second one lacks.
unfoldable pub keys_lacking :
    (Text → Mismatch) → List (Text × Claim) → List (Text × Claim) → List Mismatch
keys_lacking name [] m = []
keys_lacking name ((id, c) ∷ cs) m =
    let rest = keys_lacking name cs m in if lacks id m then name id ∷ rest else rest

abbrev pub actual_value : Arithmetic → Option Double → Value
actual_value a none = null
actual_value a (some d) = number_value a d

abbrev pub index_items : Arithmetic → List ℕ → Items
index_items a [] = nil
index_items a (i ∷ is) = cons (number_value a (a.of_nat i)) (index_items a is)

-- `claim[field] ?? null`
unfoldable pub field_value : Arithmetic → FieldName → Claim → Value
field_value a statement c = string c.statement
field_value a op c = string (op_text c.op)
field_value a unit c = string (unit_text c.unit)
field_value a passed c = boolean c.passed
field_value a actual c = actual_value a c.actual
field_value a threshold c = threshold_value a c.threshold
field_value a sources c = array (index_items a c.sources)

abbrev pub claim_fields : List FieldName
claim_fields = statement ∷ op ∷ unit ∷ passed ∷ actual ∷ threshold ∷ sources ∷ []

unfoldable pub field_mismatch :
    Checker → Text → Claim → Claim → FieldName → Result VerifyError (List Mismatch)
field_mismatch k id stated expected f = do
  x ← encoded (canonicalize k.writer (field_value k.runtime.numbers f stated))
  y ← encoded (canonicalize k.writer (field_value k.runtime.numbers f expected))
  ok (if text_eq x y then [] else other_field id f x y ∷ [])

abbrev pub stated_mismatch :
    Checker → Text → Claim → Option Claim → Result VerifyError (List Mismatch)
stated_mismatch k id expected none = ok []
stated_mismatch k id expected (some stated) =
    collect (field_mismatch k id stated expected) claim_fields

unfoldable pub claim_mismatch :
    Checker → List (Text × Claim) → Text × Claim → Result VerifyError (List Mismatch)
claim_mismatch k stated (id, expected) = stated_mismatch k id expected (get id stated)

abbrev pub schema_mismatch : Text → List Mismatch
schema_mismatch schema = if text_eq schema bundle_schema then [] else other_schema schema ∷ []

abbrev pub is_empty : List Mismatch → Bool
is_empty [] = true
is_empty (m ∷ ms) = false

-- What follows the test of the rules.
unfoldable pub verify_sources : Checker → EvidenceBundle → Result VerifyError VerifyResult
verify_sources k b = do
  in_sources ← collect (source_mismatch k) b.sources
  recomputed ← derived_or (claims_of_bundle k.runtime b)
  let stated = claims_by_id b.claims
  let derived = claims_by_id recomputed
  in_claims ← collect (claim_mismatch k stated) derived
  let mismatches =
      schema_mismatch b.schema
      ++ (in_sources
          ++ (keys_lacking absent_claim derived stated
              ++ (keys_lacking underivable_claim stated derived ++ in_claims)))
  ok (record { is_ok = is_empty mismatches; mismatches = mismatches; recomputed = recomputed })

unfoldable pub verify_claims : Checker → EvidenceBundle → Result VerifyError VerifyResult
verify_claims k b = do
  rules ← encoded (derivation_id k.writer k.hashing k.runtime.numbers)
  if digests_equal b.derivation_id rules
      then verify_sources k b
      else ok (record {
        is_ok = false;
        mismatches = schema_mismatch b.schema ++ other_rules b.derivation_id rules ∷ [];
        recomputed = [];
      })
