-- ===== src/Evidence/Claims/Described.antt =====
-- packages/evidence/src/derive.ts: what a claim says, and which claims are derived.
use zegel.Common.{
  ℕ, ◌≡◌, refl, ◌↔◌, ◌<◌, Bool, true, Option, none, some, List, [], ◌∷◌, map, All, any, ◌==◌, arith,
}
use zegel.Common.Result.{ok}
use zegel.Evidence.Numbers.{Double, Arithmetic}
use zegel.Evidence.Bundle.{Claim, ClaimOp, gte, lte, between, eq, Threshold, bar, range}
use zegel.Evidence.Specs.{ClaimSpec, claim_specs}
use zegel.Evidence.Claims.{
  Measures, evaluate, insert_index, sorted_indices, claim_of, derive_claims,
}
use zegel.Evidence.Claims.Laws.{measured, claims_of, derive_claims_lem}

-- The measure meets the threshold under the operator; a threshold of the wrong shape is never met.
abbrev pub Meets : Arithmetic → ClaimOp → Double → Threshold → Type 0
Meets a gte actual (bar b) = a.le b actual ≡ true
Meets a lte actual (bar b) = a.le actual b ≡ true
Meets a eq actual (bar b) = a.same actual b ≡ true
Meets a between actual (range lo hi) = (a.le lo actual ≡ true) × (a.le actual hi ≡ true)
Meets a between actual (bar b) = ⊥
Meets a gte actual (range lo hi) = ⊥
Meets a lte actual (range lo hi) = ⊥
Meets a eq actual (range lo hi) = ⊥

evaluate_iff :
    (a : Arithmetic) (op : ClaimOp) (actual : Double) (t : Threshold)
    → (evaluate a op actual t ≡ true) ↔ Meets a op actual t
unfolding evaluate
evaluate_iff a gte actual (bar b) = ground arith
evaluate_iff a lte actual (bar b) = ground arith
evaluate_iff a eq actual (bar b) = ground arith
evaluate_iff a between actual (bar b) = ground arith
evaluate_iff a between actual (range lo hi) = ground arith
evaluate_iff a gte actual (range lo hi) = ground arith
evaluate_iff a lte actual (range lo hi) = ground arith
evaluate_iff a eq actual (range lo hi) = ground arith

-- Every number is below those that follow it.
abbrev pub IsRising : List ℕ → Type 0
IsRising [] = Unit {0}
IsRising (i ∷ is) = All (λ j. i < j) is × IsRising is

abbrev pub holds : ℕ → List ℕ → Bool
holds i is = any (λ j. j == i) is

insert_index-All :
    (x k : ℕ) (is : List ℕ) → k < x → All (λ j. k < j) is → All (λ j. k < j) (insert_index x is)
unfolding insert_index
insert_index-All x k [] h t = (h, tt)
insert_index-All x k (i ∷ is) h t = ground (arith, insert_index-All x k is)

All-below : (x i : ℕ) (is : List ℕ) → x < i → All (λ j. i < j) is → All (λ j. x < j) is
All-below x i [] h t = tt
All-below x i (j ∷ is) h (lt, t) = (omega (arith, h, lt), All-below x i is h t)

insert_index-IsRising : (x : ℕ) (is : List ℕ) → IsRising is → IsRising (insert_index x is)
unfolding insert_index
insert_index-IsRising x [] h = (tt, tt)
insert_index-IsRising x (i ∷ is) (below, h) =
    ground (arith, All-below x i is, insert_index-All x i is, insert_index-IsRising x is)

holds-insert_index : (k x : ℕ) (is : List ℕ) → holds k (insert_index x is) ≡ holds k (x ∷ is)
unfolding insert_index
holds-insert_index k x [] = refl
holds-insert_index k x (i ∷ is) = ground (arith, holds-insert_index k x is)

sorted_indices-IsRising : (is : List ℕ) → IsRising (sorted_indices is)
unfolding sorted_indices
sorted_indices-IsRising [] = tt
sorted_indices-IsRising (i ∷ is) =
    insert_index-IsRising i (sorted_indices is) (sorted_indices-IsRising is)

holds-sorted_indices : (k : ℕ) (is : List ℕ) → holds k (sorted_indices is) ≡ holds k is
unfolding sorted_indices
holds-sorted_indices k [] = refl
holds-sorted_indices k (i ∷ is) =
    ground (arith, holds-insert_index k i (sorted_indices is), holds-sorted_indices k is)

-- The claim that a measure of a specification makes.
pub record IsClaimOf (a : Arithmetic) (s : ClaimSpec) (actual : Double) (sources : List ℕ)
    (c : Claim) : Type 0 where
  pub same_id : c.id ≡ s.id
  pub same_statement : c.statement ≡ s.statement
  pub same_op : c.op ≡ s.op
  pub same_threshold : c.threshold ≡ s.threshold
  pub same_unit : c.unit ≡ s.unit
  pub measure : c.actual ≡ some actual
  pub verdict : (c.passed ≡ true) ↔ Meets a s.op actual s.threshold
  pub rising : IsRising c.sources
  pub same_sources : (i : ℕ) → holds i c.sources ≡ holds i sources

-- One claim for each measure that is there, in this order, and no other.
abbrev pub Describe : Arithmetic → List (ClaimSpec × Option Double × List ℕ) → List Claim → Type 0
Describe a [] [] = Unit {0}
Describe a [] (c ∷ cs) = ⊥
Describe a ((s, none, is) ∷ ms) cs = Describe a ms cs
Describe a ((s, some d, is) ∷ ms) [] = ⊥
Describe a ((s, some d, is) ∷ ms) (c ∷ cs) = IsClaimOf a s d is c × Describe a ms cs

claim_of-IsClaimOf :
    (a : Arithmetic) (s : ClaimSpec) (d : Double) (is : List ℕ)
    → IsClaimOf a s d is (claim_of a s d is)
claim_of-IsClaimOf a s d is = record {
  same_id = refl;
  same_statement = refl;
  same_op = refl;
  same_threshold = refl;
  same_unit = refl;
  measure = refl;
  verdict = evaluate_iff a s.op d s.threshold;
  rising = sorted_indices-IsRising is;
  same_sources = λ i. holds-sorted_indices i is;
}

claims_of-Describe :
    (a : Arithmetic) (ms : List (ClaimSpec × Option Double × List ℕ))
    → Describe a ms (claims_of a ms)
unfolding claims_of
claims_of-Describe a [] = tt
claims_of-Describe a ((s, none, is) ∷ ms) = claims_of-Describe a ms
claims_of-Describe a ((s, some d, is) ∷ ms) = (claim_of-IsClaimOf a s d is, claims_of-Describe a ms)

-- The derivation from the metrics never fails. It gives the claims in the order of the
-- specifications, one for each specification whose measure is there and none for any other. Each
-- claim has the texts, the operator, the threshold and the unit of its specification and its
-- measure; it says passed exactly if the measure meets the threshold, which under the operator is
-- at least or at most the bar, the same as it, or between the two of a range; and its sources are
-- those of the measure, once each and rising.
pub derive_claims-Describe :
    (a : Arithmetic) (m : Measures)
    → (cs : List Claim) × (derive_claims a m ≡ ok cs)
      × Describe a (measured a m) cs
      × (map (λ x. x.0) (measured a m) ≡ claim_specs a)
derive_claims-Describe a m =
    (claims_of a (measured a m), derive_claims_lem a m, claims_of-Describe a (measured a m), refl)
