-- ===== src/Evidence/Build.antt =====
-- packages/evidence/src/collect.ts and endpoints.ts: the plan of the requests, and the bundle that is
-- made from their results. The asking itself is in Client and Workers, and the choice of the assets
-- whose security is looked up is an argument.
pub mod Laws
use zegel.Common.{
  ℕ, zero, suc, ◌+◌, ◌*◌, Bool, true, false, not, ◌&&◌, Option, none, some, List, [], ◌∷◌, ◌++◌,
  length, if◌then◌else◌,
}
use zegel.Common.Text.{Text, codes, text_eq}
use zegel.Common.Result.{Result, ok, err, ◌>>=◌}
use zegel.Sdk.Canonical.{Value, null, Writer, Hashing, canonical_digest, text_ltb}
use zegel.Evidence.Numbers.{Arithmetic}
use zegel.Evidence.Bundle.{
  Claim, TimeWindow, EvidenceSource, EvidenceBundle, ControlProof, bundle_schema,
}
use zegel.Evidence.Client.Settings.{Param, text_param, number_param, QueryParams}
use zegel.Evidence.Chains.{to_query_chain}
use zegel.Evidence.Specs.{
  positions_history, positions, trades, labels, funding, token_security, lighthouse,
}
use zegel.Evidence.Derivation.{derivation_id}
use zegel.Evidence.Metrics.{claims_of_bundle}
use zegel.Evidence.Verify.{Checker, VerifyError, encoded, derived_or}

pub record PlannedRequest : Type 0 where
  pub path : Text
  pub params : QueryParams
  pub required : Bool

abbrev pub optional_endpoints : List Text
optional_endpoints =
    codes "/2/wallet/analysis" ∷ codes "/2/wallet/defi-positions" ∷ codes "/1/wallet/history" ∷ []

-- `CREDIT_COST[path]`, of the paths of the plan.
unfoldable pub credit_cost : Text → ℕ
credit_cost path =
    if text_eq path token_security
    then 10
    else if text_eq path (codes "/2/wallet/analysis")
    then 5
    else if text_eq path (codes "/2/wallet/defi-positions")
    then 10
    else 1

-- The options that the plan depends on, with their defaults put in.
pub record PlanOptions : Type 0 where
  pub history_limit : ℕ
  pub positions_limit : ℕ
  pub trades_limit : ℕ
  pub max_security_lookups : ℕ
  pub probe_optional_endpoints : Bool

abbrev wallet_params : Text → QueryParams
wallet_params address = (codes "wallet", some (text_param address)) ∷ []

abbrev chain_request : Arithmetic → Text → Text → Text → ℕ → PlannedRequest
chain_request a address path chain limit = record {
  path = path;
  params =
      (codes "wallet", some (text_param address))
      ∷ (codes "chainIds", some (text_param (to_query_chain chain)))
      ∷ (codes "limit", some (number_param (a.of_nat limit)))
      ∷ [];
  required = true;
}

unfoldable pub chain_plan : Arithmetic → PlanOptions → Text → List Text → List PlannedRequest
chain_plan a o address [] = []
chain_plan a o address (c ∷ cs) =
    chain_request a address positions_history c o.history_limit
    ∷ chain_request a address positions c o.positions_limit
    ∷ chain_request a address trades c o.trades_limit
    ∷ chain_plan a o address cs

unfoldable pub optional_plan : Text → List Text → List PlannedRequest
optional_plan address [] = []
optional_plan address (path ∷ paths) =
    record { path = path; params = wallet_params address; required = false }
    ∷ optional_plan address paths

-- The plan of the first phase.
unfoldable pub first_plan : Arithmetic → PlanOptions → Text → List Text → List PlannedRequest
first_plan a o address chains =
    chain_plan a o address chains
    ++ (record { path = labels; params = wallet_params address; required = true }
        ∷ record { path = funding; params = wallet_params address; required = true }
        ∷ record { path = lighthouse; params = []; required = true }
        ∷ (if o.probe_optional_endpoints then optional_plan address optional_endpoints else []))

-- The plan of the second phase, for the assets chosen: an address and a chain each.
unfoldable pub security_plan : List (Text × Text) → List PlannedRequest
security_plan [] = []
security_plan ((address, chain) ∷ assets) =
    record {
      path = token_security;
      params =
          (codes "address", some (text_param address))
          ∷ (codes "chainId", some (text_param chain))
          ∷ [];
      required = false;
    }
    ∷ security_plan assets

unfoldable pub total_cost : List PlannedRequest → ℕ
total_cost [] = 0
total_cost (r ∷ rs) = credit_cost r.path + total_cost rs

abbrev optional_cost : List Text → ℕ
optional_cost [] = 0
optional_cost (path ∷ paths) = credit_cost path + optional_cost paths

-- `estimateCredits`, for the number of chains.
unfoldable pub estimate_credits : PlanOptions → ℕ → ℕ
estimate_credits o chains =
    chains * (credit_cost positions_history + credit_cost positions + credit_cost trades)
    + credit_cost labels
    + credit_cost funding
    + credit_cost lighthouse
    + o.max_security_lookups * credit_cost token_security
    + (if o.probe_optional_endpoints then optional_cost optional_endpoints else 0)

-- What a request of the plan has brought: a body, or the reason and the status of its failure.
pub data Outcome : Type 0 where
  body : Value → Outcome
  failure : Text → Option ℕ → Outcome

pub record CollectedResult : Type 0 where
  pub path : Text
  pub params : List (Text × Param)
  pub fetched_at : Text
  pub outcome : Outcome

abbrev pub source_of : Checker → CollectedResult → ℕ → Outcome → Result VerifyError EvidenceSource
source_of k r i (failure reason status) = do
  digest ← encoded (canonical_digest k.writer k.hashing null)
  ok (record {
    index = i;
    endpoint = codes "GET " ++ r.path;
    params = r.params;
    fetched_at = r.fetched_at;
    digest = digest;
    body = none;
    unavailable = some (record { reason = reason; status = status });
  })
source_of k r i (body v) = do
  digest ← encoded (canonical_digest k.writer k.hashing v)
  ok (record {
    index = i;
    endpoint = codes "GET " ++ r.path;
    params = r.params;
    fetched_at = r.fetched_at;
    digest = digest;
    body = some v;
    unavailable = none;
  })

unfoldable pub to_source : Checker → CollectedResult → ℕ → Result VerifyError EvidenceSource
to_source k r i = source_of k r i r.outcome

-- `[...].map((result, index) => toSource(result, index))`
unfoldable pub to_sources :
    Checker → ℕ → List CollectedResult → Result VerifyError (List EvidenceSource)
to_sources k i [] = ok []
to_sources k i (r ∷ rs) = do s ← to_source k r i; ss ← to_sources k (i + 1) rs; ok (s ∷ ss)

-- What the caller gives or the defaults provide.
pub record Subject : Type 0 where
  pub address : Text
  pub chains : List Text
  pub window : TimeWindow
  pub reference_id : Text
  pub derived_at : Text
  pub control_proof : Option ControlProof

unfoldable pub control_proof_message : Text → Text
control_proof_message reference_id = codes "Zegel reference " ++ reference_id

abbrev proof_or_none : Text → Option ControlProof → ControlProof
proof_or_none id (some p) = p
proof_or_none id none = record { message = control_proof_message id; signature = []; signer = [] }

unfoldable pub is_control_proven : EvidenceBundle → Bool
is_control_proven b =
    not (text_eq b.control_proof.signature []) && not (text_eq b.control_proof.signer [])

-- `chains.sort()`
unfoldable pub insert_chain : Text → List Text → List Text
insert_chain x [] = x ∷ []
insert_chain x (y ∷ ys) =
    let rest = insert_chain x ys in if text_ltb y x then y ∷ rest else x ∷ y ∷ ys

unfoldable pub sort_chains : List Text → List Text
sort_chains [] = []
sort_chains (x ∷ xs) = insert_chain x (sort_chains xs)

abbrev pub draft : Subject → Text → List EvidenceSource → EvidenceBundle
draft s rules sources = record {
  schema = bundle_schema;
  reference_id = s.reference_id;
  address = s.address;
  chains = sort_chains s.chains;
  window = s.window;
  sources = sources;
  claims = [];
  derived_at = s.derived_at;
  derivation_id = rules;
  control_proof = proof_or_none s.reference_id s.control_proof;
}

-- `buildEvidence`, from the results of both phases on.
unfoldable pub build_evidence :
    Checker
    → Subject
    → List CollectedResult
    → List CollectedResult
    → Result VerifyError EvidenceBundle
build_evidence k s collected security = do
  rules ← encoded (derivation_id k.writer k.hashing k.runtime.numbers)
  sources ← to_sources k 0 (collected ++ security)
  claims ← derived_or (claims_of_bundle k.runtime (draft s rules sources))
  ok (record (draft s rules sources) { claims = claims })
