-- ===== src/Evidence/Claims.antt =====
-- packages/evidence/src/derive.ts: from the metrics of a bundle to its claims.
pub mod Laws
pub mod Described
use zegel.Common.{
  ℕ, zero, suc, ◌+◌, Bool, true, false, ◌&&◌, Option, none, some, List, [], ◌∷◌, ◌++◌, length, ltb,
  ◌==◌, any, if◌then◌else◌,
}
use zegel.Common.Text.{Text, codes, text_eq}
use zegel.Common.Result.{Result, ok, ◌>>=◌, or_throw}
use zegel.Evidence.Numbers.{Double, Arithmetic}
use zegel.Evidence.Bundle.{Claim, ClaimOp, gte, lte, between, eq, Threshold, bar, range, ClaimUnit}
use zegel.Evidence.Specs.{
  ClaimSpec, claim_specs, realized_pnl_usd, closed_position_cycles, win_rate, max_drawdown_usd,
  median_holding_period_days, trading_cost_ratio, mev_fee_share, risk_quality_ratio,
  position_concentration, wallet_age_days,
}

-- The fields of the metrics that the claims are made from.
pub record Measures : Type 0 where
  pub realized_pnl_usd : Double
  pub closed_cycles : ℕ
  pub win_rate : Option Double
  pub max_drawdown_usd : Option Double
  pub median_holding_days : Option Double
  pub trading_cost_ratio : Option Double
  pub mev_share : Option Double
  pub mev_sources : List ℕ
  pub risky_share : Option Double
  pub security_sources : List ℕ
  pub top_asset_share : Option Double
  pub wallet_age_days : Option Double
  pub funding_source : Option ℕ
  pub history_sources : List ℕ

unfoldable pub evaluate : Arithmetic → ClaimOp → Double → Threshold → Bool
evaluate a between actual (range lo hi) = a.le lo actual && a.le actual hi
evaluate a between actual (bar b) = false
evaluate a gte actual (bar b) = a.le b actual
evaluate a lte actual (bar b) = a.le actual b
evaluate a eq actual (bar b) = a.same actual b
evaluate a gte actual (range lo hi) = false
evaluate a lte actual (range lo hi) = false
evaluate a eq actual (range lo hi) = false

-- `[...new Set(sources)].sort((a, b) => a - b)`: of equal numbers it does not matter which stays.
unfoldable pub insert_index : ℕ → List ℕ → List ℕ
insert_index x [] = x ∷ []
insert_index x (y ∷ ys) =
    let rest = insert_index x ys in
    if x == y then y ∷ ys else if ltb y x then y ∷ rest else x ∷ y ∷ ys

unfoldable pub sorted_indices : List ℕ → List ℕ
sorted_indices [] = []
sorted_indices (x ∷ xs) = insert_index x (sorted_indices xs)

-- `CLAIM_SPECS.find((s) => s.id === id)`
unfoldable pub find_spec : Text → List ClaimSpec → Option ClaimSpec
find_spec id [] = none
find_spec id (s ∷ ss) = if text_eq s.id id then some s else find_spec id ss

pub data ClaimError : Type 0 where
  unknown_claim_spec : Text → ClaimError

unfoldable pub spec_by_id : Arithmetic → Text → Result ClaimError ClaimSpec
spec_by_id a id = or_throw (find_spec id (claim_specs a)) (unknown_claim_spec id)

abbrev pub claim_of : Arithmetic → ClaimSpec → Double → List ℕ → Claim
claim_of a s actual sources = record {
  id = s.id;
  statement = s.statement;
  op = s.op;
  threshold = s.threshold;
  unit = s.unit;
  passed = evaluate a s.op actual s.threshold;
  actual = some actual;
  sources = sorted_indices sources;
}

unfoldable pub claim : Arithmetic → Text → Double → List ℕ → Result ClaimError Claim
claim a id actual sources = do spec ← spec_by_id a id; ok (claim_of a spec actual sources)

-- `if (m.… !== null) claims.push(claim(…))`
unfoldable pub claim_if :
    Arithmetic → Text → Option Double → List ℕ → Result ClaimError (List Claim)
claim_if a id none sources = ok []
claim_if a id (some actual) sources = do c ← claim a id actual sources; ok (c ∷ [])

-- The two claims that need no more than a source of the history.
unfoldable pub claims_of_history : Arithmetic → List ℕ → Double → ℕ → Result ClaimError (List Claim)
claims_of_history a history pnl cycles = if length history == 0 then ok [] else (do
  c1 ← claim a (codes "realized-pnl-usd") pnl history
  c2 ← claim a (codes "closed-position-cycles") (a.of_nat cycles) history
  ok (c1 ∷ c2 ∷ []))

abbrev pub source_list : Option ℕ → List ℕ
source_list none = []
source_list (some i) = i ∷ []

-- `m.walletAgeDays !== null && m.fundingSourceIndex !== null`
abbrev pub age_if_funded : Option Double → Option ℕ → Option Double
age_if_funded age none = none
age_if_funded age (some i) = age

-- `order.get(id) ?? 0`; no two specifications have the same id.
unfoldable pub rank_from : ℕ → Text → List ClaimSpec → ℕ
rank_from n id [] = 0
rank_from n id (s ∷ ss) = if text_eq s.id id then n else rank_from (n + 1) id ss

unfoldable pub rank : Arithmetic → Claim → ℕ
rank a c = rank_from 0 c.id (claim_specs a)

unfoldable pub insert_claim : Arithmetic → Claim → List Claim → List Claim
insert_claim a x [] = x ∷ []
insert_claim a x (y ∷ ys) =
    let rest = insert_claim a x ys in if ltb (rank a y) (rank a x) then y ∷ rest else x ∷ y ∷ ys

-- `claims.sort(…)`
unfoldable pub sort_claims : Arithmetic → List Claim → List Claim
sort_claims a [] = []
sort_claims a (x ∷ xs) = insert_claim a x (sort_claims a xs)

-- `deriveClaims`, from the metrics on.
unfoldable pub derive_claims : Arithmetic → Measures → Result ClaimError (List Claim)
derive_claims a m = do
  let history = m.history_sources
  c1 ← claims_of_history a history m.realized_pnl_usd m.closed_cycles
  c2 ← claim_if a (codes "win-rate") m.win_rate history
  c3 ← claim_if a (codes "max-drawdown-usd") m.max_drawdown_usd history
  c4 ← claim_if a (codes "median-holding-period-days") m.median_holding_days history
  c5 ← claim_if a (codes "trading-cost-ratio") m.trading_cost_ratio history
  c6 ← claim_if a (codes "mev-fee-share") m.mev_share m.mev_sources
  c7 ← claim_if a (codes "risk-quality-ratio") m.risky_share m.security_sources
  c8 ← claim_if a (codes "position-concentration") m.top_asset_share history
  c9 ←
      claim_if a (codes "wallet-age-days") (age_if_funded m.wallet_age_days m.funding_source)
        (source_list m.funding_source)
  ok (sort_claims a (c1 ++ c2 ++ c3 ++ c4 ++ c5 ++ c6 ++ c7 ++ c8 ++ c9))
