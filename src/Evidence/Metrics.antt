-- ===== src/Evidence/Metrics.antt =====
-- packages/evidence/src/derive.ts: the metrics of a bundle, and its claims.
pub mod Walk
pub mod Assets
pub mod Sources
use zegel.Common.{ℕ, ◌+◌, ◌-◌, Option, none, some, List, [], ◌∷◌, ◌++◌, length, ltb, if◌then◌else◌}
use zegel.Common.Text.{Text}
use zegel.Common.Result.{Result}
use zegel.Evidence.Numbers.{Double, Arithmetic, round}
use zegel.Evidence.Bundle.{EvidenceBundle, Claim}
use zegel.Evidence.Specs.{positions_history, trades, token_security, funding}
use zegel.Evidence.Cycles.{NormalizedCycle, bounds_of, closed_cycles}
use zegel.Evidence.Sources.{Runtime, UsableSource, usable_sources, to_ms}
use zegel.Evidence.Claims.{Measures, ClaimError, derive_claims}
use zegel.Evidence.Metrics.Walk.{
  first_walk, walk_cycles, ms_per_day, holding_days, volumes_from, median,
}
use zegel.Evidence.Metrics.Assets.{
  Sample, sample_sources, scores_from, sorted_keys, SecurityReading, readings_of, count_risky,
  top_asset,
}

-- The oldest funding so far: the age in days and the source.
abbrev Age : Type 0
Age = Option (Double × ℕ)

abbrev older : Arithmetic → Double → ℕ → Age → Age
older a age i none = some (age, i)
older a age i (some (best, j)) = if a.lt best age then some (age, i) else some (best, j)

-- `(toMs_ - fundedMs) / MS_PER_DAY`
abbrev age_at : Arithmetic → Double → Option Double → ℕ → Age → Age
age_at a end none i best = best
age_at a end (some funded) i best = older a (a.div (a.sub end funded) (ms_per_day a)) i best

unfoldable pub wallet_age : Runtime → Double → List UsableSource → Age → Age
wallet_age r end [] best = best
wallet_age r end (u ∷ us) best =
    wallet_age r end us
      (age_at r.numbers end (to_ms r.numbers (r.readers.funding_date u.body)) u.index best)

unfoldable pub indices : List UsableSource → List ℕ
indices [] = []
indices (u ∷ us) = u.index ∷ indices us

-- `securityIndices.sort((a, b) => a - b)`
unfoldable pub insert_number : ℕ → List ℕ → List ℕ
insert_number x [] = x ∷ []
insert_number x (y ∷ ys) = let rest = insert_number x ys in if ltb y x then y ∷ rest else x ∷ y ∷ ys

unfoldable pub sorted_indices_of : List ℕ → List ℕ
sorted_indices_of [] = []
sorted_indices_of (x ∷ xs) = insert_number x (sorted_indices_of xs)

unfoldable pub reading_indices : List SecurityReading → List ℕ
reading_indices [] = []
reading_indices (r ∷ rs) = r.source_index ∷ reading_indices rs

-- `numerator / denominator`, rounded, where the denominator is positive.
unfoldable pub share_if_positive : Arithmetic → Double → Double → Option Double
share_if_positive a n d = if a.lt (a.of_nat 0) d then some (round a (a.div n d) 6) else none

abbrev unless_empty : {A : Type 0} → List A → Double → Option Double
unless_empty [] d = none
unless_empty (x ∷ xs) d = some d

abbrev age_days : Arithmetic → Age → Option Double
age_days a none = none
age_days a (some (age, i)) = some (round a age 2)

abbrev age_source : Age → Option ℕ
age_source none = none
age_source (some (age, i)) = some i

pub record DerivedMetrics : Type 0 where
  pub closed_cycles : List NormalizedCycle
  pub gross_volume_usd : Double
  pub total_fees_usd : Double
  pub sample : Sample
  pub traded_assets : ℕ
  pub readings : List SecurityReading
  pub risky : ℕ
  pub top_asset_symbol : Option Text
  pub measures : Measures

abbrev mean_of_wins : Arithmetic → ℕ → ℕ → Double
mean_of_wins a wins count = a.div (a.of_nat wins) (a.of_nat count)

abbrev no_sample : Arithmetic → Sample
no_sample a = record { trades = 0; fees = a.of_nat 0; mev = a.of_nat 0; sources = [] }

-- `{ volume: -1, symbol: '' }`
abbrev no_asset : Arithmetic → Double × Text
no_asset a = (a.sub (a.of_nat 0) (a.of_nat 1), [])

abbrev top_symbol : Arithmetic → Double → Double × Text → Option Text
top_symbol a gross best = if a.lt (a.of_nat 0) gross then some best.1 else none

unfoldable pub derive_metrics : Runtime → EvidenceBundle → DerivedMetrics
derive_metrics r b =
    let a = r.numbers in
    let w = bounds_of a b in
    let history = usable_sources b positions_history in
    let cycles = closed_cycles r b in
    let walk = walk_cycles a (first_walk a) cycles in
    let held = holding_days a cycles in
    let volumes = volumes_from a cycles [] in
    let sample = sample_sources r w (usable_sources b trades) (no_sample a) in
    let scores = scores_from r (usable_sources b token_security) [] in
    let assets = sorted_keys volumes in
    let readings = readings_of a volumes scores assets in
    let risky = count_risky a readings in
    let best = top_asset a volumes assets (no_asset a) in
    let age = wallet_age r w.to_ms (usable_sources b funding) none in
    record {
      closed_cycles = cycles;
      gross_volume_usd = round a walk.volume 2;
      total_fees_usd = round a walk.fees 2;
      sample = record sample { fees = round a sample.fees 2; mev = round a sample.mev 2 };
      traded_assets = length assets;
      readings = readings;
      risky = risky;
      top_asset_symbol = top_symbol a walk.volume best;
      measures = record {
        realized_pnl_usd = round a walk.realized 2;
        closed_cycles = length cycles;
        win_rate = unless_empty cycles (round a (mean_of_wins a walk.wins (length cycles)) 6);
        max_drawdown_usd = unless_empty cycles (round a walk.max_drawdown 2);
        median_holding_days = unless_empty held (round a (median a held) 4);
        trading_cost_ratio = share_if_positive a walk.fees walk.volume;
        mev_share = share_if_positive a sample.mev sample.fees;
        mev_sources = sample.sources;
        risky_share = unless_empty readings (round a (mean_of_wins a risky (length readings)) 6);
        security_sources = sorted_indices_of (reading_indices readings);
        top_asset_share = share_if_positive a best.0 walk.volume;
        wallet_age_days = age_days a age;
        funding_source = age_source age;
        history_sources = indices history;
      };
    }

-- `deriveClaims(bundle)`
unfoldable pub claims_of_bundle : Runtime → EvidenceBundle → Result ClaimError (List Claim)
claims_of_bundle r b = derive_claims r.numbers (derive_metrics r b).measures
