-- ===== src/Evidence/Tests/Derived.antt =====
-- packages/evidence/src/derive.ts: the derivation on bundles with one trade.
use zegel.Common.{ℕ, ◌≡◌, false, none, some, List, [], ◌∷◌, map, All, arith}
use zegel.Common.Text.{codes}
use zegel.Common.JsMap.{HasDistinctKeys}
use zegel.Common.Result.{ok}
use zegel.Sdk.Canonical.{boolean}
use zegel.Evidence.Bundle.{Claim, EvidenceSource, EvidenceBundle}
use zegel.Evidence.Claims.{Measures, derive_claims}
use zegel.Evidence.Claims.Laws.{measured}
use zegel.Evidence.Claims.Described.{Describe, derive_claims-Describe}
use zegel.Evidence.Specs.{claim_specs}
use zegel.Evidence.Cycles
use zegel.Evidence.Cycles.Laws.{closed_cycles-inside}
use zegel.Evidence.Cycles.Repeated.{add_entries-repeated}
use zegel.Evidence.Metrics
use zegel.Evidence.Metrics.Sources.{swapped, claims_of_bundle-SameEvidence}
use zegel.Evidence.Tests.{whole_numbers, one_trade, one_trade_runtime}

abbrev no_bundle : EvidenceBundle
no_bundle = record {
  schema = [];
  reference_id = [];
  address = [];
  chains = [];
  window = record { from = codes "1"; to = codes "12345" };
  sources = [];
  claims = [];
  derived_at = [];
  derivation_id = [];
  control_proof = record { message = []; signature = []; signer = [] };
}

abbrev measures : Measures
measures = record {
  realized_pnl_usd = 7;
  closed_cycles = 1;
  win_rate = some 1;
  max_drawdown_usd = none;
  median_holding_days = some 2;
  trading_cost_ratio = none;
  mev_share = none;
  mev_sources = [];
  risky_share = none;
  security_sources = [];
  top_asset_share = some 1;
  wallet_age_days = some 200;
  funding_source = some 3;
  history_sources = 2 ∷ 1 ∷ 2 ∷ [];
}

derive_claims-Describe_example :
    (cs : List Claim) × (derive_claims whole_numbers measures ≡ ok cs)
    × Describe whole_numbers (measured whole_numbers measures) cs
    × (map (λ x. x.0) (measured whole_numbers measures) ≡ claim_specs whole_numbers)
derive_claims-Describe_example = derive_claims-Describe whole_numbers measures

abbrev history_source : ℕ → EvidenceSource
history_source i = record {
  index = i;
  endpoint = codes "GET /2/wallet/positions-history";
  params = [];
  fetched_at = codes "t";
  digest = codes "0x";
  body = some (boolean false);
  unavailable = none;
}

abbrev traded : EvidenceBundle
traded = record no_bundle { sources = history_source 0 ∷ history_source 1 ∷ [] }

claims_of_bundle-SameEvidence_example :
    Metrics.claims_of_bundle one_trade_runtime
      (record traded { sources = history_source 1 ∷ history_source 0 ∷ [] })
    ≡ Metrics.claims_of_bundle one_trade_runtime traded
claims_of_bundle-SameEvidence_example =
    claims_of_bundle-SameEvidence one_trade_runtime traded
      (history_source 1 ∷ history_source 0 ∷ [])
      (swapped (history_source 0) (history_source 1) [] (λ e. absurd (omega (arith, e))))

closed_cycles-inside_example :
    HasDistinctKeys (Cycles.collect_cycles one_trade_runtime traded)
    × All
        (λ c.
          Cycles.is_outside whole_numbers (Cycles.bounds_of whole_numbers traded) c.exit_ms ≡ false)
        (Cycles.closed_cycles one_trade_runtime traded)
closed_cycles-inside_example = closed_cycles-inside one_trade_runtime traded

add_entries-repeated_example :
    Cycles.add_entries one_trade_runtime
      (record { from_ms = 1; to_ms = 9 })
      1
      (one_trade ∷ [])
      (Cycles.add_entries one_trade_runtime
        (record { from_ms = 1; to_ms = 9 })
        0
        (one_trade ∷ [])
        [])
    ≡ Cycles.add_entries one_trade_runtime (record { from_ms = 1; to_ms = 9 }) 0 (one_trade ∷ []) []
add_entries-repeated_example =
    add_entries-repeated one_trade_runtime (record { from_ms = 1; to_ms = 9 }) 0 1 (one_trade ∷ [])
      []
