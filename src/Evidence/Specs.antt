-- ===== src/Evidence/Specs.antt =====
-- packages/evidence/src/derive.ts: the rules by which every bundle is scored. The texts that the
-- source builds from the thresholds are written out.
use zegel.Common.{ℕ, List, [], ◌∷◌, ◌++◌}
use zegel.Common.Text.{Text, codes}
use zegel.Evidence.Numbers.{Double, Arithmetic}
use zegel.Evidence.Bundle.{ClaimOp, gte, lte, ClaimUnit, usd, count, ratio, days, Threshold, bar}

abbrev pub derivation_version : Text
derivation_version = codes "zegel.derivation.v1"

abbrev pub positions_history : Text
positions_history = codes "/2/wallet/positions-history"

abbrev pub positions : Text
positions = codes "/2/wallet/positions"

abbrev pub trades : Text
trades = codes "/2/wallet/trades"

abbrev pub labels : Text
labels = codes "/2/wallet/labels"

abbrev pub funding : Text
funding = codes "/2/wallet/funding"

abbrev pub token_security : Text
token_security = codes "/2/token/security"

abbrev pub lighthouse : Text
lighthouse = codes "/2/market/lighthouse"

-- A threshold: a whole number, or a quotient of two.
abbrev pub whole : Arithmetic → ℕ → Double
whole a n = a.of_nat n

abbrev pub quotient : Arithmetic → ℕ → ℕ → Double
quotient a n d = a.div (a.of_nat n) (a.of_nat d)

abbrev pub security_score_floor : Arithmetic → Double
security_score_floor a = whole a 60

pub record ClaimSpec : Type 0 where
  pub id : Text
  pub statement : Text
  pub op : ClaimOp
  pub threshold : Threshold
  pub unit : ClaimUnit
  pub rule : Text
  pub inputs : List Text

abbrev pub realized_pnl_usd : Arithmetic → ClaimSpec
realized_pnl_usd a = record {
  id = codes "realized-pnl-usd";
  statement = codes "Completed trades over this period ended in net profit rather than a net loss.";
  op = gte;
  threshold = bar (whole a 0);
  unit = usd;
  rule =
      codes "sum of cycle.realizedPnlUSD over closed cycles whose exitDate falls inside "
      ++ codes "the window";
  inputs = (positions_history ++ codes "#data[].cycle.realizedPnlUSD") ∷ [];
}

abbrev pub closed_position_cycles : Arithmetic → ClaimSpec
closed_position_cycles a = record {
  id = codes "closed-position-cycles";
  statement =
      codes "This wallet completed at least 10 full buy-and-sell trades in this period, so "
      ++ codes "the record is more than a couple of lucky bets.";
  op = gte;
  threshold = bar (whole a 10);
  unit = count;
  rule = codes "count of closed cycles whose exitDate falls inside the window";
  inputs = (positions_history ++ codes "#data[].cycle.isOpen") ∷ [];
}

abbrev pub win_rate : Arithmetic → ClaimSpec
win_rate a = record {
  id = codes "win-rate";
  statement = codes "At least 40% of its completed trades made money.";
  op = gte;
  threshold = bar (quotient a 4 10);
  unit = ratio;
  rule =
      codes "closed cycles with realizedPnlUSD > 0, divided by all closed cycles in the "
      ++ codes "window";
  inputs = (positions_history ++ codes "#data[].cycle.realizedPnlUSD") ∷ [];
}

abbrev pub max_drawdown_usd : Arithmetic → ClaimSpec
max_drawdown_usd a = record {
  id = codes "max-drawdown-usd";
  statement =
      codes "Its running profit never fell more than $25,000 below its own best point, so "
      ++ codes "no single run of losses erased the record.";
  op = lte;
  threshold = bar (whole a 25000);
  unit = usd;
  rule =
      codes "largest peak-to-trough fall of the cumulative realized PnL curve, cycles "
      ++ codes "ordered by exit time";
  inputs = (positions_history ++ codes "#data[].cycle.realizedPnlUSD") ∷ [];
}

abbrev pub median_holding_period_days : Arithmetic → ClaimSpec
median_holding_period_days a = record {
  id = codes "median-holding-period-days";
  statement =
      codes "A typical trade was held for at least 1 day, rather than flipped within "
      ++ codes "minutes the way an automated bot trades.";
  op = gte;
  threshold = bar (whole a 1);
  unit = days;
  rule = codes "median of (exitDate - entryDate) in days over closed cycles in the window";
  inputs = (positions_history ++ codes "#data[].cycle.entryDate|exitDate") ∷ [];
}

abbrev pub trading_cost_ratio : Arithmetic → ClaimSpec
trading_cost_ratio a = record {
  id = codes "trading-cost-ratio";
  statement =
      codes "Trading costs — network fees, exchange fees and value lost to bots trading "
      ++ codes "ahead of its orders — stayed under 2% of the amount traded.";
  op = lte;
  threshold = bar (quotient a 2 100);
  unit = ratio;
  rule =
      codes "sum of cycle.feesUSD divided by sum of (volumeBuyUSD + volumeSellUSD) over "
      ++ codes "closed cycles in the window";
  inputs =
      (positions_history ++ codes "#data[].cycle.feesUSD")
      ∷ (positions_history ++ codes "#data[].cycle.volumeBuyUSD|volumeSellUSD")
      ∷ [];
}

abbrev pub mev_fee_share : Arithmetic → ClaimSpec
mev_fee_share a = record {
  id = codes "mev-fee-share";
  statement =
      codes "Less than 25% of what it paid in trading costs was taken by bots "
      ++ codes "front-running its orders.";
  op = lte;
  threshold = bar (quotient a 25 100);
  unit = ratio;
  rule =
      codes "sum of mevFeesUSD divided by sum of totalFeesUSD over the sampled swaps "
      ++ codes "inside the window";
  inputs = (trades ++ codes "#data[].mevFeesUSD|totalFeesUSD") ∷ [];
}

abbrev pub risk_quality_ratio : Arithmetic → ClaimSpec
risk_quality_ratio a = record {
  id = codes "risk-quality-ratio";
  statement =
      codes "Fewer than 1 in 5 of the tokens it traded score below 60 out of 100 on "
      ++ codes "Mobula's 14-point safety check, which looks for the hallmarks of a scam "
      ++ codes "token: hidden minting rights, insider bundling, faked trading volume and sell "
      ++ codes "taxes that trap buyers.";
  op = lte;
  threshold = bar (quotient a 2 10);
  unit = ratio;
  rule =
      codes "traded assets whose securityScore is below 60, or whose score was hard-killed "
      ++ codes "outright, divided by the traded assets that carry a score";
  inputs =
      (token_security ++ codes "#data.securityScore")
      ∷ (token_security ++ codes "#data.securityScoreDetails.killed")
      ∷ [];
}

abbrev pub position_concentration : Arithmetic → ClaimSpec
position_concentration a = record {
  id = codes "position-concentration";
  statement =
      codes "No single token accounted for more than 50% of everything it traded, so the "
      ++ codes "record is not one coin's story.";
  op = lte;
  threshold = bar (quotient a 5 10);
  unit = ratio;
  rule =
      codes "largest single-asset share of gross traded volume across closed cycles in the "
      ++ codes "window";
  inputs = (positions_history ++ codes "#data[].cycle.volumeBuyUSD|volumeSellUSD") ∷ [];
}

abbrev pub wallet_age_days : Arithmetic → ClaimSpec
wallet_age_days a = record {
  id = codes "wallet-age-days";
  statement =
      codes "The wallet has been in use for at least 180 days, counted from the first time "
      ++ codes "anyone sent money to it.";
  op = gte;
  threshold = bar (whole a 180);
  unit = days;
  rule =
      codes "days between the earliest reported first-funding date and the end of the "
      ++ codes "window";
  inputs = (funding ++ codes "#data.date") ∷ [];
}

abbrev pub claim_specs : Arithmetic → List ClaimSpec
claim_specs a =
    realized_pnl_usd a
    ∷ closed_position_cycles a
    ∷ win_rate a
    ∷ max_drawdown_usd a
    ∷ median_holding_period_days a
    ∷ trading_cost_ratio a
    ∷ mev_fee_share a
    ∷ risk_quality_ratio a
    ∷ position_concentration a
    ∷ wallet_age_days a
    ∷ []
