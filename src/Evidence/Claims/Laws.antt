-- ===== src/Evidence/Claims/Laws.antt =====
-- packages/evidence/src/derive.ts: which claims are derived, and in which order.
use zegel.Common.{
  ℕ, suc, ◌≤◌, ◌≡◌, refl, ap, ◌∙◌, Option, none, some, List, [], ◌∷◌, ◌++◌, All, arith,
}
use mathlib.Core.List.{append_assoc, append-nil}
use zegel.Common.Text.{Text, codes, text_eq}
use zegel.Common.Result.{ok}
use zegel.Evidence.Numbers.{Double, Arithmetic}
use zegel.Evidence.Bundle.{Claim}
use zegel.Evidence.Specs.{
  ClaimSpec, claim_specs, realized_pnl_usd, closed_position_cycles, win_rate, max_drawdown_usd,
  median_holding_period_days, trading_cost_ratio, mev_fee_share, risk_quality_ratio,
  position_concentration, wallet_age_days,
}
use zegel.Evidence.Claims.{
  Measures, claim, claim_of, claim_if, claims_of_history, derive_claims, find_spec, spec_by_id,
  rank, rank_from, sort_claims, insert_claim, source_list, age_if_funded,
}

abbrev pub measure_if : List ℕ → Double → Option Double
measure_if [] d = none
measure_if (i ∷ is) d = some d

-- The measure of each specification, with the sources it comes from; `none` where there is none.
abbrev pub measured : Arithmetic → Measures → List (ClaimSpec × Option Double × List ℕ)
measured a m =
    (realized_pnl_usd a, measure_if m.history_sources m.realized_pnl_usd, m.history_sources)
    ∷ (
      closed_position_cycles a,
      measure_if m.history_sources (a.of_nat m.closed_cycles),
      m.history_sources,
    )
    ∷ (win_rate a, m.win_rate, m.history_sources)
    ∷ (max_drawdown_usd a, m.max_drawdown_usd, m.history_sources)
    ∷ (median_holding_period_days a, m.median_holding_days, m.history_sources)
    ∷ (trading_cost_ratio a, m.trading_cost_ratio, m.history_sources)
    ∷ (mev_fee_share a, m.mev_share, m.mev_sources)
    ∷ (risk_quality_ratio a, m.risky_share, m.security_sources)
    ∷ (position_concentration a, m.top_asset_share, m.history_sources)
    ∷ (
      wallet_age_days a,
      age_if_funded m.wallet_age_days m.funding_source,
      source_list m.funding_source,
    )
    ∷ []

-- One claim for a measure that there is.
piece : Arithmetic → ClaimSpec → Option Double → List ℕ → List Claim
piece a s none is = []
piece a s (some d) is = claim_of a s d is ∷ []

unfoldable pub claims_of : Arithmetic → List (ClaimSpec × Option Double × List ℕ) → List Claim
unfolding piece
claims_of a [] = []
claims_of a ((s, o, is) ∷ ms) = piece a s o is ++ claims_of a ms

-- A list that the sort leaves as it is, whose claims rank at `k` or above.
record IsFrom (a : Arithmetic) (k : ℕ) (cs : List Claim) : Type 0 where
  ranks : All (λ c. k ≤ rank a c) cs
  sorted : sort_claims a cs ≡ cs

nil-IsFrom : (a : Arithmetic) (k : ℕ) → IsFrom a k []
unfolding sort_claims
nil-IsFrom a k = record { ranks = tt; sorted = refl }

All-weaken :
    (a : Arithmetic) (k : ℕ) (cs : List Claim)
    → All (λ c. suc k ≤ rank a c) cs
    → All (λ c. k ≤ rank a c) cs
All-weaken a k [] h = tt
All-weaken a k (c ∷ cs) (h, t) = (omega (arith, h), All-weaken a k cs t)

insert_claim_first :
    (a : Arithmetic) (k : ℕ) (c : Claim) (cs : List Claim)
    → rank a c ≡ k
    → All (λ c. suc k ≤ rank a c) cs
    → insert_claim a c cs ≡ c ∷ cs
unfolding insert_claim
insert_claim_first a k c [] e h = refl
insert_claim_first a k c (d ∷ cs) e (h, t) = ground arith

cons-IsFrom :
    (a : Arithmetic) (k : ℕ) (c : Claim) (cs : List Claim)
    → rank a c ≡ k
    → IsFrom a (suc k) cs
    → IsFrom a k (c ∷ cs)
unfolding sort_claims
cons-IsFrom a k c cs e h = record {
  ranks = (omega (arith, e), All-weaken a k cs h.ranks);
  sorted = ap (insert_claim a c) h.sorted ∙ insert_claim_first a k c cs e h.ranks;
}

skip-IsFrom : (a : Arithmetic) (k : ℕ) (cs : List Claim) → IsFrom a (suc k) cs → IsFrom a k cs
skip-IsFrom a k cs h = record { ranks = All-weaken a k cs h.ranks; sorted = h.sorted }

claims_of-IsFrom :
    (a : Arithmetic) (k : ℕ) (s : ClaimSpec) (o : Option Double) (is : List ℕ)
    (ms : List (ClaimSpec × Option Double × List ℕ))
    → rank_from 0 s.id (claim_specs a) ≡ k
    → IsFrom a (suc k) (claims_of a ms)
    → IsFrom a k (claims_of a ((s, o, is) ∷ ms))
unfolding rank claims_of
claims_of-IsFrom a k s none is ms e h = skip-IsFrom a k (claims_of a ms) h
claims_of-IsFrom a k s (some d) is ms e h = cons-IsFrom a k (claim_of a s d is) (claims_of a ms) e h

-- The specifications rank `k`, `k + 1` and so on.
abbrev AreRanked : Arithmetic → ℕ → List (ClaimSpec × Option Double × List ℕ) → Type 0
AreRanked a k [] = Unit
AreRanked a k ((s, o, is) ∷ ms) = (rank_from 0 s.id (claim_specs a) ≡ k) × AreRanked a (suc k) ms

claims_of-AreRanked :
    (a : Arithmetic) (k : ℕ) (ms : List (ClaimSpec × Option Double × List ℕ))
    → AreRanked a k ms
    → IsFrom a k (claims_of a ms)
unfolding claims_of
claims_of-AreRanked a k [] h = nil-IsFrom a k
claims_of-AreRanked a k ((s, o, is) ∷ ms) (e, h) =
    claims_of-IsFrom a k s o is ms e (claims_of-AreRanked a (suc k) ms h)

measured-AreRanked : (a : Arithmetic) (m : Measures) → AreRanked a 0 (measured a m)
unfolding rank_from text_eq
measured-AreRanked a m =
    (refl, (refl, (refl, (refl, (refl, (refl, (refl, (refl, (refl, (refl, tt))))))))))

claim_if-piece :
    (a : Arithmetic) (id : Text) (s : ClaimSpec) (o : Option Double) (is : List ℕ)
    → find_spec id (claim_specs a) ≡ some s
    → claim_if a id o is ≡ ok (piece a s o is)
unfolding claim_if claim spec_by_id piece
claim_if-piece a id s none is e = refl
claim_if-piece a id s (some d) is e = rw e refl

claims_of_history_lem :
    (a : Arithmetic) (h : List ℕ) (pnl : Double) (n : ℕ)
    → claims_of_history a h pnl n
      ≡ ok (
          piece a (realized_pnl_usd a) (measure_if h pnl) h
          ++ piece a (closed_position_cycles a) (measure_if h (a.of_nat n)) h)
unfolding claims_of_history claim spec_by_id find_spec text_eq piece
claims_of_history_lem a [] pnl n = refl
claims_of_history_lem a (i ∷ h) pnl n = ground arith

-- The derivation from the metrics never fails. It gives the claims in the order of the
-- specifications, one for each specification whose measure is there and none for any other, and
-- each claim carries its measure, the sources of it and whether it meets the threshold.
pub derive_claims_lem :
    (a : Arithmetic) (m : Measures) → derive_claims a m ≡ ok (claims_of a (measured a m))
unfolding derive_claims find_spec text_eq claims_of
derive_claims_lem a m =
    let h = m.history_sources in
    rw
      (
        claims_of_history_lem a h m.realized_pnl_usd m.closed_cycles,
        claim_if-piece a (codes "win-rate") (win_rate a) m.win_rate h refl,
        claim_if-piece a (codes "max-drawdown-usd") (max_drawdown_usd a) m.max_drawdown_usd h refl,
        claim_if-piece a (codes "median-holding-period-days") (median_holding_period_days a)
            m.median_holding_days h refl,
        claim_if-piece a (codes "trading-cost-ratio") (trading_cost_ratio a) m.trading_cost_ratio h
            refl,
        claim_if-piece a (codes "mev-fee-share") (mev_fee_share a) m.mev_share m.mev_sources refl,
        claim_if-piece a (codes "risk-quality-ratio") (risk_quality_ratio a) m.risky_share
            m.security_sources refl,
        claim_if-piece a (codes "position-concentration") (position_concentration a)
            m.top_asset_share h refl,
        claim_if-piece a (codes "wallet-age-days") (wallet_age_days a)
            (age_if_funded m.wallet_age_days m.funding_source) (source_list m.funding_source) refl,
      )
      (ap ok (
        simp (append_assoc, append-nil)
          (simp (append_assoc, append-nil) at
            (IsFrom.sorted (claims_of-AreRanked a 0 (measured a m) (measured-AreRanked a m))))))
