-- ===== src/Evidence/Metrics/Assets.antt =====
-- packages/evidence/src/derive.ts: the sampled swaps, the scores of the assets and the largest of them.
use zegel.Common.{
  ℕ, ◌+◌, Bool, true, false, not, ◌||◌, Option, none, some, List, [], ◌∷◌, ◌++◌, ◌==◌,
  if◌then◌else◌,
}
use zegel.Common.Text.{Text, codes, text_eq, to_lower_case}
use zegel.Common.JsMap.{get, set}
use zegel.Evidence.Numbers.{Double, Arithmetic}
use zegel.Sdk.Canonical.{text_ltb}
use zegel.Evidence.Client.Settings.{Param, text_param, number_param, boolean_param}
use zegel.Evidence.Chains.{normalize_chain}
use zegel.Evidence.Specs.{security_score_floor}
use zegel.Evidence.Cycles.{Bounds, asset_key, is_outside}
use zegel.Evidence.Sources.{Runtime, UsableSource, WalletTrade, TokenSecurity, to_ms, num}
use zegel.Evidence.Metrics.Walk.{Volume, Volumes}

-- The sampled swaps: their number, their fees and the part of these that went to bots.
pub record Sample : Type 0 where
  pub trades : ℕ
  pub fees : Double
  pub mev : Double
  pub sources : List ℕ

abbrev pub in_bounds : Runtime → Bounds → Option Double → Bool
in_bounds r w none = false
in_bounds r w (some at) = not (is_outside r.numbers w at)

unfoldable pub sample_trades : Runtime → Bounds → List WalletTrade → Sample × Bool → Sample × Bool
sample_trades r w [] s = s
sample_trades r w (t ∷ ts) (s, used) =
    let a = r.numbers in
    sample_trades r w ts (
      if in_bounds r w (to_ms a t.date)
      then (
        record s {
          trades = s.trades + 1;
          fees = a.add s.fees (num a t.total_fees_usd);
          mev = a.add s.mev (num a t.mev_fees_usd);
        },
        true,
      )
      else (s, used))

abbrev pub with_source : ℕ → Sample × Bool → Sample
with_source i (s, used) = if used then record s { sources = s.sources ++ i ∷ [] } else s

abbrev pub listed {ℓ} : {A : Type ℓ} → Option (List A) → List A
listed none = []
listed (some xs) = xs

unfoldable pub sample_sources : Runtime → Bounds → List UsableSource → Sample → Sample
sample_sources r w [] s = s
sample_sources r w (u ∷ us) s =
    sample_sources r w us
      (with_source u.index (sample_trades r w (listed (r.readers.trades u.body)) (s, false)))

abbrev pub param_text : Arithmetic → Option Param → Option Text
param_text a none = none
param_text a (some (text_param t)) = some t
param_text a (some (number_param d)) = some (a.number_text d)
param_text a (some (boolean_param true)) = some (codes "true")
param_text a (some (boolean_param false)) = some (codes "false")

abbrev pub first_text : Option Text → Option Text → Option Text
first_text none t = t
first_text (some s) t = some s

abbrev pub or_text : Option Text → Text → Text
or_text none d = d
or_text (some t) d = t

abbrev pub security_chain : Option TokenSecurity → Option Text
security_chain none = none
security_chain (some t) = t.chain_id

abbrev pub security_address : Option TokenSecurity → Option Text
security_address none = none
security_address (some t) = t.address

abbrev pub Scores : Type 0
Scores = List (Text × (ℕ × Option TokenSecurity))

abbrev pub with_score : Runtime → UsableSource → Option TokenSecurity → Scores → Scores
with_score r u t m =
    let a = r.numbers in
    let chain =
      normalize_chain r.spelling
        (first_text (security_chain t) (param_text a (get (codes "chainId") u.params))) in
    let address = to_lower_case (
      or_text (first_text (security_address t) (param_text a (get (codes "address") u.params)))
        []) in
    if text_eq address [] then m else set (asset_key chain address) (u.index, t) m

-- `securityByAsset`: the last response for an asset counts.
unfoldable pub scores_from : Runtime → List UsableSource → Scores → Scores
scores_from r [] m = m
scores_from r (u ∷ us) m = scores_from r us (with_score r u (r.readers.security u.body) m)

unfoldable pub insert_key : Text → List Text → List Text
insert_key x [] = x ∷ []
insert_key x (y ∷ ys) = let rest = insert_key x ys in if text_ltb y x then y ∷ rest else x ∷ y ∷ ys

-- `[...volumeByAsset.keys()].sort()`
unfoldable pub sorted_keys : Volumes → List Text
sorted_keys [] = []
sorted_keys ((k, v) ∷ vs) = insert_key k (sorted_keys vs)

pub record SecurityReading : Type 0 where
  pub chain : Option Text
  pub address : Text
  pub symbol : Text
  pub score : Double
  pub killed : Bool
  pub kill_reason : Option Text
  pub source_index : ℕ

-- `key.split('|')[0]` and `[1]`
abbrev pub bar_sign : ℕ
bar_sign = b'|'

unfoldable pub before_bar : Text → Text
before_bar [] = []
before_bar (c ∷ s) = let rest = before_bar s in if c == bar_sign then [] else c ∷ rest

unfoldable pub after_bar : Text → Text
after_bar [] = []
after_bar (c ∷ s) = let rest = after_bar s in if c == bar_sign then s else rest

abbrev pub key_chain : Text → Option Text
key_chain part = if text_eq part (codes "unknown") then none else some part

abbrev pub symbol_of : Option Volume → Text → Text
symbol_of none d = d
symbol_of (some v) d = v.symbol

unfoldable pub scored_reading :
    Arithmetic → Volumes → Text → ℕ → TokenSecurity → Double → SecurityReading
unfolding before_bar after_bar
scored_reading a vs key i t score =
    let address = before_bar (after_bar key) in
    record {
      chain = key_chain (before_bar key);
      address = address;
      symbol = symbol_of (get key vs) address;
      score = score;
      killed = t.killed;
      kill_reason = t.kill_reason;
      source_index = i;
    }

-- `typeof score !== 'number' || !Number.isFinite(score)`
abbrev pub finite_score : Arithmetic → Option Double → Option Double
finite_score a none = none
finite_score a (some d) = if a.is_finite d then some d else none

abbrev pub reading_if :
    Arithmetic → Volumes → Text → ℕ → TokenSecurity → Option Double → List SecurityReading
reading_if a vs key i t none = []
reading_if a vs key i t (some score) = scored_reading a vs key i t score ∷ []

abbrev pub reading_of :
    Arithmetic → Volumes → Text → Option (ℕ × Option TokenSecurity) → List SecurityReading
reading_of a vs key none = []
reading_of a vs key (some (i, none)) = []
reading_of a vs key (some (i, some t)) = reading_if a vs key i t (finite_score a t.score)

unfoldable pub readings_of : Arithmetic → Volumes → Scores → List Text → List SecurityReading
readings_of a vs m [] = []
readings_of a vs m (k ∷ ks) = reading_of a vs k (get k m) ++ readings_of a vs m ks

unfoldable pub is_risky : Arithmetic → SecurityReading → Bool
is_risky a r = r.killed || a.lt r.score (security_score_floor a)

unfoldable pub count_risky : Arithmetic → List SecurityReading → ℕ
count_risky a [] = 0
count_risky a (r ∷ rs) = if is_risky a r then count_risky a rs + 1 else count_risky a rs

abbrev pub better : Arithmetic → Option Volume → Double × Text → Double × Text
better a none best = best
better a (some v) best = if a.lt best.0 v.volume then (v.volume, v.symbol) else best

unfoldable pub top_asset : Arithmetic → Volumes → List Text → Double × Text → Double × Text
top_asset a vs [] best = best
top_asset a vs (k ∷ ks) best = top_asset a vs ks (better a (get k vs) best)
