-- ===== src/Evidence/Metrics/Walk.antt =====
-- packages/evidence/src/derive.ts: the loop over the closed trades, and the median.
use zegel.Common.{
  ℕ, ◌+◌, ◌-◌, ◌/◌, ◌%◌, Option, none, some, List, [], ◌∷◌, ◌++◌, length, get_elem?, ◌==◌,
  if◌then◌else◌,
}
use zegel.Common.Text.{Text}
use zegel.Common.JsMap.{get, set}
use zegel.Evidence.Numbers.{Double, Arithmetic}
use zegel.Evidence.Cycles.{NormalizedCycle, asset_key}

-- A running total over the cycles: the variables of the loop, but for the holding times and the
-- volumes by asset.
pub record Walk : Type 0 where
  pub realized : Double
  pub volume : Double
  pub fees : Double
  pub wins : ℕ
  pub cumulative : Double
  pub peak : Double
  pub max_drawdown : Double

abbrev pub first_walk : Arithmetic → Walk
first_walk a =
    let z = a.of_nat 0 in
    record {
      realized = z;
      volume = z;
      fees = z;
      wins = 0;
      cumulative = z;
      peak = z;
      max_drawdown = z;
    }

unfoldable pub walk_cycle : Arithmetic → Walk → NormalizedCycle → Walk
walk_cycle a w c =
    let cumulative = a.add w.cumulative c.realized_pnl_usd in
    let peak = if a.lt w.peak cumulative then cumulative else w.peak in
    let drawdown = a.sub peak cumulative in
    record {
      realized = a.add w.realized c.realized_pnl_usd;
      volume = a.add w.volume c.volume_usd;
      fees = a.add w.fees c.fees_usd;
      wins = if a.lt (a.of_nat 0) c.realized_pnl_usd then w.wins + 1 else w.wins;
      cumulative = cumulative;
      peak = peak;
      max_drawdown = if a.lt w.max_drawdown drawdown then drawdown else w.max_drawdown;
    }

unfoldable pub walk_cycles : Arithmetic → Walk → List NormalizedCycle → Walk
walk_cycles a w [] = w
walk_cycles a w (c ∷ cs) = walk_cycles a (walk_cycle a w c) cs

abbrev pub ms_per_day : Arithmetic → Double
ms_per_day a = a.of_nat 86400000

abbrev pub days_held : Arithmetic → Option Double → Double → List Double
days_held a none exit_ms = []
days_held a (some entry_ms) exit_ms =
    if a.le entry_ms exit_ms then a.div (a.sub exit_ms entry_ms) (ms_per_day a) ∷ [] else []

unfoldable pub holding_days : Arithmetic → List NormalizedCycle → List Double
holding_days a [] = []
holding_days a (c ∷ cs) = days_held a c.entry_ms c.exit_ms ++ holding_days a cs

pub record Volume : Type 0 where
  pub volume : Double
  pub symbol : Text

abbrev pub Volumes : Type 0
Volumes = List (Text × Volume)

abbrev pub added_volume : Arithmetic → NormalizedCycle → Option Volume → Volume
added_volume a c none = record { volume = c.volume_usd; symbol = c.symbol }
added_volume a c (some v) = record v { volume = a.add v.volume c.volume_usd }

unfoldable pub volumes_from : Arithmetic → List NormalizedCycle → Volumes → Volumes
volumes_from a [] vs = vs
volumes_from a (c ∷ cs) vs =
    let key = asset_key c.chain c.address in
    volumes_from a cs (set key (added_volume a c (get key vs)) vs)

unfoldable pub insert_double : Arithmetic → Double → List Double → List Double
insert_double a x [] = x ∷ []
insert_double a x (y ∷ ys) =
    let rest = insert_double a x ys in if a.lt y x then y ∷ rest else x ∷ y ∷ ys

unfoldable pub sort_doubles : Arithmetic → List Double → List Double
sort_doubles a [] = []
sort_doubles a (x ∷ xs) = insert_double a x (sort_doubles a xs)

abbrev pub or_zero : Arithmetic → Option Double → Double
or_zero a none = a.of_nat 0
or_zero a (some d) = d

unfoldable pub median : Arithmetic → List Double → Double
median a values =
    let sorted = sort_doubles a values in
    let mid = length sorted / 2 in
    if length sorted % 2 == 1
    then or_zero a (get_elem? sorted mid)
    else a.div (a.add (or_zero a (get_elem? sorted (mid - 1))) (or_zero a (get_elem? sorted mid)))
        (a.of_nat 2)
