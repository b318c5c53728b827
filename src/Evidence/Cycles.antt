-- ===== src/Evidence/Cycles.antt =====
-- packages/evidence/src/derive.ts and upstream.ts: the sources of a bundle and the closed trades that
-- they report.
pub mod Laws
pub mod Repeated
use zegel.Common.{
  ℕ, ◌+◌, Bool, true, false, not, ◌&&◌, ◌||◌, Option, none, some, List, [], ◌∷◌, ◌++◌, any, ltb,
  if◌then◌else◌,
}
use zegel.Common.Text.{Text, codes, text_eq, to_lower_case}
use zegel.Common.JsMap.{lacks, values}
use zegel.Sdk.Canonical.{Value, null}
use zegel.Evidence.Numbers.{Double, Arithmetic}
use zegel.Evidence.Bundle.{EvidenceSource, EvidenceBundle, Unavailable}
use zegel.Evidence.Client.Settings.{Param}
use zegel.Evidence.Chains.{Spelling, normalize_chain}
use zegel.Evidence.Specs.{positions_history}
use zegel.Evidence.Sources.{
  PositionCycle, PositionHistoryEntry, Runtime, UpstreamToken, UsableSource, num, to_ms,
  usable_sources,
}

abbrev chain_text : Option Text → Text
chain_text none = codes "unknown"
chain_text (some c) = c

unfoldable pub asset_key : Option Text → Text → Text
asset_key chain address = chain_text chain ++ codes "|" ++ to_lower_case address

pub record NormalizedCycle : Type 0 where
  pub chain : Option Text
  pub address : Text
  pub symbol : Text
  pub entry_ms : Option Double
  pub exit_ms : Double
  pub realized_pnl_usd : Double
  pub fees_usd : Double
  pub volume_usd : Double
  pub source_index : ℕ

abbrev or_text : Option Text → Text → Text
or_text none d = d
or_text (some t) d = t

abbrev token_chain : Option UpstreamToken → Option Text
token_chain none = none
token_chain (some t) = t.chain_id

abbrev token_address : Option UpstreamToken → Text
token_address none = []
token_address (some t) = to_lower_case (or_text t.address [])

abbrev token_symbol : Option UpstreamToken → Text → Text
token_symbol none d = d
token_symbol (some t) d = or_text t.symbol d

-- `${entryMs ?? 'x'}`
abbrev ms_text : Arithmetic → Option Double → Text
ms_text a none = codes "x"
ms_text a (some d) = a.number_text d

-- The window in milliseconds.
pub record Bounds : Type 0 where
  pub from_ms : Double
  pub to_ms : Double

unfoldable pub bounds_of : Arithmetic → EvidenceBundle → Bounds
bounds_of a b = record { from_ms = a.date_parse b.window.from; to_ms = a.date_parse b.window.to }

-- `at < fromMs || at > toMs`
abbrev pub is_outside : Arithmetic → Bounds → Double → Bool
is_outside a w at = a.lt at w.from_ms || a.lt w.to_ms at

-- The cycle of an entry that is closed, with its key; the window is still to be tested.
abbrev pub normalized :
    Runtime → ℕ → Option UpstreamToken → PositionCycle → Double → Text × NormalizedCycle
normalized r i token cycle exit_ms =
    let a = r.numbers in
    let chain = normalize_chain r.spelling (token_chain token) in
    let address = token_address token in
    let entry_ms = to_ms a cycle.entry_date in
    (
      asset_key chain address
          ++ codes "|"
          ++ ms_text a entry_ms
          ++ codes "|"
          ++ a.number_text exit_ms,
      record {
        chain = chain;
        address = address;
        symbol = token_symbol token address;
        entry_ms = entry_ms;
        exit_ms = exit_ms;
        realized_pnl_usd = num a cycle.realized_pnl_usd;
        fees_usd = num a cycle.fees_usd;
        volume_usd = a.add (num a cycle.volume_buy_usd) (num a cycle.volume_sell_usd);
        source_index = i;
      },
    )

abbrev pub kept_cycle :
    Runtime
    → Bounds
    → ℕ
    → Option UpstreamToken
    → PositionCycle
    → Option Double
    → Option (Text × NormalizedCycle)
kept_cycle r w i token cycle none = none
kept_cycle r w i token cycle (some exit_ms) =
    if is_outside r.numbers w exit_ms then none else some (normalized r i token cycle exit_ms)

-- The tests of the loop that end in `continue` before the key.
abbrev pub closed_of :
    Runtime
    → Bounds
    → ℕ
    → Option UpstreamToken
    → Option PositionCycle
    → Option (Text × NormalizedCycle)
closed_of r w i token none = none
closed_of r w i token (some c) =
    if c.is_open then none else kept_cycle r w i token c (to_ms r.numbers c.exit_date)

unfoldable pub closed_cycle :
    Runtime → Bounds → ℕ → PositionHistoryEntry → Option (Text × NormalizedCycle)
closed_cycle r w i entry = closed_of r w i entry.token entry.cycle

-- `seen` and `closedCycles`, which grow together: the cycles, each with its key.
abbrev pub Cycles : Type 0
Cycles = List (Text × NormalizedCycle)

abbrev pub add_cycle : Option (Text × NormalizedCycle) → Cycles → Cycles
add_cycle none seen = seen
add_cycle (some (key, cycle)) seen = if lacks key seen then seen ++ (key, cycle) ∷ [] else seen

unfoldable pub add_entries : Runtime → Bounds → ℕ → List PositionHistoryEntry → Cycles → Cycles
add_entries r w i [] seen = seen
add_entries r w i (e ∷ es) seen = add_entries r w i es (add_cycle (closed_cycle r w i e) seen)

abbrev pub entries_of : Option (List PositionHistoryEntry) → List PositionHistoryEntry
entries_of none = []
entries_of (some es) = es

unfoldable pub add_sources : Runtime → Bounds → List UsableSource → Cycles → Cycles
add_sources r w [] seen = seen
add_sources r w (s ∷ ss) seen =
    add_sources r w ss (add_entries r w s.index (entries_of (r.readers.history s.body)) seen)

unfoldable pub collect_cycles : Runtime → EvidenceBundle → Cycles
collect_cycles r b = add_sources r (bounds_of r.numbers b) (usable_sources b positions_history) []

abbrev entry_or_zero : Arithmetic → Option Double → Double
entry_or_zero a none = a.of_nat 0
entry_or_zero a (some d) = d

-- Whether the comparison of the sort is negative: exit, then entry, then asset.
unfoldable pub cycle_before : Arithmetic → NormalizedCycle → NormalizedCycle → Bool
cycle_before a x y =
    if a.lt x.exit_ms y.exit_ms
    then true
    else if a.lt y.exit_ms x.exit_ms
    then false
    else if a.lt (entry_or_zero a x.entry_ms) (entry_or_zero a y.entry_ms)
    then true
    else if a.lt (entry_or_zero a y.entry_ms) (entry_or_zero a x.entry_ms)
    then false
    else a.locale_lt (asset_key x.chain x.address) (asset_key y.chain y.address)

unfoldable pub insert_cycle :
    Arithmetic → NormalizedCycle → List NormalizedCycle → List NormalizedCycle
insert_cycle a x [] = x ∷ []
insert_cycle a x (y ∷ ys) =
    let rest = insert_cycle a x ys in if cycle_before a y x then y ∷ rest else x ∷ y ∷ ys

unfoldable pub sort_cycles : Arithmetic → List NormalizedCycle → List NormalizedCycle
sort_cycles a [] = []
sort_cycles a (x ∷ xs) = insert_cycle a x (sort_cycles a xs)

unfoldable pub closed_cycles : Runtime → EvidenceBundle → List NormalizedCycle
closed_cycles r b = sort_cycles r.numbers (values (collect_cycles r b))
