-- ===== src/Evidence/Sources.antt =====
-- packages/evidence/src/derive.ts: the sources of a bundle that the derivation reads, and what it
-- reads in their bodies. The index of a source is a whole number.
use zegel.Common.{ℕ, Bool, Option, none, some, List, [], ◌∷◌, ◌++◌, ltb, if◌then◌else◌}
use zegel.Common.Text.{Text, codes, text_eq}
use zegel.Sdk.Canonical.{Value, null}
use zegel.Evidence.Numbers.{Double, Arithmetic}
use zegel.Evidence.Bundle.{EvidenceSource, EvidenceBundle, Unavailable}
use zegel.Evidence.Client.Settings.{Param}
use zegel.Evidence.Chains.{Spelling}

-- Fields of the upstream bodies: `none` is `null` or a field that is not there.
pub data DateField : Type 0 where
  date_text : Text → DateField
  date_number : Double → DateField

pub data NumberField : Type 0 where
  number_field : Double → NumberField
  number_in_text : Text → NumberField

pub record UpstreamToken : Type 0 where
  pub address : Option Text
  pub chain_id : Option Text
  pub symbol : Option Text

pub record PositionCycle : Type 0 where
  pub is_open : Bool
  pub entry_date : Option DateField
  pub exit_date : Option DateField
  pub volume_buy_usd : Option NumberField
  pub volume_sell_usd : Option NumberField
  pub realized_pnl_usd : Option NumberField
  pub fees_usd : Option NumberField

pub record PositionHistoryEntry : Type 0 where
  pub token : Option UpstreamToken
  pub cycle : Option PositionCycle

pub record WalletTrade : Type 0 where
  pub date : Option DateField
  pub total_fees_usd : Option NumberField
  pub mev_fees_usd : Option NumberField

-- `score` is `none` for a field that is no number.
pub record TokenSecurity : Type 0 where
  pub address : Option Text
  pub chain_id : Option Text
  pub score : Option Double
  pub killed : Bool
  pub kill_reason : Option Text

-- How a body reads at its declared type: `none` where its `data` is missing.
pub record Readers : Type 0 where
  pub history : Value → Option (List PositionHistoryEntry)
  pub trades : Value → Option (List WalletTrade)
  pub security : Value → Option TokenSecurity
  pub funding_date : Value → Option DateField

-- What the derivation takes from the language.
pub record Runtime : Type 0 where
  pub numbers : Arithmetic
  pub spelling : Spelling
  pub readers : Readers

pub record UsableSource : Type 0 where
  pub index : ℕ
  pub params : List (Text × Param)
  pub body : Value

abbrev body_of : Option Value → Option Value
body_of (some null) = none
body_of b = b

abbrev with_body : EvidenceSource → Option Value → Option UsableSource
with_body s none = none
with_body s (some b) = some (record { index = s.index; params = s.params; body = b })

abbrev unless_unavailable : EvidenceSource → Option Unavailable → Option UsableSource
unless_unavailable s (some u) = none
unless_unavailable s none = with_body s (body_of s.body)

unfoldable pub usable_source : Text → EvidenceSource → Option UsableSource
usable_source endpoint s =
    if text_eq s.endpoint endpoint then unless_unavailable s s.unavailable else none

abbrev pub pushed : Option UsableSource → List UsableSource → List UsableSource
pushed none us = us
pushed (some u) us = u ∷ us

unfoldable pub insert_source : UsableSource → List UsableSource → List UsableSource
insert_source x [] = x ∷ []
insert_source x (y ∷ ys) =
    let rest = insert_source x ys in if ltb y.index x.index then y ∷ rest else x ∷ y ∷ ys

unfoldable pub usable_from : Text → List EvidenceSource → List UsableSource
usable_from endpoint [] = []
usable_from endpoint (s ∷ ss) = pushed (usable_source endpoint s) (usable_from endpoint ss)

-- `out.sort((a, b) => a.index - b.index)`
unfoldable pub sort_sources : List UsableSource → List UsableSource
sort_sources [] = []
sort_sources (x ∷ xs) = insert_source x (sort_sources xs)

unfoldable pub usable_sources : EvidenceBundle → Text → List UsableSource
usable_sources b path = sort_sources (usable_from (codes "GET " ++ path) b.sources)

unfoldable pub to_ms : Arithmetic → Option DateField → Option Double
to_ms a none = none
to_ms a (some (date_text t)) = if a.is_finite (a.date_parse t) then some (a.date_parse t) else none
to_ms a (some (date_number d)) = if a.is_finite d then some d else none

abbrev or_zero : Arithmetic → Option Double → Double
or_zero a none = a.of_nat 0
or_zero a (some d) = d

unfoldable pub num : Arithmetic → Option NumberField → Double
num a none = a.of_nat 0
num a (some (number_field d)) = if a.is_finite d then d else a.of_nat 0
num a (some (number_in_text t)) = or_zero a (a.number_of t)
