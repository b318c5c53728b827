-- ===== src/Evidence/Derivation.antt =====
-- packages/evidence/src/derive.ts: the rules and conventions as one value, whose digest names them.
use zegel.Common.{List, [], ◌∷◌, if◌then◌else◌}
use zegel.Common.Text.{Text, codes}
use zegel.Common.Result.{Result}
use zegel.Sdk.Canonical.{
  Value, Items, nil, cons, end, field, number, non_finite_number, string, array, object, Fields,
  EncodeError, Writer, Hashing, canonical_digest,
}
use zegel.Evidence.Numbers.{Double, Arithmetic}
use zegel.Evidence.Bundle.{
  ClaimOp, gte, lte, between, eq, ClaimUnit, usd, count, ratio, days, score, Threshold, bar, range,
}
use zegel.Evidence.Specs.{ClaimSpec, claim_specs, derivation_version, whole, quotient}

abbrev pub op_text : ClaimOp → Text
op_text gte = codes "gte"
op_text lte = codes "lte"
op_text between = codes "between"
op_text eq = codes "eq"

abbrev pub unit_text : ClaimUnit → Text
unit_text usd = codes "usd"
unit_text count = codes "count"
unit_text ratio = codes "ratio"
unit_text days = codes "days"
unit_text score = codes "score"

-- A number that is not finite has no canonical form.
abbrev pub number_value : Arithmetic → Double → Value
number_value a d = if a.is_finite d then number d else non_finite_number

abbrev pub threshold_value : Arithmetic → Threshold → Value
threshold_value a (bar d) = number_value a d
threshold_value a (range lo hi) = array (cons (number_value a lo) (cons (number_value a hi) nil))

abbrev pub text_items : List Text → Items
text_items [] = nil
text_items (t ∷ ts) = cons (string t) (text_items ts)

-- An object literal.
abbrev pub fields_of : List (Text × Value) → Fields
fields_of [] = end
fields_of ((k, v) ∷ fs) = field k v (fields_of fs)

abbrev spec_value : Arithmetic → ClaimSpec → Value
spec_value a s = object (
    fields_of (
      (codes "id", string s.id)
      ∷ (codes "op", string (op_text s.op))
      ∷ (codes "threshold", threshold_value a s.threshold)
      ∷ (codes "unit", string (unit_text s.unit))
      ∷ (codes "rule", string s.rule)
      ∷ (codes "inputs", array (text_items s.inputs))
      ∷ (codes "statement", string s.statement)
      ∷ []))

abbrev spec_values : Arithmetic → List ClaimSpec → Items
spec_values a [] = nil
spec_values a (s ∷ ss) = cons (spec_value a s) (spec_values a ss)

-- `DERIVATION_PARAMS`
abbrev params_value : Arithmetic → Value
params_value a = object (
    fields_of (
      (codes "securityScoreFloor", number (whole a 60))
      ∷ (codes "maxRiskyAssetShare", number (quotient a 2 10))
      ∷ (codes "minRealizedPnlUsd", number (whole a 0))
      ∷ (codes "minClosedCycles", number (whole a 10))
      ∷ (codes "minWinRate", number (quotient a 4 10))
      ∷ (codes "maxDrawdownUsd", number (whole a 25000))
      ∷ (codes "minMedianHoldingDays", number (whole a 1))
      ∷ (codes "maxTradingCostRatio", number (quotient a 2 100))
      ∷ (codes "maxMevFeeShare", number (quotient a 25 100))
      ∷ (codes "maxTopAssetShare", number (quotient a 5 10))
      ∷ (codes "minWalletAgeDays", number (whole a 180))
      ∷ []))

abbrev rounding_value : Arithmetic → Value
rounding_value a = object (
    fields_of (
      (codes "usd", number (whole a 2))
      ∷ (codes "ratio", number (whole a 6))
      ∷ (codes "days", number (whole a 4))
      ∷ (codes "count", number (whole a 0))
      ∷ []))

abbrev conventions_value : Arithmetic → Value
conventions_value a = object (
    fields_of (
      (
        codes "windowBounds",
        string (codes "closed interval on cycle exit time, both endpoints inclusive"),
      )
      ∷ (codes "cycleOrdering", string (codes "exit time, then entry time, then chain|address"))
      ∷ (
        codes "cycleIdentity",
        string
            (codes "chain|address|entry|exit — duplicates across per-chain requests are dropped"),
      )
      ∷ (
        codes "chainNormalization",
        string (codes "evm:<decimal> or solana; unrecognised identifiers become null"),
      )
      ∷ (codes "rounding", rounding_value a)
      ∷ (
        codes "missingSource",
        string (codes "the claim is omitted entirely; no default is substituted"),
      )
      ∷ []))

unfoldable pub derivation : Arithmetic → Value
derivation a = object (
    fields_of (
      (codes "version", string derivation_version)
      ∷ (codes "params", params_value a)
      ∷ (codes "claims", array (spec_values a (claim_specs a)))
      ∷ (codes "conventions", conventions_value a)
      ∷ []))

-- `DERIVATION_ID`
unfoldable pub derivation_id : Writer → Hashing → Arithmetic → Result EncodeError Text
derivation_id w h a = canonical_digest w h (derivation a)
