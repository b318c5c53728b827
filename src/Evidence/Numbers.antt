-- ===== src/Evidence/Numbers.antt =====
-- The numbers of JavaScript, as far as the package computes with them. `round` is that of
-- packages/evidence/src/derive.ts.
use zegel.Common.{ℕ, ◌^◌, Bool, Option}
use zegel.Common.Text.{Text}

-- The bit pattern of a double.
abbrev pub Double : Type 0
Double = ℕ

-- What the language provides. `number_of` is `Number(text)`, with `none` for a
-- result that is not finite; `date_parse` is `Date.parse(text)`, `nearest` is `Math.round`, `of_nat` a whole number
-- as a double, `number_text` is `String(n)`, `round_share r n` is `Math.round(r * n)`, and
-- `locale_lt` tells whether `a.localeCompare(b)` is negative.
pub record Arithmetic : Type 0 where
  pub of_nat : ℕ → Double
  pub add : Double → Double → Double
  pub sub : Double → Double → Double
  pub mul : Double → Double → Double
  pub div : Double → Double → Double
  pub nearest : Double → Double
  pub lt : Double → Double → Bool
  pub le : Double → Double → Bool
  pub same : Double → Double → Bool
  pub is_finite : Double → Bool
  pub number_of : Text → Option Double
  pub date_parse : Text → Double
  pub number_text : Double → Text
  pub round_share : Double → ℕ → ℕ
  pub locale_lt : Text → Text → Bool

-- `round(value, dp)`
unfoldable pub round : Arithmetic → Double → ℕ → Double
round a value dp =
    let factor = a.of_nat (10 ^ dp) in
    a.add (a.div (a.nearest (a.mul value factor)) factor) (a.of_nat 0)
