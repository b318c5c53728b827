-- ===== src/Gateway/Platform.antt =====
-- What the gateway takes from its platform and from the package viem: parameters of the model.
-- `none` is a call that throws, and for `date_parse` the result `NaN`.
use zegel.Common.{Bool, Option}
use zegel.Common.Int.{ℤ}
use zegel.Common.Text.{Text}
use zegel.Gateway.Json.{Json}

pub record Platform : Type 0 where
  -- `JSON.parse`, and `Date.parse` in milliseconds
  pub json_parse : Text → Option Json
  pub date_parse : Text → Option ℤ
  -- viem's `stringToHex`, `sha256`, `isAddress`, `getAddress`, `isHex` and `namehash`
  pub string_to_hex : Text → Text
  pub sha256 : Text → Text
  pub is_address : Text → Bool
  pub get_address : Text → Option Text
  pub is_hex : Text → Bool
  pub namehash : Text → Text
