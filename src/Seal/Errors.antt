-- ===== src/Seal/Errors.antt =====
-- packages/seal/src/errors.ts: the errors of the sealing layer, by their codes. `upstream` is any
-- other exception, with the HTTP status that `httpStatusOf` finds in it.
use zegel.Common.{ℕ, Bool, false, Option, some, ◌==◌}

pub data SealError : Type 0 where
  invalid_public_key invalid_envelope grantee_management_unavailable : SealError
  publisher_unknown postage_unavailable backend_unreachable : SealError
  upstream : Option ℕ → SealError

unfoldable pub is_not_found : SealError → Bool
is_not_found (upstream (some status)) = status == 404
is_not_found _ = false
