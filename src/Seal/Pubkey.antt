-- ===== src/Seal/Pubkey.antt =====
-- packages/seal/src/pubkey.ts: grantee keys. The test of the curve (`ProjectivePoint.fromHex(…)
-- .assertValidity()`) belongs to the package noble and is a parameter.
pub mod Laws
use zegel.Common.{
  ℕ, Bool, true, false, not, ◌&&◌, ◌||◌, Option, none, some, List, [], ◌∷◌, ◌++◌, all, any, length,
  take, drop, ◌==◌, if◌then◌else◌,
}
use zegel.Common.Text.{Text, codes, text_eq, to_lower_case, is_hex_digit, trim}
use zegel.Common.Result.{Result, ok, err, ◌>>=◌}
use zegel.Seal.Errors.{SealError, invalid_public_key}

unfoldable pub strip_0x : Text → Text
strip_0x value =
    let trimmed = trim value in
    if text_eq (take 2 trimmed) (codes "0x") || text_eq (take 2 trimmed) (codes "0X")
    then drop 2 trimmed
    else trimmed

-- `/^[A-Fa-f0-9]{66}$/`
abbrev pub looks_like_compressed_public_key : Text → Bool
looks_like_compressed_public_key s = all is_hex_digit s && length s == 66

module _ (on_curve : Text → Bool) where
  unfoldable pub grantee_public_key : Text → Result SealError Text
  grantee_public_key value =
      let hex = strip_0x value in
      let normalised = to_lower_case hex in
      if not (looks_like_compressed_public_key hex)
      then err invalid_public_key
      else if not
          (text_eq (take 2 normalised) (codes "02") || text_eq (take 2 normalised) (codes "03"))
      then err invalid_public_key
      else if on_curve normalised
      then ok normalised
      else err invalid_public_key

  -- The loop of `normaliseGrantees`: `out` holds the keys so far, which are also the keys seen.
  unfoldable pub normalise_from : List Text → List Text → Result SealError (List Text)
  normalise_from out [] = ok out
  normalise_from out (k ∷ ks) = do
    normalised ← grantee_public_key k
    normalise_from (if any (text_eq normalised) out then out else out ++ normalised ∷ []) ks

  unfoldable pub normalise_grantees : List Text → Result SealError (List Text)
  normalise_grantees keys = normalise_from [] keys
