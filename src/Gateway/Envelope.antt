-- ===== src/Gateway/Envelope.antt =====
-- gateway/src/envelope.ts: the check of a published envelope.
use zegel.Common.{
  ℕ, ◌+◌, Bool, true, false, not, ◌&&◌, ◌||◌, Option, none, some, List, [], ◌∷◌, length, drop, take,
  all, ◌==◌,
}
use zegel.Common.Int.{ℤ, pos, floor_div, leb_ℤ}
use zegel.Common.Text.{Text, codes, text_eq, is_hex_digit}
use zegel.Common.Result.{Result, ok, err, ◌>>=◌, ◌>>◌, throw_if, or_throw}
use zegel.Gateway.Failure.{
  Failure, Reason, bad_request, not_json, not_an_object, wrong_schema, bad_reference_id,
  bad_commitment, bad_issued_at, bad_expires_at, expiry_not_after_issue, no_tiers,
  tier_not_an_object, bad_tier_number, bad_swarm_ref, bad_act_history, bad_publisher, bad_anchors,
  bad_hint, bad_hint_contract, bad_hint_chain,
}
use zegel.Gateway.Json.{Json, Items, Fields, integer, string, array, object, items, member}
use zegel.Gateway.Platform.{Platform}

-- The bytes are authoritative; the parsed value serves to read the fields.
pub record StoredEnvelope : Type 0 where
  pub text : Text
  pub bytes : Text
  pub digest : Text
  pub envelope : Fields
  pub expires_at_seconds : ℤ

abbrev pub envelope_schema : Text
envelope_schema = codes "zegel.envelope.v1"

-- `0x` and n hexadecimal digits
abbrev pub is_0x_hex : ℕ → Text → Bool
is_0x_hex n s = text_eq (take 2 s) (codes "0x") && all is_hex_digit (drop 2 s) && length s == n + 2

-- `/^(0x)?[0-9a-fA-F]{66}$/`
abbrev pub is_compressed_pubkey : Text → Bool
is_compressed_pubkey s = (all is_hex_digit s && length s == 66) || is_0x_hex 66 s

-- A value that is a string for which the test holds.
abbrev pub string_with : (Text → Bool) → Option Json → Bool
string_with p (some (string s)) = p s
string_with p _ = false

abbrev is_int_of : (ℤ → Bool) → Option Json → Bool
is_int_of p (some (integer n)) = p n
is_int_of p _ = false

abbrev is_one_or_two : ℤ → Bool
is_one_or_two (pos n) = n == 1 || n == 2
is_one_or_two _ = false

abbrev is_not_empty : Text → Bool
is_not_empty s = not (length s == 0)

abbrev pub object_of : Reason → Option Json → Result Failure Fields
object_of r (some (object fs)) = ok fs
object_of r _ = err (bad_request r)

-- A non-empty array.
abbrev pub tiers_of : Option Json → Result Failure (List Json)
tiers_of (some (array (Items.cons v vs))) = ok (v ∷ items vs)
tiers_of _ = err (bad_request no_tiers)

unfoldable pub require_hex32 : Reason → Option Json → Result Failure (Unit {0})
require_hex32 r value = throw_if (not (string_with (is_0x_hex 64) value)) (bad_request r)

abbrev text_of : Option Json → Option Text
text_of (some (string s)) = some s
text_of _ = none

unfoldable pub require_timestamp : Platform → Reason → Option Json → Result Failure ℤ
require_timestamp v r value = do
  s ← or_throw (text_of value) (bad_request r)
  or_throw (v.date_parse s) (bad_request r)

unfoldable pub require_tier : Json → Result Failure (Unit {0})
require_tier value = do
  tier ← object_of tier_not_an_object (some value)
  throw_if (not (is_int_of is_one_or_two (member (codes "tier") tier)))
      (bad_request bad_tier_number)
  throw_if (not (string_with is_not_empty (member (codes "swarmRef") tier)))
      (bad_request bad_swarm_ref)
  throw_if (not (string_with is_not_empty (member (codes "actHistoryAddress") tier)))
      (bad_request bad_act_history)
  throw_if (not (string_with is_compressed_pubkey (member (codes "actPublisher") tier)))
      (bad_request bad_publisher)

-- `tiers.forEach(requireTier)`
unfoldable pub require_tiers : List Json → Result Failure (Unit {0})
require_tiers [] = ok tt
require_tiers (t ∷ ts) = do require_tier t; require_tiers ts

-- The fields after the timestamps.
unfoldable pub require_links : Fields → Result Failure (Unit {0})
require_links candidate = do
  tiers ← tiers_of (member (codes "tiers") candidate)
  require_tiers tiers
  anchors ← object_of bad_anchors (member (codes "anchors") candidate)
  hint ← object_of bad_hint (member (codes "revocationHint") candidate)
  throw_if (not (string_with (is_0x_hex 40) (member (codes "contract") hint)))
      (bad_request bad_hint_contract)
  throw_if (not (is_int_of (λ n. true) (member (codes "chainId") hint)))
      (bad_request bad_hint_chain)

unfoldable pub parse_envelope : Platform → Text → Result Failure StoredEnvelope
parse_envelope v text = do
  parsed ← or_throw (v.json_parse text) (bad_request not_json)
  candidate ← object_of not_an_object (some parsed)
  throw_if (not (string_with (text_eq envelope_schema) (member (codes "schema") candidate)))
      (bad_request wrong_schema)
  require_hex32 bad_reference_id (member (codes "referenceId") candidate)
  require_hex32 bad_commitment (member (codes "commitment") candidate)
  issued_at ← require_timestamp v bad_issued_at (member (codes "issuedAt") candidate)
  expires_at ← require_timestamp v bad_expires_at (member (codes "expiresAt") candidate)
  throw_if (leb_ℤ expires_at issued_at) (bad_request expiry_not_after_issue)
  require_links candidate
  ok (record {
    text = text;
    bytes = v.string_to_hex text;
    digest = v.sha256 (v.string_to_hex text);
    envelope = candidate;
    expires_at_seconds = floor_div expires_at 1000;
  })
