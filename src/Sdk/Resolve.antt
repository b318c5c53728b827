-- ===== src/Sdk/Resolve.antt =====
-- packages/sdk/src/resolve.ts: from a name to the envelope that is published under it. The client of
-- viem, its ABI coding and `JSON.parse` are parameters; `none` is a call that throws.
pub mod Laws
pub mod Accepted
pub mod Served
use zegel.Common.{Bool, true, false, not, Option, none, some, List, [], ◌∷◌, ◌||◌, if◌then◌else◌}
use zegel.Common.Text.{Text, codes, text_eq}
use zegel.Common.Result.{Result, ok, err, ◌>>=◌, ◌>>◌, or_throw, throw_if}
use zegel.Gateway.Json.{Json, Items, Fields, string, array, object, items, member}

abbrev pub envelope_record_key : Text
envelope_record_key = codes "zegel.envelope.v1"

abbrev pub envelope_schema : Text
envelope_schema = codes "zegel.envelope.v1"

abbrev pub zero_address : Text
zero_address = codes "0x0000000000000000000000000000000000000000"

pub data Detail : Type 0 where
  not_valid_hex not_valid_json not_an_object unknown_schema no_sealed_tiers : Detail
  missing : Text → Detail

-- The package's errors; `call_failed` is a call of viem that throws.
pub data ResolveError : Type 0 where
  no_resolver no_envelope call_failed : ResolveError
  malformed_envelope : Detail → ResolveError

-- `resolve` and `data` answer with the bytes in hexadecimal, `decode_bytes` takes them off their ABI
-- coding, and `dns_name` is the name in wire format.
pub record Client : Type 0 where
  pub get_ens_resolver : Text → Option (Option Text)
  pub supports_interface : Text → Text → Option Bool
  pub resolve : Text → Text → Text → Option Text
  pub data_of : Text → Text → Text → Option Text
  pub namehash : Text → Text
  pub encode_data_call : Text → Text → Text
  pub dns_name : Text → Text
  pub decode_bytes : Text → Option Text
  pub hex_to_string : Text → Option Text
  pub json_parse : Text → Option Json

pub record ResolveOptions : Type 0 where
  pub key : Option Text
  pub resolver : Option Text

abbrev pub extended_resolver_interface_id : Text
extended_resolver_interface_id = codes "0x9061b923"

-- `!raw || raw === '0x'`
abbrev pub is_empty_hex : Text → Bool
is_empty_hex raw = text_eq raw [] || text_eq raw (codes "0x")

-- A resolver that reverts does not support the interface.
unfoldable pub supports_interface : Client → Text → Text → Bool
supports_interface c resolver id = elim (c.supports_interface resolver id) [
  | none ↦ false
  | some b ↦ b
]

unfoldable pub resolve_wildcard : Client → Text → Text → Text → Result ResolveError Text
resolve_wildcard c resolver name inner = do
  wrapped ← or_throw (c.resolve resolver (c.dns_name name) inner) call_failed
  if is_empty_hex wrapped then ok (codes "0x") else or_throw (c.decode_bytes wrapped) call_failed

unfoldable pub resolve_direct : Client → Text → Text → Text → Result ResolveError Text
resolve_direct c resolver node key = or_throw (c.data_of resolver node key) call_failed

abbrev pub is_string : Option Json → Bool
is_string (some (string s)) = true
is_string _ = false

abbrev pub is_schema : Option Json → Bool
is_schema (some (string s)) = text_eq s envelope_schema
is_schema _ = false

abbrev pub has_items : Option Json → Bool
has_items (some (array (Items.cons x xs))) = true
has_items _ = false

abbrev pub required_fields : List Text
required_fields =
    codes "referenceId" ∷ codes "commitment" ∷ codes "issuedAt" ∷ codes "expiresAt" ∷ []

-- The loop over the required fields.
unfoldable pub require_strings : List Text → Fields → Result ResolveError (Unit {0})
require_strings [] e = ok tt
require_strings (name ∷ names) e =
    if is_string (member name e)
    then require_strings names e
    else err (malformed_envelope (missing name))

-- The fields that `e.schema` and the like read: an array has none of them.
abbrev own_fields : Json → Option Fields
own_fields (object fs) = some fs
own_fields (array xs) = some Fields.end
own_fields _ = none

unfoldable pub assert_envelope : Json → Result ResolveError Fields
assert_envelope value = do
  e ← or_throw (own_fields value) (malformed_envelope not_an_object)
  throw_if (not (is_schema (member (codes "schema") e))) (malformed_envelope unknown_schema)
  require_strings required_fields e
  throw_if (not (has_items (member (codes "tiers") e))) (malformed_envelope no_sealed_tiers)
  ok e

unfoldable pub decode_envelope : Client → Text → Result ResolveError Fields
decode_envelope c raw = do
  text ← or_throw (c.hex_to_string raw) (malformed_envelope not_valid_hex)
  parsed ← or_throw (c.json_parse text) (malformed_envelope not_valid_json)
  assert_envelope parsed

abbrev pub or_default : Option Text → Text → Text
or_default none d = d
or_default (some t) d = t

-- The resolver given, or the name's.
abbrev pub chosen_resolver : Client → Text → ResolveOptions → Option (Option Text)
chosen_resolver c name o = elim o.resolver [
  | some r ↦ some (some r)
  | none ↦ c.get_ens_resolver name
]

abbrev pub is_no_address : Text → Bool
is_no_address r = text_eq r [] || text_eq r zero_address

abbrev usable_resolver : Option Text → Result ResolveError Text
usable_resolver none = err no_resolver
usable_resolver (some r) = if is_no_address r then err no_resolver else ok r

unfoldable pub resolve_envelope : Client → Text → ResolveOptions → Result ResolveError Fields
resolve_envelope c name o = do
  let key = or_default o.key envelope_record_key
  let node = c.namehash name
  found ← or_throw (chosen_resolver c name o) call_failed
  resolver ← usable_resolver found
  let inner = c.encode_data_call node key
  raw ←
      (if supports_interface c resolver extended_resolver_interface_id
        then resolve_wildcard c resolver name inner
        else resolve_direct c resolver node key)
  throw_if (is_empty_hex raw) no_envelope
  decode_envelope c raw
