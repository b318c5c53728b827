-- ===== src/Gateway/Lookup.antt =====
-- gateway/src/app.ts: a lookup is answered with a signed response, and its three routes.
pub mod Laws
pub mod Published
use zegel.Common.{
  ℕ, ◌+◌, ◌%◌, Bool, true, false, not, ◌&&◌, Option, none, some, List, [], ◌∷◌, any, length, take,
  drop, ◌-◌, min, leb, ltb, if◌then◌else◌, ◌==◌,
}
use zegel.Common.Int.{ℤ, pos, pos_part, leb_ℤ, min_ℤ, monus_ℤ}
use zegel.Common.Text.{Text, codes, text_eq, to_lower_case}
use zegel.Common.Result.{Result, ok, err, ◌>>=◌, ◌>>◌, throw_if, or_throw}
use zegel.Gateway.Failure.{
  Failure, bad_request, not_found, gone, sender_mismatch, unknown_resolver, wrong_key,
  not_published, expired_on_lookup, missing_string, not_an_address, call_data_not_hex,
}
use zegel.Gateway.Json.{Json, Fields, string, object, member}
use zegel.Gateway.Platform.{Platform}
use zegel.Gateway.Store.{EnvelopeRecord, EnvelopeStore}
use zegel.Gateway.Query.{Abi, GatewayQuery, node_of, key_of, decode_query, encode_result}

pub record LookupResult : Type 0 where
  pub response : Text
  pub expires : ℕ
  pub max_age : ℕ

pub record LookupConfig : Type 0 where
  pub resolvers : List Text
  pub envelope_key : Text
  pub signature_ttl_seconds : ℕ
  pub cache_ttl_seconds : ℕ
  -- `config.signer.signResponse(sender, expires, callData, result)`
  pub sign_response : Text → ℕ → Text → Text → Text

abbrev string_of : Option Json → Result Failure Text
string_of (some (string s)) = ok s
string_of _ = err (bad_request missing_string)

unfoldable pub read_string : Fields → Text → Result Failure Text
read_string body field = string_of (member field body)

module _ (v : Platform) where
  unfoldable pub require_address : Text → Result Failure Text
  require_address value =
      if v.is_address value
      then or_throw (v.get_address value) (bad_request not_an_address)
      else err (bad_request not_an_address)

  unfoldable pub require_call_data : Text → Result Failure Text
  require_call_data value =
      if not (v.is_hex value)
      then err (bad_request call_data_not_hex)
      else if not (length value % 2 == 0)
      then err (bad_request call_data_not_hex)
      else ok value

  abbrev names_sender : Option Text → Text → Bool
  names_sender none sender = false
  names_sender (some a) sender = text_eq a sender

  abbrev declared_sender : Option Json → Text → Result Failure (Unit {0})
  declared_sender none sender = ok tt
  declared_sender (some value) sender = do
    declared ← string_of (some value)
    throw_if (not (v.is_address declared && names_sender (v.get_address declared) sender))
        (bad_request sender_mismatch)

  -- `body && 'sender' in body`
  unfoldable pub check_sender : Option Fields → Text → Result Failure (Unit {0})
  check_sender none sender = ok tt
  check_sender (some body) sender = declared_sender (member (codes "sender") body) sender

abbrev is_empty : List Text → Bool
is_empty [] = true
is_empty (x ∷ xs) = false

unfoldable pub check_resolver : List Text → Text → Result Failure (Unit {0})
check_resolver resolvers sender =
    throw_if (not (is_empty resolvers) && not (any (λ known. text_eq known sender) resolvers))
      (not_found unknown_resolver)

-- `Math.min(now + ttl, expiresAtSeconds)`; the envelope is not expired here, so it is no negative
-- number.
abbrev pub expires_of : LookupConfig → ℕ → ℤ → ℕ
expires_of config now at = pos_part (min_ℤ (pos (now + config.signature_ttl_seconds)) at)

-- The signed answer from a record that has not expired.
abbrev pub answer :
    Abi → LookupConfig → ℕ → Text → Text → GatewayQuery → EnvelopeRecord → LookupResult
answer abi config now sender call_data query r =
    let expires = expires_of config now r.envelope.expires_at_seconds in
    let result = encode_result abi query r.envelope.bytes in
    record {
      response =
          abi.encode_signed result expires (config.sign_response sender expires call_data result);
      expires = expires;
      max_age = min config.cache_ttl_seconds (monus_ℤ (pos expires) now);
    }

-- `raw.replace(/\.json$/i, '')`
unfoldable pub strip_json : Text → Text
strip_json raw =
    if leb 5 (length raw) && text_eq (to_lower_case (drop (length raw - 5) raw)) (codes ".json")
    then take (length raw - 5) raw
    else raw

-- What is answered from the record that the store returned.
unfoldable pub respond_from :
    Abi
    → LookupConfig
    → ℕ
    → Text
    → Text
    → GatewayQuery
    → Option EnvelopeRecord
    → Result Failure LookupResult
respond_from abi config now sender call_data query none = err (not_found not_published)
respond_from abi config now sender call_data query (some r) =
    if leb_ℤ r.envelope.expires_at_seconds (pos now)
    then err (gone expired_on_lookup)
    else ok (answer abi config now sender call_data query r)

-- The checks before the store is asked.
unfoldable pub admit_query :
    Platform → Abi → LookupConfig → Text → Text → Option Fields → Result Failure GatewayQuery
admit_query v abi config sender call_data body = do
  check_sender v body sender
  check_resolver config.resolvers sender
  query ← decode_query v abi call_data
  throw_if (not (text_eq (key_of query) config.envelope_key)) (not_found wrong_key)
  ok query

module _ {S : Type 0} (v : Platform) (abi : Abi) (config : LookupConfig)
    (store : EnvelopeStore S) where
  ask : ℕ → Text → Text → Result Failure GatewayQuery → S → Result Failure LookupResult × S
  ask now sender call_data (err e) s = (err e, s)
  ask now sender call_data (ok query) s =
      let (found, s') = store.get (node_of query) s in
      (respond_from abi config now sender call_data query found, s')

  unfoldable pub serve_lookup :
      ℕ → Text → Text → Option Fields → S → Result Failure LookupResult × S
  unfolding ask
  serve_lookup now sender call_data body s =
      ask now sender call_data (admit_query v abi config sender call_data body) s

  abbrev serve_with :
      ℕ → Option Fields → Result Failure (Text × Text) → S → Result Failure LookupResult × S
  serve_with now body (err e) s = (err e, s)
  serve_with now body (ok (sender, call_data)) s = serve_lookup now sender call_data body s

  -- `GET /v1/:sender/:data`
  unfoldable pub get_v1 : ℕ → Text → Text → S → Result Failure LookupResult × S
  get_v1 now sender raw =
      serve_with now none
        (do a ← require_address v sender; d ← require_call_data v (strip_json raw); ok (a, d))

  -- `POST /v1/:sender`
  unfoldable pub post_v1_sender : ℕ → Text → Fields → S → Result Failure LookupResult × S
  post_v1_sender now sender body = serve_with now (some body) do
    a ← require_address v sender
    raw ← read_string body (codes "data")
    d ← require_call_data v raw
    ok (a, d)

  -- `POST /v1`
  unfoldable pub post_v1 : ℕ → Fields → S → Result Failure LookupResult × S
  post_v1 now body = serve_with now none do
    sender ← read_string body (codes "sender")
    a ← require_address v sender
    raw ← read_string body (codes "data")
    d ← require_call_data v raw
    ok (a, d)
