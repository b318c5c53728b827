-- ===== src/Sdk/Resolve/Served.antt =====
-- gateway/src/envelope.ts and packages/sdk/src/resolve.ts: what the gateway accepts, the client reads.
use zegel.Common.{◌≡◌, true, false, some}
use zegel.Common.Text.{Text}
use zegel.Common.Result.{ok}
use zegel.Gateway.Platform.{Platform}
use zegel.Gateway.Envelope.{StoredEnvelope, parse_envelope}
use zegel.Sdk.Resolve.{
  Client, ResolveOptions, decode_envelope, resolve_envelope, resolve_wildcard, chosen_resolver,
  is_no_address, supports_interface, is_empty_hex, or_default, envelope_record_key,
  extended_resolver_interface_id,
}
use zegel.Sdk.Resolve.Laws.{IsEnvelope-assert_envelope}
use zegel.Sdk.Resolve.Accepted.{parse_envelope-IsEnvelope}

-- The bytes of a text that the gateway accepts decode to the value that it parsed.
decode_envelope-parse_envelope :
    (v : Platform) (client : Client) (text : Text) (stored : StoredEnvelope)
    → client.hex_to_string (v.string_to_hex text) ≡ some text
    → ((t : Text) → client.json_parse t ≡ v.json_parse t)
    → parse_envelope v text ≡ ok stored
    → decode_envelope client stored.bytes ≡ ok stored.envelope
unfolding decode_envelope
decode_envelope-parse_envelope v client text stored coded parsed h =
    let (shape, json, bytes) = parse_envelope-IsEnvelope v text stored h in
    rw (bytes, coded, parsed text, json) (IsEnvelope-assert_envelope stored.envelope shape)

-- The name has a wildcard resolver, and that answers for the record with the coding of `bytes`.
pub record IsServed (client : Client) (name : Text) (o : ResolveOptions) (bytes : Text)
    : Type 0 where
  pub resolver : Text
  pub chosen : chosen_resolver client name o ≡ some (some resolver)
  pub is_set : is_no_address resolver ≡ false
  pub is_wildcard : supports_interface client resolver extended_resolver_interface_id ≡ true
  pub wrapped : Text
  pub answered :
      client.resolve resolver
        (client.dns_name name)
        (client.encode_data_call (client.namehash name) (or_default o.key envelope_record_key))
      ≡ some wrapped
  pub wrapped_not_empty : is_empty_hex wrapped ≡ false
  pub unwrapped : client.decode_bytes wrapped ≡ some bytes
  pub not_empty : is_empty_hex bytes ≡ false

-- If the gateway accepts a text as an envelope, and the wildcard resolver of a name answers for
-- the record with the coding of its bytes, the client's resolution of the name gives the value
-- that the gateway parsed; both read JSON alike, and this text comes back from its bytes, as one
-- does that has no lone surrogate and no byte order mark in front.
pub resolve_envelope-parse_envelope :
    (v : Platform) (client : Client) (name : Text) (o : ResolveOptions) (text : Text)
    (stored : StoredEnvelope)
    → client.hex_to_string (v.string_to_hex text) ≡ some text
    → ((t : Text) → client.json_parse t ≡ v.json_parse t)
    → parse_envelope v text ≡ ok stored
    → IsServed client name o stored.bytes
    → resolve_envelope client name o ≡ ok stored.envelope
unfolding resolve_envelope resolve_wildcard
resolve_envelope-parse_envelope v client name o text stored coded parsed h s =
    rw
      (s.chosen, s.is_set, s.is_wildcard, s.answered, s.wrapped_not_empty, s.unwrapped, s.not_empty)
      (decode_envelope-parse_envelope v client text stored coded parsed h)
