-- ===== src/Gateway/Tests/Resolve.antt =====
-- Concrete runs of the client's resolution, on what the gateway accepts.
use zegel.Common.{◌≡◌, refl, ◌↔◌, true, some, none, []}
use zegel.Common.Text.{Text, codes}
use zegel.Common.Result.{ok}
use zegel.Sdk.Resolve.{
  Client, ResolveOptions, zero_address, assert_envelope, decode_envelope, resolve_envelope,
}
use zegel.Sdk.Resolve.Served.{IsServed, resolve_envelope-parse_envelope}
use zegel.Gateway.Tests.{platform, stored, envelope_fields, parse_envelope_ok}

-- A client whose resolver is a wildcard one, and answers with the bytes as they are.
abbrev client : Client
client = record {
  get_ens_resolver = λ name. some (some (codes "0xRR"));
  supports_interface = λ resolver id. some true;
  resolve = λ resolver name inner. some (codes "{}");
  data_of = λ resolver node key. none;
  namehash = λ name. name;
  encode_data_call = λ node key. node;
  dns_name = λ name. name;
  decode_bytes = λ wrapped. some wrapped;
  hex_to_string = λ raw. some raw;
  json_parse = platform.json_parse;
}

abbrev options : ResolveOptions
options = record { key = none; resolver = none }

served : IsServed client (codes "a.eth") options stored.bytes
unfolding zegel.Sdk.Resolve.supports_interface zegel.Common.Text.text_eq
served = record {
  resolver = codes "0xRR";
  chosen = refl;
  is_set = refl;
  is_wildcard = refl;
  wrapped = codes "{}";
  answered = refl;
  wrapped_not_empty = refl;
  unwrapped = refl;
  not_empty = refl;
}

resolve_envelope-parse_envelope_example :
    resolve_envelope client (codes "a.eth") options ≡ ok envelope_fields
resolve_envelope-parse_envelope_example =
    resolve_envelope-parse_envelope platform client (codes "a.eth") options (codes "{}") stored refl
      (λ t. refl) parse_envelope_ok served
