-- ===== src/Gateway/Tests/Lookup.antt =====
-- Concrete names and lookups, in the world of the parent.
use zegel.Common.{ℕ, ◌≡◌, refl, ◌↔◌, none, some, List, [], ◌∷◌, ◌++◌, All, arith, if◌then◌else◌}
use zegel.Common.Text.{Text, codes, text_eq, to_lower_case}
use zegel.Common.Result.{ok}
use zegel.Gateway.Store.{memory_store, empty}
use zegel.Common.JsMap
use zegel.Gateway.Dns.{decode_dns_name, join}
use zegel.Gateway.Dns.Laws.{IsLabel, wire, bytes_of, texts_of, decode_dns_name_iff}
use zegel.Gateway.Query.{
  Abi, GatewayQuery, direct, resolve, decode_query, data_selector, resolve_selector,
}
use zegel.Gateway.Lookup.{LookupResult, LookupConfig, admit_query, answer, serve_lookup}
use zegel.Gateway.Lookup.Laws.{IsAnswered, serve_lookup-IsAnswered}
use zegel.Gateway.Lookup.Published.{serve_lookup-publish_envelope}
use zegel.Gateway.Store.{get}
use zegel.Gateway.Tests.{
  platform, config, request, node_text, published, after_publish, publish_envelope_ok,
}

-- The name "a.bc" in wire format.
abbrev some_labels : List (List ℕ × Text)
some_labels = (codes "a", codes "a") ∷ (codes "bc", codes "bc") ∷ []

abbrev some_wire : List ℕ
some_wire = 1 ∷ b'a' ∷ 2 ∷ b'b' ∷ b'c' ∷ 0 ∷ []

decode_dns_name_iff_example : (decode_dns_name (λ b. some b) some_wire ≡ ok (codes "a.bc")) ↔ (
    (ls : List (List ℕ × Text)) × All (IsLabel (λ b. some b)) ls
    × (some_wire ≡ wire (bytes_of ls))
    × (codes "a.bc" ≡ join (texts_of ls)))
decode_dns_name_iff_example = decode_dns_name_iff (λ b. some b) some_wire (codes "a.bc")

-- A coder for two calls: one that asks for the node directly, and one wrapped in `resolve`.
abbrev abi : Abi
abi = record {
  size = λ x. 36;
  slice_selector = λ x. if text_eq x (codes "wrapped") then resolve_selector else data_selector;
  slice_rest = λ x. x;
  decode_node_key = λ x. some (node_text, codes "zegel");
  decode_two_bytes = λ x. some (codes "name", codes "inner");
  encode_bytes = λ x. x;
  encode_signed = λ result expires signature. result ++ expires ∷ signature;
  hex_to_bytes = λ x. 4 ∷ (node_text ++ 0 ∷ []);
  utf8 = λ b. some b;
}

abbrev lookup_config : LookupConfig
lookup_config = record {
  resolvers = [];
  envelope_key = codes "zegel";
  signature_ttl_seconds = 300;
  cache_ttl_seconds = 30;
  sign_response = λ sender expires call_data result. sender;
}

abbrev query : GatewayQuery
query = direct node_text (codes "zegel")

abbrev sender : Text
sender = codes "0xcc"

admit_query_ok : admit_query platform abi lookup_config sender (codes "data") none ≡ ok query
unfolding admit_query zegel.Gateway.Lookup.check_sender zegel.Gateway.Lookup.check_resolver
    decode_query text_eq
admit_query_ok = refl

abbrev served : LookupResult
served = answer abi lookup_config 8900 sender (codes "data") query published

serve_lookup_ok :
    serve_lookup platform abi lookup_config memory_store 8900 sender
      (codes "data")
      none
      after_publish
    ≡ (ok served, after_publish)
unfolding serve_lookup zegel.Gateway.Lookup.respond_from admit_query
    zegel.Gateway.Lookup.check_sender zegel.Gateway.Lookup.check_resolver decode_query text_eq
    memory_store get JsMap.get to_lower_case
serve_lookup_ok = refl

serve_lookup-IsAnswered_example :
    IsAnswered platform abi lookup_config memory_store 8900 sender
      (codes "data")
      after_publish
      served
serve_lookup-IsAnswered_example =
    serve_lookup-IsAnswered platform abi lookup_config memory_store 8900 sender (codes "data") none
      after_publish served after_publish serve_lookup_ok

serve_lookup-publish_envelope_example :
    serve_lookup platform abi lookup_config memory_store 8900 sender
      (codes "data")
      none
      after_publish
    ≡ (ok served, after_publish)
serve_lookup-publish_envelope_example =
    serve_lookup-publish_envelope platform config 2000 2010 (request 5) empty after_publish
      published abi lookup_config 8900 sender (codes "data") none query publish_envelope_ok
      admit_query_ok refl (omega arith)

decode_query_wrapped :
    decode_query platform abi (codes "wrapped") ≡ ok (resolve node_text node_text (codes "zegel"))
unfolding decode_query zegel.Gateway.Query.decode_resolve decode_dns_name
    zegel.Gateway.Dns.labels_from text_eq to_lower_case
decode_query_wrapped = refl
