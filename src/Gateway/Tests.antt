-- ===== src/Gateway/Tests.antt =====
-- Concrete runs of the gateway: a publish and a lookup in a small world.
mod Codec
mod FileStore
mod Owner
mod Resolve
mod Feed
mod Lookup
use zegel.Common.{
  ℕ, ◌+◌, ◌-◌, ◌≡◌, refl, sym, ◌≢◌, ◌↔◌, ◌⊎◌, inl, inr, ◌≤◌, ◌<◌, Bool, true, false, Option, none,
  some, List, [], ◌∷◌, ◌++◌, All, length, take, arith, if◌then◌else◌,
}
use zegel.Common.Int.{ℤ, pos, ◌<ℤ◌, ◌≤ℤ◌}
use zegel.Common.Text.{Text, codes, text_eq, to_lower_case}
use zegel.Common.Result.{Result, ok, err}
use zegel.Gateway.Platform.{Platform}
use zegel.Gateway.Json.{Json, Items, Fields, string, integer, array, object, end, field}
use zegel.Gateway.Envelope.{StoredEnvelope, parse_envelope}
use zegel.Gateway.Store.{EnvelopeRecord, MemoryEnvelopeStore, memory_store, empty}
use zegel.Common.JsMap
use zegel.Gateway.Store.Laws.{memory_store-IsNonceSafe}
use zegel.Gateway.Dns.{decode_dns_name, join}
use zegel.Gateway.Dns.Laws.{IsLabel, wire, bytes_of, texts_of, decode_dns_name_iff}
use zegel.Gateway.Query.{
  Abi, GatewayQuery, direct, resolve, decode_query, data_selector, resolve_selector,
}
use zegel.Gateway.Lookup.{LookupResult, LookupConfig, admit_query, answer, serve_lookup}
use zegel.Gateway.Lookup.Laws.{
  IsAnswered, serve_lookup-IsAnswered, serve_lookup_outcomes, decode_query-resolve,
}
use zegel.Gateway.Lookup.Published.{serve_lookup-publish_envelope}
use zegel.Gateway.Failure.{
  Failure, not_found, gone, not_published, expired_on_lookup, conflict, stale_nonce,
}
use zegel.Gateway.Store.{key, get, last_nonce}
use zegel.Gateway.Publish.History.{
  Attempt, attempt, run, Increasing, run-Increasing, failed_attempt_keeps, run_serves_highest,
}
use zegel.Gateway.Publish.{and_then, PublishRequest, Config, publish_envelope, record_of}
use zegel.Gateway.Publish.Interleaved.{
  admit_publish, store_publish, publish_envelope-store_publish, interleaved_rollback,
}
use zegel.Gateway.Publish.Laws.{IsAdmitted, publish_envelope-IsAdmitted}

abbrev node_text : Text
node_text = codes "0xAB"

abbrev hex64 : Text
hex64 = codes "0x0123456789abcdef0123456789abcdef0123456789abcdef0123456789ABCDEF"

abbrev tier_fields : Fields
tier_fields = field (codes "tier") (integer (pos 1)) (
    field (codes "swarmRef") (string (codes "ab")) (
      field (codes "actHistoryAddress") (string (codes "cd")) (
        field (codes "actPublisher")
          (string (codes "020123456789abcdef0123456789abcdef0123456789abcdef0123456789abcdef"))
          end)))

abbrev hint_fields : Fields
hint_fields =
    field (codes "contract") (string (codes "0x0123456789abcdef0123456789abcdef01234567"))
      (field (codes "chainId") (integer (pos 1)) end)

abbrev envelope_fields : Fields
envelope_fields = field (codes "schema") (string (codes "zegel.envelope.v1")) (
    field (codes "referenceId") (string hex64) (
      field (codes "commitment") (string hex64) (
        field (codes "issuedAt") (string (codes "issued")) (
          field (codes "expiresAt") (string (codes "expires")) (
            field (codes "tiers") (array (Items.cons (object tier_fields) Items.nil)) (
              field (codes "anchors") (object end)
                (field (codes "revocationHint") (object hint_fields) end)))))))

-- A platform on which every text is the JSON of that envelope, issued at 1000 s and running out at
-- 9000.5 s.
abbrev platform : Platform
platform = record {
  json_parse = λ text. some (object envelope_fields);
  date_parse =
      λ text. if text_eq text (codes "issued") then some (pos 1000000) else some (pos 9000500);
  string_to_hex = λ text. text;
  sha256 = λ text. take 1 text;
  is_address = λ text. true;
  get_address = λ text. some (to_lower_case text);
  is_hex = λ text. true;
  namehash = λ text. text;
}

abbrev config : Config
config = record {
  signer_address = codes "0xEE";
  chain_id = 1;
  owner_of = λ node. some (some (codes "0xAA"));
  recover = λ message signature. some (codes "0xaa");
  verify_typed_data = none;
}

abbrev request : ℕ → PublishRequest
request nonce = record {
  node = node_text;
  name = none;
  envelope = codes "{}";
  nonce = nonce;
  valid_until = 3000;
  signature = [];
}

abbrev stored : StoredEnvelope
stored = record {
  text = codes "{}";
  bytes = codes "{}";
  digest = codes "{";
  envelope = envelope_fields;
  expires_at_seconds = pos 9000;
}

abbrev pub published : EnvelopeRecord
published = record_of (request 5) stored (codes "0xAA") 2010

abbrev after_publish : MemoryEnvelopeStore
after_publish = record { records = (codes "0xab", published) ∷ []; nonces = (codes "0xab", 5) ∷ [] }

pub parse_envelope_ok : parse_envelope platform (codes "{}") ≡ ok stored
unfolding parse_envelope zegel.Gateway.Json.member text_eq zegel.Gateway.Envelope.require_hex32
    zegel.Gateway.Envelope.require_timestamp zegel.Gateway.Envelope.require_links
    zegel.Gateway.Envelope.require_tiers zegel.Gateway.Envelope.require_tier
    zegel.Gateway.Json.items
parse_envelope_ok = refl

publish_envelope_ok :
    publish_envelope platform config memory_store 2000 2010 (request 5) empty
    ≡ (ok published, after_publish)
unfolding publish_envelope parse_envelope zegel.Gateway.Json.member text_eq
    zegel.Gateway.Envelope.require_hex32 zegel.Gateway.Envelope.require_timestamp
    zegel.Gateway.Envelope.require_links zegel.Gateway.Envelope.require_tiers
    zegel.Gateway.Envelope.require_tier zegel.Gateway.Json.items zegel.Gateway.Publish.check_times
    zegel.Gateway.Publish.check_owner zegel.Gateway.Publish.verify_publish_signature memory_store
    last_nonce get zegel.Gateway.Store.write JsMap.get JsMap.set to_lower_case
publish_envelope_ok = refl

-- A replay is refused.
publish_envelope_replay :
    publish_envelope platform config memory_store 2000 2010 (request 5) after_publish
    ≡ (err (conflict stale_nonce), after_publish)
unfolding publish_envelope parse_envelope zegel.Gateway.Json.member text_eq
    zegel.Gateway.Envelope.require_hex32 zegel.Gateway.Envelope.require_timestamp
    zegel.Gateway.Envelope.require_links zegel.Gateway.Envelope.require_tiers
    zegel.Gateway.Envelope.require_tier zegel.Gateway.Json.items zegel.Gateway.Publish.check_times
    zegel.Gateway.Publish.check_owner zegel.Gateway.Publish.verify_publish_signature memory_store
    last_nonce get zegel.Gateway.Store.write JsMap.get JsMap.set to_lower_case
publish_envelope_replay = refl

publish_envelope-IsAdmitted_example :
    IsAdmitted platform config memory_store 2000 2010 (request 5) empty published after_publish
publish_envelope-IsAdmitted_example =
    publish_envelope-IsAdmitted platform config memory_store 2000 2010 (request 5) empty published
      after_publish publish_envelope_ok

abbrev call : ℕ → Attempt
call nonce = record { config = config; now = 2000; later = 2010; req = request nonce }

abbrev calls : List Attempt
calls = call 5 ∷ call 5 ∷ call 7 ∷ []

run-Increasing_example :
    Increasing (run platform memory_store calls empty).0
    × All
        (λ r. (memory_store.last_nonce r.node empty).0 < r.nonce)
        (run platform memory_store calls empty).0
run-Increasing_example = run-Increasing platform memory_store memory_store-IsNonceSafe calls empty

abbrev republished : EnvelopeRecord
republished = record_of (request 7) stored (codes "0xAA") 2010

get_run : get node_text (run platform memory_store calls empty).1 ≡ some republished
unfolding run publish_envelope parse_envelope zegel.Gateway.Json.member text_eq
    zegel.Gateway.Envelope.require_hex32 zegel.Gateway.Envelope.require_timestamp
    zegel.Gateway.Envelope.require_links zegel.Gateway.Envelope.require_tiers
    zegel.Gateway.Envelope.require_tier zegel.Gateway.Json.items zegel.Gateway.Publish.check_times
    zegel.Gateway.Publish.check_owner zegel.Gateway.Publish.verify_publish_signature memory_store
    last_nonce get zegel.Gateway.Store.write JsMap.get JsMap.set to_lower_case
get_run = refl

run_serves_highest_example :
    (7 ≡ last_nonce node_text (run platform memory_store calls empty).1)
    × All
        (λ r. (key r.node ≢ key node_text) ⊎ (r.nonce ≤ 7))
        (run platform memory_store calls empty).0
run_serves_highest_example = run_serves_highest platform calls node_text republished get_run

admit_publish-5 :
    admit_publish platform config memory_store 2000 (request 5) empty
    ≡ (ok (stored, codes "0xAA"), empty)
unfolding admit_publish parse_envelope zegel.Gateway.Json.member text_eq
    zegel.Gateway.Envelope.require_hex32 zegel.Gateway.Envelope.require_timestamp
    zegel.Gateway.Envelope.require_links zegel.Gateway.Envelope.require_tiers
    zegel.Gateway.Envelope.require_tier zegel.Gateway.Json.items zegel.Gateway.Publish.check_times
    zegel.Gateway.Publish.check_owner zegel.Gateway.Publish.verify_publish_signature memory_store
    last_nonce get zegel.Gateway.Store.write JsMap.get JsMap.set to_lower_case
admit_publish-5 = refl

admit_publish-7 :
    admit_publish platform config memory_store 2000 (request 7) empty
    ≡ (ok (stored, codes "0xAA"), empty)
unfolding admit_publish parse_envelope zegel.Gateway.Json.member text_eq
    zegel.Gateway.Envelope.require_hex32 zegel.Gateway.Envelope.require_timestamp
    zegel.Gateway.Envelope.require_links zegel.Gateway.Envelope.require_tiers
    zegel.Gateway.Envelope.require_tier zegel.Gateway.Json.items zegel.Gateway.Publish.check_times
    zegel.Gateway.Publish.check_owner zegel.Gateway.Publish.verify_publish_signature memory_store
    last_nonce get zegel.Gateway.Store.write JsMap.get JsMap.set to_lower_case
admit_publish-7 = refl

interleaved_rollback_example :
    let s1 =
      (store_publish platform config memory_store 2010
        (request 7)
        (stored, codes "0xAA")
        empty).1 in
    let s2 =
      (store_publish platform config memory_store 2020 (request 5) (stored, codes "0xAA") s1).1 in
    (get node_text s2 ≡ some (record_of (request 5) stored (codes "0xAA") 2020))
    × (last_nonce node_text s2 ≡ 7)
interleaved_rollback_example =
    interleaved_rollback platform config 2000 2010 2020 (request 5) (request 7) empty
      (stored, codes "0xAA") (stored, codes "0xAA") refl (omega arith) admit_publish-5
      admit_publish-7
