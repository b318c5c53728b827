-- ===== src/Gateway/Tests/Owner.antt =====
-- Concrete runs of the owner lookups.
use zegel.Common.{◌≡◌, refl, ◌↔◌, none, some, List, [], ◌∷◌, if◌then◌else◌}
use zegel.Common.Text.{Text, codes, text_eq, to_lower_case}
use zegel.Common.Result.{ok}
use zegel.Gateway.Envelope.{parse_envelope}
use zegel.Gateway.Store.{EnvelopeRecord, MemoryEnvelopeStore, memory_store, empty}
use zegel.Gateway.Publish.{Config, publish_envelope}
use zegel.Gateway.Owner.{ChainOptions, add_owners, behind_wrapper, chain_owner_of}
use zegel.Gateway.Tests.{platform, config, request, published, node_text}

-- The registry names the wrapper for every node, and the wrapper names 0xAA.
abbrev options : ChainOptions
options = record {
  name_wrapper = some (codes "0xD4");
  registry_owner = λ node. some (codes "0xd4");
  wrapped_owner = λ node. some (codes "0xAA");
}

wrapped_owner_found : chain_owner_of platform options node_text ≡ some (some (codes "0xaa"))
unfolding chain_owner_of behind_wrapper text_eq to_lower_case
wrapped_owner_found = refl

abbrev entries : List (Text × Text)
entries = (codes "0xAB", codes "0x01") ∷ (codes "0xab", codes "0xAA") ∷ []

entries_added : add_owners platform entries [] ≡ some ((codes "0xab", codes "0xaa") ∷ [])
unfolding add_owners zegel.Common.JsMap.set text_eq to_lower_case
entries_added = refl

abbrev chain_config : Config
chain_config = record config { owner_of = chain_owner_of platform options }

abbrev owned_record : EnvelopeRecord
owned_record = record published { publisher = codes "0xaa" }

abbrev after_owned : MemoryEnvelopeStore
after_owned = record {
  records = (codes "0xab", owned_record) ∷ [];
  nonces = (codes "0xab", 5) ∷ [];
}

owned_publish_ok :
    publish_envelope platform chain_config memory_store 2000 2010 (request 5) empty
    ≡ (ok owned_record, after_owned)
unfolding publish_envelope parse_envelope zegel.Gateway.Json.member text_eq
    zegel.Gateway.Envelope.require_hex32 zegel.Gateway.Envelope.require_timestamp
    zegel.Gateway.Envelope.require_links zegel.Gateway.Envelope.require_tiers
    zegel.Gateway.Envelope.require_tier zegel.Gateway.Json.items zegel.Gateway.Publish.check_times
    zegel.Gateway.Publish.check_owner zegel.Gateway.Publish.verify_publish_signature memory_store
    zegel.Gateway.Store.last_nonce zegel.Gateway.Store.get zegel.Gateway.Store.write
    zegel.Common.JsMap.get zegel.Common.JsMap.set to_lower_case chain_owner_of behind_wrapper
owned_publish_ok = refl
