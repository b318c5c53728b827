-- ===== src/Gateway/Lookup/Published.antt =====
-- gateway/src/admin.ts and app.ts: a lookup after a publish.
use zegel.Common.{ℕ, ◌≡◌, Option, some, arith}
use zegel.Common.Int.{pos, ◌<ℤ◌}
use zegel.Common.Text.{Text, text_eq_iff, to_lower_case_idem}
use zegel.Common.Result.{ok}
use zegel.Gateway.Json.{Fields}
use zegel.Gateway.Platform.{Platform}
use zegel.Gateway.Store.{EnvelopeRecord, MemoryEnvelopeStore, key, get, write, memory_store}
use zegel.Gateway.Store.Laws.{get-write}
use zegel.Gateway.Publish.{PublishRequest, Config, publish_envelope}
use zegel.Gateway.Publish.Laws.{publish_envelope-IsAdmitted}
use zegel.Gateway.Query.{Abi, GatewayQuery, node_of}
use zegel.Gateway.Lookup.{LookupConfig, admit_query, respond_from, answer, serve_lookup}

get-publish_envelope :
    (v : Platform) (config : Config) (now later : ℕ) (req : PublishRequest)
    (s s' : MemoryEnvelopeStore) (r : EnvelopeRecord) (node : Text)
    → publish_envelope v config memory_store now later req s ≡ (ok r, s')
    → key node ≡ key req.node
    → get node s' ≡ some r
unfolding memory_store
get-publish_envelope v config now later req s s' r node h same =
    let c = publish_envelope-IsAdmitted v config memory_store now later req s r s' h in
    let recorded = c.recorded in
    let stored = c.stored in
    let e : s' ≡ write r s = cc in
    let lower : key r.node ≡ key node = cc (to_lower_case_idem req.node) in
    rw e (ground (arith, get-write r node s, text_eq_iff (key r.node) (key node)))

-- After an accepted publish into the memory store, an admitted lookup of a node with the same key
-- is answered from the published record, at any time before the envelope's expiry, and the store
-- stays as it is.
pub serve_lookup-publish_envelope :
    (v : Platform) (config : Config) (now later : ℕ) (req : PublishRequest)
    (s s' : MemoryEnvelopeStore) (r : EnvelopeRecord) (abi : Abi) (lookup : LookupConfig) (t : ℕ)
    (sender call_data : Text) (body : Option Fields) (q : GatewayQuery)
    → publish_envelope v config memory_store now later req s ≡ (ok r, s')
    → admit_query v abi lookup sender call_data body ≡ ok q
    → key (node_of q) ≡ key req.node
    → pos t <ℤ r.envelope.expires_at_seconds
    → serve_lookup v abi lookup memory_store t sender call_data body s'
      ≡ (ok (answer abi lookup t sender call_data q r), s')
unfolding serve_lookup respond_from memory_store
serve_lookup-publish_envelope v config now later req s s' r abi lookup t sender call_data body q h p
      same live =
    let held = get-publish_envelope v config now later req s s' r (node_of q) h same in ground arith
