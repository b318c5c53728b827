-- ===== src/Gateway/Feed.antt =====
-- gateway/src/store/swarm-feed.ts: the store that reads envelopes from a Swarm feed and keeps a short
-- cache. The answers of the network are arguments. A call reads the clock before the request and
-- again after it; between the readings after the answer the code waits for nothing, so they are one.
pub mod Laws
use zegel.Common.{
  ℕ, ◌+◌, ◌-◌, ◌*◌, Bool, true, false, not, ◌&&◌, ◌||◌, Option, none, some, List, [], ◌∷◌, ◌++◌,
  all, length, take, drop, ltb, leb, max, ◌==◌, if◌then◌else◌,
}
use zegel.Common.Int.{pos, leb_ℤ}
use zegel.Common.JsMap
use zegel.Common.Text.{Text, codes, text_eq, to_lower_case, is_hex_digit, trim}
use zegel.Common.Result.{Result, ok, err, ◌>>=◌, ◌>>◌, throw_if, or_throw}
use zegel.Gateway.Failure.{Failure, gateway, read_only_store}
use zegel.Gateway.Platform.{Platform}
use zegel.Gateway.Envelope.{StoredEnvelope, parse_envelope}
use zegel.Gateway.Store.{EnvelopeRecord}

pub record CacheEntry : Type 0 where
  pub cached : Option EnvelopeRecord
  pub fetched_at : ℕ

pub record FeedConfig : Type 0 where
  pub owner : Text
  pub cache_ttl : ℕ

-- `last_failure` is the instant of the last failure; its text is left out.
pub record FeedStore : Type 0 where
  pub cache : List (Text × CacheEntry)
  pub last_failure : Option ℕ

-- What `fetch` answers: nothing (it throws), or a status, a body and the `swarm-feed-index` header.
pub data FeedAnswer : Type 0 where
  no_answer : FeedAnswer
  answered : (status : ℕ) (body : List ℕ) (index : Option Text) → FeedAnswer

-- The network, and viem's `bytesToHex` and the platform's `TextDecoder`.
pub record Network : Type 0 where
  pub feed : Text → FeedAnswer
  pub content : Text → FeedAnswer
  pub bytes_to_hex : List ℕ → Text
  pub decode_utf8 : List ℕ → Text

-- `response.ok`
abbrev is_ok : ℕ → Bool
is_ok status = leb 200 status && ltb status 300

-- `/^(0x)?[0-9a-fA-F]{64}$/`, without its prefix
abbrev reference_text : Text → Option Text
reference_text s =
    if all is_hex_digit s && length s == 64
    then some s
    else if text_eq (take 2 s) (codes "0x") && all is_hex_digit (drop 2 s) && length s == 66
    then some (drop 2 s)
    else none

unfoldable pub as_reference : Network → List ℕ → Option Text
as_reference net body =
    if length body == 32
    then some (drop 2 (net.bytes_to_hex body))
    else if length body == 40
    then some (drop 2 (net.bytes_to_hex (drop 8 body)))
    else reference_text (trim (net.decode_utf8 body))

abbrev digit_value : ℕ → ℕ
digit_value c = if leb b'a' c then c - 87 else if leb b'A' c then c - 55 else c - 48

hex_value : ℕ → Text → ℕ
hex_value acc [] = acc
hex_value acc (c ∷ cs) = hex_value (acc * 16 + digit_value c) cs

abbrev with_0x : Text → Text
with_0x s = if text_eq (take 2 s) (codes "0x") then s else codes "0x" ++ s

unfoldable pub read_feed_index : Platform → Option Text → ℕ
unfolding hex_value
read_feed_index v none = 0
read_feed_index v (some header) =
    if v.is_hex (with_0x header) then hex_value 0 (drop 2 (with_0x header)) else 0

-- The content, if the body is a reference to it.
abbrev text_at : Network → FeedAnswer → Option Text
text_at net no_answer = none
text_at net (answered status body index) =
    if is_ok status then some (net.decode_utf8 body) else none

-- `#resolve`
unfoldable pub resolve : Network → List ℕ → Option Text
resolve net body = elim (as_reference net body) [
  | none ↦ some (net.decode_utf8 body)
  | some reference ↦ text_at net (net.content reference)
]

-- What a read comes to: it throws, or it finds a record or none.
pub data Reading : Type 0 where
  failed : Reading
  found : Option EnvelopeRecord → Reading

abbrev record_at : Text → FeedConfig → ℕ → ℕ → StoredEnvelope → EnvelopeRecord
record_at node config at index envelope = record {
  node = node;
  name = none;
  envelope = envelope;
  published_at = at;
  publisher = config.owner;
  nonce = index;
}

abbrev reading_of : Text → FeedConfig → ℕ → ℕ → Result Failure StoredEnvelope → Reading
reading_of node config at index (ok envelope) =
    found (some (record_at node config at index envelope))
reading_of node config at index (err e) = failed

abbrev read_body : Platform → Network → FeedConfig → ℕ → Text → Option Text → Option Text → Reading
read_body v net config at node index none = failed
read_body v net config at node index (some text) =
    reading_of node config at (read_feed_index v index) (parse_envelope v text)

-- `#read`
unfoldable pub read_answer : Platform → Network → FeedConfig → ℕ → Text → FeedAnswer → Reading
read_answer v net config at node no_answer = failed
read_answer v net config at node (answered status body index) =
    if status == 404
    then found none
    else if is_ok status
    then read_body v net config at node index (resolve net body)
    else failed

abbrev pub outlives : ℕ → Option EnvelopeRecord → Bool
outlives now none = true
outlives now (some r) = not (leb_ℤ r.envelope.expires_at_seconds (pos now))

-- `#isFresh`; `now - fetchedAt` is no negative number, since the clock does not run back.
unfoldable pub is_fresh : FeedConfig → ℕ → CacheEntry → Bool
is_fresh config now entry =
    if leb config.cache_ttl (now - entry.fetched_at) then false else outlives now entry.cached

-- The cached record that serves while the feed is unreachable.
unfoldable pub fallback : ℕ → Option CacheEntry → Option EnvelopeRecord
fallback now none = none
fallback now (some entry) = elim entry.cached [
  | none ↦ none
  | some r ↦ if leb_ℤ r.envelope.expires_at_seconds (pos now) then none else some r
]

abbrev fresh_entry : FeedConfig → ℕ → Option CacheEntry → Option CacheEntry
fresh_entry config now none = none
fresh_entry config now (some entry) = if is_fresh config now entry then some entry else none

-- `get`, behind the test of the cache
unfoldable pub after_read : ℕ → Text → Reading → FeedStore → Option EnvelopeRecord × FeedStore
after_read ended k failed s =
    (fallback ended (JsMap.get k s.cache), record s { last_failure = some ended })
after_read ended k (found r) s = (
  r,
  record {
    cache = JsMap.set k (record { cached = r; fetched_at = ended }) s.cache;
    last_failure = none;
  },
)

unfoldable pub get :
    Platform → Network → FeedConfig → ℕ → ℕ → Text → FeedStore → Option EnvelopeRecord × FeedStore
get v net config begun ended node s =
    let k = to_lower_case node in
    let reading = read_answer v net config ended k (net.feed k) in
    elim (fresh_entry config begun (JsMap.get k s.cache)) [
      | some entry ↦ (entry.cached, s)
      | none ↦ after_read ended k reading s
    ]

unfoldable pub put : EnvelopeRecord → FeedStore → Result Failure (Unit {0}) × FeedStore
put r s = (err (gateway 501 read_only_store), s)

abbrev some_records : List CacheEntry → List EnvelopeRecord
some_records [] = []
some_records (e ∷ es) = elim e.cached [ none ↦ some_records es | some r ↦ r ∷ some_records es ]

unfoldable pub list : FeedStore → List EnvelopeRecord
list s = some_records (JsMap.values s.cache)

abbrev nonce_or_zero : Option EnvelopeRecord → ℕ
nonce_or_zero none = 0
nonce_or_zero (some r) = r.nonce

unfoldable pub last_nonce :
    Platform → Network → FeedConfig → ℕ → ℕ → Text → FeedStore → ℕ × FeedStore
last_nonce v net config begun ended node s =
    let (r, s') = get v net config begun ended node s in (nonce_or_zero r, s')

-- `#recentFailure`
unfoldable pub recent_failure : FeedConfig → ℕ → FeedStore → Bool
recent_failure config now s = elim s.last_failure [
  | none ↦ false
  | some at ↦ leb (now - at) (max config.cache_ttl 60)
]
