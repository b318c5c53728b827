-- ===== src/Gateway/Tests/Feed.antt =====
-- Concrete runs of the feed store.
use zegel.Common.{
  ℕ, ◌+◌, ◌-◌, ◌≡◌, refl, sym, ◌≢◌, ◌⊎◌, inl, inr, ◌≤◌, ◌<◌, Bool, true, false, max, leb, Option,
  none, some, List, [], ◌∷◌, ◌++◌, arith, if◌then◌else◌,
}
use zegel.Common.JsMap
use zegel.Common.Text.{Text, codes, text_eq, to_lower_case}
use zegel.Gateway.Envelope.{parse_envelope}
use zegel.Gateway.Store.{EnvelopeRecord}
use zegel.Gateway.Feed.{
  CacheEntry, FeedConfig, FeedStore, Network, FeedAnswer, no_answer, answered, failed, found,
  fallback, after_read, get, recent_failure, read_answer,
}
use zegel.Gateway.Feed.Laws.{reading, cached_entry}
use zegel.Gateway.Tests.{platform, stored, node_text}

abbrev config : FeedConfig
config = record { owner = codes "0xAA"; cache_ttl = 30 }

-- A feed at index 0x1F that holds the envelope itself, and one that cannot be reached.
abbrev up : Network
up = record {
  feed = λ node. answered 200 (codes "{}") (some (codes "1f"));
  content = λ reference. no_answer;
  bytes_to_hex = λ bytes. bytes;
  decode_utf8 = λ bytes. bytes;
}

abbrev down : Network
down = record {
  feed = λ node. no_answer;
  content = λ reference. no_answer;
  bytes_to_hex = λ bytes. bytes;
  decode_utf8 = λ bytes. bytes;
}

abbrev cold : FeedStore
cold = record { cache = []; last_failure = none }

abbrev read_record : EnvelopeRecord
read_record = record {
  node = codes "0xab";
  name = none;
  envelope = stored;
  published_at = 2001;
  publisher = codes "0xAA";
  nonce = 31;
}

feed_reads : reading platform up config 2000 2001 node_text cold ≡ found (some read_record)
unfolding read_answer zegel.Gateway.Feed.resolve zegel.Gateway.Feed.as_reference
    zegel.Gateway.Feed.read_feed_index zegel.Common.Text.trim parse_envelope
    zegel.Gateway.Json.member text_eq zegel.Gateway.Envelope.require_hex32
    zegel.Gateway.Envelope.require_timestamp zegel.Gateway.Envelope.require_links
    zegel.Gateway.Envelope.require_tiers zegel.Gateway.Envelope.require_tier
    zegel.Gateway.Json.items to_lower_case
feed_reads = refl

feed_gets : (get platform up config 2000 2001 node_text cold).0 ≡ some read_record
unfolding get after_read JsMap.get JsMap.set read_answer zegel.Gateway.Feed.resolve
    zegel.Gateway.Feed.as_reference zegel.Gateway.Feed.read_feed_index zegel.Common.Text.trim
    parse_envelope zegel.Gateway.Json.member text_eq zegel.Gateway.Envelope.require_hex32
    zegel.Gateway.Envelope.require_timestamp zegel.Gateway.Envelope.require_links
    zegel.Gateway.Envelope.require_tiers zegel.Gateway.Envelope.require_tier
    zegel.Gateway.Json.items to_lower_case
feed_gets = refl

nothing_cached : JsMap.get (to_lower_case node_text) cold.cache ≡ none
unfolding JsMap.get
nothing_cached = refl

no_entry :
    (entry : CacheEntry)
    → cached_entry platform up config 2000 2001 node_text cold ≡ some entry
    → zegel.Gateway.Feed.is_fresh config 2000 entry ≡ false
no_entry entry e = absurd (cc nothing_cached)
