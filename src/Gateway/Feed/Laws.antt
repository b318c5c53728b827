-- ===== src/Gateway/Feed/Laws.antt =====
-- gateway/src/store/swarm-feed.ts: the store's answers from the feed and from its cache.
use zegel.Common.{
  ℕ, ◌-◌, ◌≡◌, refl, ◌⊎◌, inl, inr, ◌<◌, true, false, Option, none, some, max, leb, arith,
  Option-cases, Bool-cases,
}
use zegel.Common.Int.{pos, ◌<ℤ◌}
use zegel.Common.JsMap
use zegel.Common.Text.{Text, text_eq_refl, to_lower_case}
use zegel.Gateway.Platform.{Platform}
use zegel.Gateway.Store.{EnvelopeRecord}
use zegel.Gateway.Feed.{
  CacheEntry, FeedConfig, FeedStore, Network, Reading, failed, found, read_answer, is_fresh,
  fallback, after_read, get, outlives, recent_failure,
}

Reading-cases : (x : Reading) → (x ≡ failed) ⊎ ((q : Option EnvelopeRecord) × (x ≡ found q))
Reading-cases failed = inl refl
Reading-cases (found q) = inr (q, refl)

module _ (v : Platform) (net : Network) (config : FeedConfig) (begun ended : ℕ) (node : Text)
    (s : FeedStore) where
  -- What a read of the feed for this name comes to.
  abbrev pub reading : Reading
  reading = read_answer v net config ended (to_lower_case node) (net.feed (to_lower_case node))

  abbrev pub cached_entry : Option CacheEntry
  cached_entry = JsMap.get (to_lower_case node) s.cache

  -- A record that the feed store returns was read from the feed by this call, or is the cached
  -- one, not expired, and either younger than the cache's term or served while the feed cannot be
  -- read.
  get_serves_live :
      (r : EnvelopeRecord)
      → (get v net config begun ended node s).0 ≡ some r
      → (reading ≡ found (some r))
        ⊎ ((entry : CacheEntry) × (cached_entry ≡ some entry)
            × (entry.cached ≡ some r)
            × (((begun - entry.fetched_at < config.cache_ttl)
                  × (pos begun <ℤ r.envelope.expires_at_seconds))
                ⊎ ((reading ≡ failed) × (pos ended <ℤ r.envelope.expires_at_seconds))))
  unfolding get after_read fallback is_fresh
  get_serves_live r h = elim (Option-cases cached_entry) [
    | inl e ↦ elim (Reading-cases reading) [
      | inl f ↦ absurd (ground arith)
      | inr (q, f) ↦ inl (ground arith)
    ]
    | inr (entry, e) ↦ elim (Bool-cases (is_fresh config begun entry)) [
      | inl fresh ↦ inr (entry, e, ground arith, inl (ground arith, ground arith))
      | inr stale ↦ elim (Reading-cases reading) [
        | inl f ↦ inr (entry, e, ground arith, inr (f, ground arith))
        | inr (q, f) ↦ inl (ground arith)
      ]
    ]
  ]

  -- A fresh entry answers the call alone: the store stays as it is, and the network is not asked.
  fresh_entry_answers :
      (entry : CacheEntry)
      → cached_entry ≡ some entry
      → is_fresh config begun entry ≡ true
      → get v net config begun ended node s ≡ (entry.cached, s)
  unfolding get
  fresh_entry_answers entry e fresh = ground arith

  -- If no fresh entry is cached, a call whose read fails returns the fallback, keeps the cache
  -- and notes the failure, and a call whose read finds a record or its absence returns it, caches
  -- it and clears the failure.
  get_without_fresh_entry :
      ((entry : CacheEntry) → cached_entry ≡ some entry → is_fresh config begun entry ≡ false)
      → ((reading ≡ failed)
          × (get v net config begun ended node s
              ≡ (fallback ended cached_entry, record s { last_failure = some ended })))
        ⊎ ((q : Option EnvelopeRecord) × (reading ≡ found q)
            × (get v net config begun ended node s
                ≡ after_read ended (to_lower_case node) (found q) s))
  unfolding get after_read
  get_without_fresh_entry stale = elim (Option-cases cached_entry) [
    | inl e ↦ elim (Reading-cases reading) [
      | inl f ↦ inl (f, ground arith)
      | inr (q, f) ↦ inr (q, f, ground arith)
    ]
    | inr (entry, e) ↦ elim (Reading-cases reading) [
      | inl f ↦ inl (f, ground (arith, stale entry e))
      | inr (q, f) ↦ inr (q, f, ground (arith, stale entry e))
    ]
  ]

-- If nothing was cached and a read succeeded, a second call within the cache's term returns the
-- same without a change of the store, whatever the network would answer, unless the record has
-- expired by then.
get-get :
    (v : Platform) (net net' : Network) (config : FeedConfig) (begun ended begun' ended' : ℕ)
    (node : Text) (s : FeedStore) (q : Option EnvelopeRecord)
    → JsMap.get (to_lower_case node) s.cache ≡ none
    → reading v net config begun ended node s ≡ found q
    → begun' - ended < config.cache_ttl
    → outlives begun' q ≡ true
    → let s' = (get v net config begun ended node s).1 in
      get v net' config begun' ended' node s' ≡ (q, s')
unfolding get after_read is_fresh
get-get v net net' config begun ended begun' ended' node s q e f young live =
    let k = to_lower_case node in
    let entry : CacheEntry = record { cached = q; fetched_at = ended } in
    ground (arith, JsMap.get-set k k entry s.cache, text_eq_refl k)

-- If nothing was cached for the node, then after a call whose read failed a failure is recent for
-- the longer of the cache's term and 60 seconds, and after any other call no failure is.
recent_failure-get :
    (v : Platform) (net : Network) (config : FeedConfig) (begun ended t : ℕ) (node : Text)
    (s : FeedStore)
    → JsMap.get (to_lower_case node) s.cache ≡ none
    → ((reading v net config begun ended node s ≡ failed)
        × (recent_failure config t (get v net config begun ended node s).1
            ≡ leb (t - ended) (max config.cache_ttl 60)))
      ⊎ (recent_failure config t (get v net config begun ended node s).1 ≡ false)
unfolding get after_read recent_failure
recent_failure-get v net config begun ended t node s e =
    elim (Reading-cases (reading v net config begun ended node s)) [
      | inl f ↦ inl (f, ground arith)
      | inr (q, f) ↦ inr (ground arith)
    ]
