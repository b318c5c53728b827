-- ===== src/Gateway/Lookup/Laws.antt =====
-- gateway/src/app.ts and ccip.ts: the outcomes of a lookup.
use zegel.Common.{
  ℕ, ◌+◌, ◌≡◌, refl, ◌⊎◌, inl, inr, ◌≤◌, Option, none, some, arith, Option-cases, if◌then◌else◌,
  ◌==◌,
}
use zegel.Common.Int.{ℤ, pos, ◌<ℤ◌, ◌≤ℤ◌}
use zegel.Common.Text.{Text, codes, text_eq_iff, to_lower_case}
use zegel.Common.Result.{ok, err, Result-cases}
use zegel.Gateway.Failure.{not_found, gone, not_published, expired_on_lookup}
use zegel.Gateway.Dns.{decode_dns_name}
use zegel.Gateway.Json.{Fields}
use zegel.Gateway.Platform.{Platform}
use zegel.Gateway.Store.{EnvelopeRecord, EnvelopeStore}
use zegel.Gateway.Query.{
  Abi, GatewayQuery, resolve, node_of, key_of, decode_query, decode_resolve, encode_result,
}
use zegel.Gateway.Lookup.{
  LookupResult, LookupConfig, admit_query, check_sender, check_resolver, expires_of, answer,
  respond_from, serve_lookup,
}

-- A query that is admitted asks for the configured key.
key_of-admit_query :
    (v : Platform) (abi : Abi) (config : LookupConfig) (sender call_data : Text)
    (body : Option Fields) (q : GatewayQuery)
    → admit_query v abi config sender call_data body ≡ ok q
    → (key_of q ≡ config.envelope_key)
      × (decode_query v abi call_data ≡ ok q)
      × (check_resolver config.resolvers sender ≡ ok tt)
unfolding admit_query
key_of-admit_query v abi config sender call_data body q h =
    elim (Result-cases (check_sender v body sender)) [
      | inr (e, p) ↦ absurd (ground arith)
      | inl (u, p) ↦ elim (Result-cases (decode_query v abi call_data)) [
        | inr (e, p) ↦ absurd (ground arith)
        | inl (q', p) ↦ (
          ground (arith, text_eq_iff (key_of q') config.envelope_key),
          ground arith,
          ground arith,
        )
      ]
    ]

-- A response says when it ends: not after the envelope, not after the term of the signature, and
-- not in the past; and a cache may not keep it longer.
respond_from-eq-ok :
    (abi : Abi) (config : LookupConfig) (now : ℕ) (sender call_data : Text) (q : GatewayQuery)
    (found : Option EnvelopeRecord) (a : LookupResult)
    → respond_from abi config now sender call_data q found ≡ ok a
    → (r : EnvelopeRecord) × (found ≡ some r)
      × (pos now <ℤ r.envelope.expires_at_seconds)
      × (a ≡ answer abi config now sender call_data q r)
unfolding respond_from
respond_from-eq-ok abi config now sender call_data q none a h = absurd (cc)
respond_from-eq-ok abi config now sender call_data q (some r) a h =
    (r, refl, ground arith, ground arith)

expires_bounds :
    (config : LookupConfig) (now : ℕ) (at : ℤ)
    → pos now <ℤ at
    → (pos (expires_of config now at) ≤ℤ at)
      × (expires_of config now at ≤ now + config.signature_ttl_seconds)
      × (now ≤ expires_of config now at)
expires_bounds config now at h = ground arith

-- A signed answer to a lookup: it is about a record that the store holds and that has not expired,
-- it ends neither after the envelope nor after the term of a signature, no cache keeps it longer,
-- and what is signed is the answer itself with the resolver, the end and the query's calldata.
pub record IsAnswered {S : Type 0} (v : Platform) (abi : Abi) (config : LookupConfig)
    (store : EnvelopeStore S) (now : ℕ) (sender call_data : Text) (s : S) (a : LookupResult)
    : Type 0 where
  pub query : GatewayQuery
  pub decoded : decode_query v abi call_data ≡ ok query
  pub served_key : key_of query ≡ config.envelope_key
  pub served_resolver : check_resolver config.resolvers sender ≡ ok tt
  pub found : EnvelopeRecord
  pub held : (store.get (node_of query) s).0 ≡ some found
  pub live : pos now <ℤ found.envelope.expires_at_seconds
  pub ends_with_envelope : pos a.expires ≤ℤ found.envelope.expires_at_seconds
  pub ends_with_term : a.expires ≤ now + config.signature_ttl_seconds
  pub begun : now ≤ a.expires
  pub cached_briefly : a.max_age ≤ config.cache_ttl_seconds
  pub cached_within : now + a.max_age ≤ a.expires
  pub signed : a.response ≡ (
      let result = encode_result abi query found.envelope.bytes in
      abi.encode_signed result a.expires (config.sign_response sender a.expires call_data result))

module _ {S : Type 0} (v : Platform) (abi : Abi) (config : LookupConfig) (store : EnvelopeStore S)
    (now : ℕ) (sender call_data : Text) (body : Option Fields) (s : S) where
  -- A lookup that succeeds is answered from the record the store holds for the node asked about,
  -- which has not expired, for the served key and resolver; the answer ends neither after the
  -- envelope nor after the signature's term nor before now, no cache keeps it longer, and what is
  -- signed is that result with the resolver, the end and the calldata.
  pub serve_lookup-IsAnswered :
      (a : LookupResult) (s' : S)
      → serve_lookup v abi config store now sender call_data body s ≡ (ok a, s')
      → IsAnswered v abi config store now sender call_data s a
  unfolding serve_lookup
  serve_lookup-IsAnswered a s' h =
      elim (Result-cases (admit_query v abi config sender call_data body)) [
        | inr (e, p) ↦ absurd (ground arith)
        | inl (q, p) ↦ from q p (key_of-admit_query v abi config sender call_data body q p)
      ]
    where
      from :
          (q : GatewayQuery)
          → admit_query v abi config sender call_data body ≡ ok q
          → (key_of q ≡ config.envelope_key)
            × (decode_query v abi call_data ≡ ok q)
            × (check_resolver config.resolvers sender ≡ ok tt)
          → IsAnswered v abi config store now sender call_data s a
      from q p (same_key, decoded, resolver) =
          let (r, held, live, e) =
            respond_from-eq-ok abi config now sender call_data q (store.get (node_of q) s).0 a
              (ground arith) in
          let (b0, b1, b2) = expires_bounds config now r.envelope.expires_at_seconds live in
          record {
            query = q;
            decoded = decoded;
            served_key = same_key;
            served_resolver = resolver;
            found = r;
            held = held;
            live = live;
            ends_with_envelope = rw e b0;
            ends_with_term = rw e b1;
            begun = rw e b2;
            cached_briefly = rw e (omega arith);
            cached_within = rw e (omega (arith, b2));
            signed = rw e;
          }

  -- An admitted query is refused as not published if no record is held, refused as gone if the
  -- record has expired, and answered from the record otherwise.
  pub serve_lookup_outcomes :
      (q : GatewayQuery)
      → admit_query v abi config sender call_data body ≡ ok q
      → let found = (store.get (node_of q) s).0 in
        let result = (serve_lookup v abi config store now sender call_data body s).0 in
        ((found ≡ none) × (result ≡ err (not_found not_published)))
        ⊎ ((r : EnvelopeRecord) × (found ≡ some r)
            × (((r.envelope.expires_at_seconds ≤ℤ pos now)
                  × (result ≡ err (gone expired_on_lookup)))
                ⊎ ((pos now <ℤ r.envelope.expires_at_seconds)
                    × (result ≡ ok (answer abi config now sender call_data q r)))))
  unfolding serve_lookup respond_from
  serve_lookup_outcomes q p = elim (Option-cases (store.get (node_of q) s).0) [
    | inl e ↦ inl (e, ground arith)
    | inr (r, e) ↦ inr (r, e, ground arith)
  ]

module _ (v : Platform) (abi : Abi) where
  tail_of : Text → Text
  tail_of x = if abi.size x == 4 then codes "0x" else abi.slice_rest x

  decode_resolve-binds :
      (args name node k : Text)
      → decode_resolve v abi args ≡ ok (resolve name node k)
      → to_lower_case (v.namehash name) ≡ to_lower_case node
  unfolding decode_resolve tail_of
  decode_resolve-binds args name node k h = elim (Option-cases (abi.decode_two_bytes args)) [
    | inl e ↦ absurd (ground arith)
    | inr ((wire, request), e) ↦ elim (Option-cases (abi.decode_node_key (tail_of request))) [
      | inl f ↦ absurd (ground arith)
      | inr ((nd, ky), f) ↦ elim (Result-cases (decode_dns_name abi.utf8 (abi.hex_to_bytes wire))) [
        | inr (x, g) ↦ absurd (ground arith)
        | inl (dn, g) ↦
            ground (arith, text_eq_iff (to_lower_case (v.namehash dn)) (to_lower_case nd))
      ]
    ]
  ]

  -- A call wrapped in resolve is decoded only if the node it asks about is the namehash of the
  -- name it carries, up to case.
  pub decode_query-resolve :
      (call_data name node k : Text)
      → decode_query v abi call_data ≡ ok (resolve name node k)
      → to_lower_case (v.namehash name) ≡ to_lower_case node
  unfolding decode_query tail_of
  decode_query-resolve call_data name node k h =
      ground (arith, decode_resolve-binds (tail_of call_data) name node k)
