-- ===== src/Gateway/Publish/Interleaved.antt =====
-- gateway/src/admin.ts: `publishEnvelope` waits between its reading of the last nonce and its write,
-- so another call can run in between. The handler in two parts, around that gap.
use zegel.Common.{ℕ, ◌≡◌, ◌<◌, some, leb, arith, inl, inr}
use zegel.Common.Text.{Text, text_eq_iff, to_lower_case_idem}
use zegel.Common.Result.{ok, throw_if, Result-cases}
use zegel.Gateway.Failure.{conflict, stale_nonce}
use zegel.Gateway.Platform.{Platform}
use zegel.Gateway.Envelope.{StoredEnvelope, parse_envelope}
use zegel.Gateway.Store.{
  EnvelopeRecord, EnvelopeStore, MemoryEnvelopeStore, key, get, last_nonce, write, memory_store,
}
use zegel.Gateway.Store.Laws.{get-write, last_nonce-write}
use zegel.Gateway.Publish.{
  PublishRequest, Config, M, ◌>>=◌, ◌>>◌, lift, read_nonce, check_times, check_owner, record_of,
  publish_envelope,
}

module _ {S : Type 0} (v : Platform) (config : Config) (store : EnvelopeStore S) where
  -- Up to the check of the signature: the envelope, and the owner who signed.
  unfoldable pub admit_publish : ℕ → PublishRequest → M S (StoredEnvelope × Text)
  admit_publish now req = do
    envelope ← lift (parse_envelope v req.envelope)
    lift (check_times now req envelope)
    last ← read_nonce v config store req.node
    lift (throw_if (leb req.nonce last) (conflict stale_nonce))
    owner ← lift (check_owner v config req envelope)
    lift (ok (envelope, owner))

  -- The write.
  unfoldable pub store_publish : ℕ → PublishRequest → StoredEnvelope × Text → M S EnvelopeRecord
  store_publish later req (envelope, owner) = do
    store.put (record_of req envelope owner later)
    lift (ok (record_of req envelope owner later))

  -- The publish handler is its two parts, the checks and the write, one directly after the other.
  pub publish_envelope-store_publish :
      (now later : ℕ) (req : PublishRequest) (s : S)
      → publish_envelope v config store now later req s
        ≡ (admit_publish now req >>= store_publish later req) s
  unfolding publish_envelope admit_publish store_publish
  publish_envelope-store_publish now later req s =
      elim (Result-cases (parse_envelope v req.envelope)) [
        | inr (e, p) ↦ ground arith
        | inl (e, p) ↦ elim (Result-cases (check_owner v config req e)) [
          | inr (f, q) ↦ ground arith
          | inl (owner, q) ↦ ground arith
        ]
      ]

admit_publish-lt :
    (v : Platform) (config : Config) (now : ℕ) (req : PublishRequest) (s s' : MemoryEnvelopeStore)
    (a : StoredEnvelope × Text)
    → admit_publish v config memory_store now req s ≡ (ok a, s')
    → last_nonce req.node s < req.nonce
unfolding admit_publish memory_store
admit_publish-lt v config now req s s' a h = elim (Result-cases (parse_envelope v req.envelope)) [
  | inr (e, p) ↦ absurd (ground arith)
  | inl (e, p) ↦ ground arith
]

-- If two publishes of one node are both admitted before either writes, and the one with the
-- higher nonce writes first, the memory store ends up serving the record with the lower nonce,
-- while the nonce it holds is the higher one.
pub interleaved_rollback :
    (v : Platform) (config : Config) (now later later' : ℕ) (old new : PublishRequest)
    (s : MemoryEnvelopeStore) (a b : StoredEnvelope × Text)
    → key old.node ≡ key new.node
    → old.nonce < new.nonce
    → admit_publish v config memory_store now old s ≡ (ok a, s)
    → admit_publish v config memory_store now new s ≡ (ok b, s)
    → let s1 = (store_publish v config memory_store later new b s).1 in
      let s2 = (store_publish v config memory_store later' old a s1).1 in
      (get new.node s2 ≡ some (record_of old a.0 a.1 later')) × (last_nonce new.node s2 ≡ new.nonce)
unfolding store_publish memory_store
interleaved_rollback v config now later later' old new s a b same lt p q =
    let r1 = record_of new b.0 b.1 later in
    let r2 = record_of old a.0 a.1 later' in
    let lower1 : key r1.node ≡ key new.node = to_lower_case_idem new.node in
    let lower2 : key r2.node ≡ key new.node = cc (to_lower_case_idem old.node) in
    let fresh = admit_publish-lt v config now new s s b q in
    (
      ground (arith, get-write r2 new.node (write r1 s), text_eq_iff (key r2.node) (key new.node)),
      ground (
        arith,
        last_nonce-write r2 new.node (write r1 s),
        last_nonce-write r1 new.node s,
        text_eq_iff (key r2.node) (key new.node),
        text_eq_iff (key r1.node) (key new.node),
      ),
    )
