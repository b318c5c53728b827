-- ===== src/Gateway/FileStore.antt =====
-- gateway/src/store/file.ts: the store that keeps its two maps in one JSON file. What the calls of
-- the file system answer is an argument; `probe` is a health report and left out.
pub mod Laws
pub mod Refinement
pub mod Interrupted
pub mod Writes
use zegel.Common.{ℕ, Bool, not, Option, none, some, List, [], ◌∷◌, ◌++◌, map, if◌then◌else◌}
use zegel.Common.JsMap
use zegel.Common.Text.{Text, codes, text_eq}
use zegel.Common.Result.{Result, ok, err, ◌>>=◌, or_throw}
use zegel.Gateway.Failure.{
  Failure, unavailable, unclassified, store_unreadable, store_not_json, wrong_store_schema,
}
use zegel.Gateway.Platform.{Platform}
use zegel.Gateway.Envelope.{parse_envelope}
use zegel.Gateway.Store.{EnvelopeRecord, MemoryEnvelopeStore, write}

abbrev pub store_schema : Text
store_schema = codes "zegel.gateway.store.v1"

pub record PersistedRecord : Type 0 where
  pub name : Option Text
  pub envelope : Text
  pub published_at : ℕ
  pub publisher : Text
  pub nonce : Text

-- `records` and `nonces` are missing at times: the code reads `?? {}`.
pub record PersistedFile : Type 0 where
  pub schema : Text
  pub records : Option (List (Text × PersistedRecord))
  pub nonces : Option (List (Text × Text))

-- `JSON.parse` and `JSON.stringify` at the type that the code casts to, `BigInt` of a text, and
-- `toString` of a bigint.
pub record Codec : Type 0 where
  pub json_parse : Text → Option PersistedFile
  pub json_stringify : PersistedFile → Text
  pub big_int : Text → Option ℕ
  pub to_string : ℕ → Text

-- What `readFile` of the store's path comes to.
pub data File : Type 0 where
  not_found unreadable : File
  contains : Text → File

-- `maps` are `#records` and `#nonces`, which the code fills and reads as the memory store does.
-- `loaded` is the promise of `#load`, once it is made: it stays as it was settled.
pub record FileEnvelopeStore : Type 0 where
  pub file : File
  pub loaded : Option (Result Failure (Unit {0}))
  pub maps : MemoryEnvelopeStore

-- `new FileEnvelopeStore(path)`
abbrev pub opened : File → FileEnvelopeStore
opened file = record { file = file; loaded = none; maps = zegel.Gateway.Store.empty }

module _ (v : Platform) (c : Codec) where
  -- The record that an entry of the file stands for.
  unfoldable pub read_record : Text → PersistedRecord → Result Failure EnvelopeRecord
  read_record node held = do
    envelope ← parse_envelope v held.envelope
    nonce ← or_throw (c.big_int held.nonce) unclassified
    ok (record {
      node = node;
      name = held.name;
      envelope = envelope;
      published_at = held.published_at;
      publisher = held.publisher;
      nonce = nonce;
    })

  -- The two loops over the entries; one that throws leaves what was read before it.
  unfoldable pub load_nonces :
      List (Text × Text) → MemoryEnvelopeStore → Result Failure (Unit {0}) × MemoryEnvelopeStore
  load_nonces [] s = (ok tt, s)
  load_nonces ((node, nonce) ∷ es) s = elim (c.big_int nonce) [
    | none ↦ (err unclassified, s)
    | some n ↦ load_nonces es (record s { nonces = JsMap.set node n s.nonces })
  ]

  unfoldable pub load_records :
      List (Text × PersistedRecord)
      → MemoryEnvelopeStore
      → Result Failure (Unit {0}) × MemoryEnvelopeStore
  load_records [] s = (ok tt, s)
  load_records ((node, held) ∷ es) s = elim (read_record node held) [
    | err e ↦ (err e, s)
    | ok r ↦ load_records es (record s { records = JsMap.set node r s.records })
  ]

  abbrev and_nonces :
      List (Text × Text)
      → Result Failure (Unit {0}) × MemoryEnvelopeStore
      → Result Failure (Unit {0}) × MemoryEnvelopeStore
  and_nonces es (ok u, s) = load_nonces es s
  and_nonces es (err e, s) = (err e, s)

  abbrev or_empty {ℓ} : {A : Type ℓ} → Option (List A) → List A
  or_empty none = []
  or_empty (some xs) = xs

  unfoldable pub load_file :
      PersistedFile → MemoryEnvelopeStore → Result Failure (Unit {0}) × MemoryEnvelopeStore
  load_file parsed s =
      if not (text_eq parsed.schema store_schema)
      then (err (unavailable wrong_store_schema), s)
      else and_nonces (or_empty parsed.nonces) (load_records (or_empty parsed.records) s)

  -- `#readFile`
  unfoldable pub read_file :
      File → MemoryEnvelopeStore → Result Failure (Unit {0}) × MemoryEnvelopeStore
  read_file not_found s = (ok tt, s)
  read_file unreadable s = (err (unavailable store_unreadable), s)
  read_file (contains text) s = elim (c.json_parse text) [
    | none ↦ (err (unavailable store_not_json), s)
    | some parsed ↦ load_file parsed s
  ]

  -- `#load`
  unfoldable pub load : FileEnvelopeStore → Result Failure (Unit {0}) × FileEnvelopeStore
  load s = elim s.loaded [
    | some result ↦ (result, s)
    | none ↦
        let (result, maps) = read_file s.file s.maps in
        (result, record s { loaded = some result; maps = maps })
  ]

  abbrev persist : Text × EnvelopeRecord → Text × PersistedRecord
  persist (node, r) = (
    node,
    record {
      name = r.name;
      envelope = r.envelope.text;
      published_at = r.published_at;
      publisher = r.publisher;
      nonce = c.to_string r.nonce;
    },
  )

  abbrev persist_nonce : Text × ℕ → Text × Text
  persist_nonce (node, nonce) = (node, c.to_string nonce)

  -- The text that `#flush` writes.
  unfoldable pub flushed_text : MemoryEnvelopeStore → Text
  flushed_text s =
      c.json_stringify (record {
        schema = store_schema;
        records = some (map persist s.records);
        nonces = some (map persist_nonce s.nonces);
      })
      ++ codes "\n"

  -- After a `#load` that has worked.
  abbrev after_load {ℓ} :
      {A : Type ℓ}
      → (FileEnvelopeStore → Result Failure A × FileEnvelopeStore)
      → Result Failure (Unit {0}) × FileEnvelopeStore
      → Result Failure A × FileEnvelopeStore
  after_load f (ok u, s) = f s
  after_load f (err e, s) = (err e, s)

  unfoldable pub get :
      Text → FileEnvelopeStore → Result Failure (Option EnvelopeRecord) × FileEnvelopeStore
  get node s = after_load (λ t. (ok (zegel.Gateway.Store.get node t.maps), t)) (load s)

  unfoldable pub list : FileEnvelopeStore → Result Failure (List EnvelopeRecord) × FileEnvelopeStore
  list s = after_load (λ t. (ok (zegel.Gateway.Store.list t.maps), t)) (load s)

  unfoldable pub last_nonce : Text → FileEnvelopeStore → Result Failure ℕ × FileEnvelopeStore
  last_nonce node s =
      after_load (λ t. (ok (zegel.Gateway.Store.last_nonce node t.maps), t)) (load s)

  -- `put`, where no other `put` runs. `saved` is whether each call of `#flush` works.
  unfoldable pub put :
      EnvelopeRecord → Bool → FileEnvelopeStore → Result Failure (Unit {0}) × FileEnvelopeStore
  put r saved s =
      after_load
        (λ t.
          let maps = write r t.maps in
          if saved
          then (ok tt, record t { maps = maps; file = contains (flushed_text maps) })
          else (err unclassified, record t { maps = maps }))
        (load s)
