-- ===== src/Gateway/FileStore/Laws.antt =====
-- gateway/src/store/file.ts: what a flush writes, and what reading it back gives.
use zegel.Common.{
  ℕ, ◌≡◌, refl, sym, ◌∙◌, subst, inl, inr, some, List, [], ◌∷◌, ◌++◌, map, All, ltb, Bool-cases,
}
use mathlib.Core.List.{append_assoc, append-nil}
use zegel.Common.JsMap
use zegel.Common.JsMap.{HasDistinctKeys}
use zegel.Common.Text.{Text, codes, text_eq, text_eq→eq, text_eq_refl}
use zegel.Common.Result.{ok}
use zegel.Gateway.Platform.{Platform}
use zegel.Gateway.Envelope.{parse_envelope}
use zegel.Gateway.Store.{EnvelopeRecord, MemoryEnvelopeStore, key, or_zero, write, empty}
use zegel.Gateway.FileStore.{
  Codec, PersistedFile, contains, read_record, load_records, load_nonces, load_file, read_file,
  flushed_text, persist, persist_nonce, store_schema,
}

-- JSON and decimal numbers are read as they were written; white space at the end is skipped.
pub record IsFaithful (c : Codec) : Type 0 where
  pub parses : (f : PersistedFile) → c.json_parse (c.json_stringify f ++ codes "\n") ≡ some f
  pub reads : (n : ℕ) → c.big_int (c.to_string n) ≡ some n

-- A record as the publish handler makes it: the node in lower case, the envelope that of its text.
abbrev pub IsOwn : Platform → EnvelopeRecord → Type 0
IsOwn v r = (key r.node ≡ r.node) × (parse_envelope v r.envelope.text ≡ ok r.envelope)

abbrev pub IsOwnEntry : Platform → Text × EnvelopeRecord → Type 0
IsOwnEntry v (k, r) = (r.node ≡ k) × (parse_envelope v r.envelope.text ≡ ok r.envelope)

-- The maps that a file can hold.
pub record IsPersistable (v : Platform) (s : MemoryEnvelopeStore) : Type 0 where
  pub records_distinct : HasDistinctKeys s.records
  pub nonces_distinct : HasDistinctKeys s.nonces
  pub own : All (IsOwnEntry v) s.records

set-own :
    (v : Platform) (k : Text) (r : EnvelopeRecord) (m : List (Text × EnvelopeRecord))
    → r.node ≡ k
    → parse_envelope v r.envelope.text ≡ ok r.envelope
    → All (IsOwnEntry v) m
    → All (IsOwnEntry v) (JsMap.set k r m)
unfolding JsMap.set
set-own v k r [] e p h = ((e, p), tt)
set-own v k r ((j, q) ∷ m) e p h = elim (Bool-cases (text_eq j k)) [
  | inl same ↦ rw same ((e ∙ sym (text_eq→eq j k same), p), h.1)
  | inr other ↦ rw other (h.0, set-own v k r m e p h.1)
]

pub write-IsPersistable :
    (v : Platform) (r : EnvelopeRecord) (s : MemoryEnvelopeStore)
    → IsOwn v r
    → IsPersistable v s
    → IsPersistable v (write r s)
unfolding write
write-IsPersistable v r s h p = record {
  records_distinct = JsMap.set-HasDistinctKeys (key r.node) r s.records p.records_distinct;
  nonces_distinct = elim (Bool-cases (ltb (or_zero (JsMap.get (key r.node) s.nonces)) r.nonce)) [
    | inl above ↦
        rw above (JsMap.set-HasDistinctKeys (key r.node) r.nonce s.nonces p.nonces_distinct)
    | inr below ↦ rw below p.nonces_distinct
  ];
  own = set-own v (key r.node) r s.records (sym h.0) h.1 p.own;
}

module _ (v : Platform) (c : Codec) (faithful : IsFaithful c) where
  read_record-persist :
      (k : Text) (r : EnvelopeRecord)
      → IsOwnEntry v (k, r)
      → read_record v c k (persist v c (k, r)).1 ≡ ok r
  unfolding read_record
  read_record-persist k r (e, p) = rw (p, faithful.reads r.nonce, sym e) refl

  load_nonces-persist :
      (m : List (Text × ℕ)) (s : MemoryEnvelopeStore)
      → HasDistinctKeys (s.nonces ++ m)
      → load_nonces v c (map (persist_nonce v c) m) s ≡ (ok tt, record s { nonces = s.nonces ++ m })
  unfolding load_nonces
  load_nonces-persist [] s h = rw (append-nil s.nonces) refl
  load_nonces-persist ((k, n) ∷ m) s h =
      rw
        (
          faithful.reads n,
          JsMap.set_fresh k n s.nonces (JsMap.lacks_prefix k n s.nonces m h),
          load_nonces-persist m (record s { nonces = s.nonces ++ (k, n) ∷ [] })
              (subst HasDistinctKeys (sym (append_assoc s.nonces ((k, n) ∷ []) m)) h),
          append_assoc s.nonces ((k, n) ∷ []) m,
          load_nonces,
        )
        refl

  load_records-persist :
      (m : List (Text × EnvelopeRecord)) (s : MemoryEnvelopeStore)
      → HasDistinctKeys (s.records ++ m)
      → All (IsOwnEntry v) m
      → load_records v c (map (persist v c) m) s ≡ (ok tt, record s { records = s.records ++ m })
  unfolding load_records
  load_records-persist [] s h own = rw (append-nil s.records) refl
  load_records-persist ((k, r) ∷ m) s h own =
      rw
        (
          read_record-persist k r own.0,
          JsMap.set_fresh k r s.records (JsMap.lacks_prefix k r s.records m h),
          load_records-persist m (record s { records = s.records ++ (k, r) ∷ [] })
              (subst HasDistinctKeys (sym (append_assoc s.records ((k, r) ∷ []) m)) h) own.1,
          append_assoc s.records ((k, r) ∷ []) m,
          load_records,
        )
        refl

  -- What a flush wrote is read back as the maps that it wrote.
  pub read_file-flushed_text :
      (s : MemoryEnvelopeStore)
      → IsPersistable v s
      → read_file v c (contains (flushed_text v c s)) empty ≡ (ok tt, s)
  unfolding read_file load_file flushed_text
  read_file-flushed_text s p =
      rw
        (
          faithful.parses (record {
            schema = store_schema;
            records = some (map (persist v c) s.records);
            nonces = some (map (persist_nonce v c) s.nonces);
          }),
          text_eq_refl store_schema,
          load_records-persist s.records empty p.records_distinct p.own,
          load_nonces-persist s.nonces (record empty { records = s.records }) p.nonces_distinct,
          read_file,
          load_file,
        )
        refl
