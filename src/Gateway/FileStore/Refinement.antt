-- ===== src/Gateway/FileStore/Refinement.antt =====
-- gateway/src/store/file.ts: calls of the store and restarts of the process, beside the same calls of
-- a memory store that lives on.
use zegel.Common.{ℕ, ◌≡◌, refl, ◌⊎◌, inl, inr, true, Option, none, some, List, [], ◌∷◌, All}
use mathlib.Core.Path.{ap₂}
use zegel.Common.Text.{Text}
use zegel.Common.Result.{Result, ok, err}
use zegel.Gateway.Failure.{Failure}
use zegel.Gateway.Platform.{Platform}
use zegel.Gateway.Store.{EnvelopeRecord, MemoryEnvelopeStore, write, empty}
use zegel.Gateway.FileStore.{
  Codec, FileEnvelopeStore, not_found, contains, opened, load, read_file, get, list, last_nonce,
  put, flushed_text,
}
use zegel.Gateway.FileStore.Laws.{
  IsFaithful, IsOwn, IsPersistable, write-IsPersistable, read_file-flushed_text,
}

-- `restart` ends the process and makes a new store on the same path.
pub data Request : Type 0 where
  get_record get_nonce : Text → Request
  list_records restart : Request
  put_record : EnvelopeRecord → Request

pub data Answer : Type 0 where
  the_record : Option EnvelopeRecord → Answer
  the_nonce : ℕ → Answer
  the_records : List EnvelopeRecord → Answer
  done : Answer
  refused : Failure → Answer

abbrev answer_with {ℓ} :
    {A : Type ℓ} → (A → Answer) → Result Failure A × FileEnvelopeStore → Answer × FileEnvelopeStore
answer_with f (ok a, s) = (f a, s)
answer_with f (err e, s) = (refused e, s)

-- The file store, where every flush works.
abbrev pub serve_file : Platform → Codec → Request → FileEnvelopeStore → Answer × FileEnvelopeStore
serve_file v c (get_record node) s = answer_with the_record (get v c node s)
serve_file v c (get_nonce node) s = answer_with the_nonce (last_nonce v c node s)
serve_file v c list_records s = answer_with the_records (list v c s)
serve_file v c restart s = (done, opened s.file)
serve_file v c (put_record r) s = answer_with (λ u. done) (put v c r true s)

-- The memory store, which is not restarted.
abbrev pub serve_memory : Request → MemoryEnvelopeStore → Answer × MemoryEnvelopeStore
serve_memory (get_record node) m = (the_record (zegel.Gateway.Store.get node m), m)
serve_memory (get_nonce node) m = (the_nonce (zegel.Gateway.Store.last_nonce node m), m)
serve_memory list_records m = (the_records (zegel.Gateway.Store.list m), m)
serve_memory restart m = (done, m)
serve_memory (put_record r) m = (done, write r m)

abbrev pub run_with : {S : Type 0} → (Request → S → Answer × S) → List Request → S → List Answer
run_with serve [] s = []
run_with serve (q ∷ qs) s = let (a, t) = serve q s in a ∷ run_with serve qs t

-- Every record that is put is one of the publish handler's.
abbrev pub IsOwnRequest : Platform → Request → Type 0
IsOwnRequest v (put_record r) = IsOwn v r
IsOwnRequest v _ = Unit

-- The file has the maps `m`, and so has the store once it has read it.
pub record Represents (v : Platform) (c : Codec) (s : FileEnvelopeStore) (m : MemoryEnvelopeStore)
    : Type 0 where
  pub on_disk : (s.file ≡ contains (flushed_text v c m)) ⊎ ((s.file ≡ not_found) × (m ≡ empty))
  pub in_memory :
      ((s.loaded ≡ some (ok tt)) × (s.maps ≡ m)) ⊎ ((s.loaded ≡ none) × (s.maps ≡ empty))
  pub persistable : IsPersistable v m

module _ (v : Platform) (c : Codec) (faithful : IsFaithful c) where
  load-Represents :
      (s : FileEnvelopeStore) (m : MemoryEnvelopeStore)
      → Represents v c s m
      → load v c s ≡ (ok tt, record s { loaded = some (ok tt); maps = m })
  unfolding load read_file
  load-Represents s m h = elim h.in_memory [
    | inl (l, e) ↦ rw (l, e) refl
    | inr (l, e) ↦ elim h.on_disk [
      | inl f ↦ rw (l, e, f, read_file-flushed_text v c faithful m h.persistable) refl
      | inr (f, g) ↦ rw (l, e, f, g) refl
    ]
  ]

  loaded :
      (s : FileEnvelopeStore) (m : MemoryEnvelopeStore)
      → Represents v c s m
      → Represents v c (record s { loaded = some (ok tt); maps = m }) m
  loaded s m h = record {
    on_disk = h.on_disk;
    in_memory = inl (refl, refl);
    persistable = h.persistable;
  }

  -- One request: the answers agree, and the stores still do.
  serve_file-Represents :
      (q : Request) (s : FileEnvelopeStore) (m : MemoryEnvelopeStore)
      → IsOwnRequest v q
      → Represents v c s m
      → ((serve_file v c q s).0 ≡ (serve_memory q m).0)
        × Represents v c (serve_file v c q s).1 (serve_memory q m).1
  unfolding get list last_nonce put
  serve_file-Represents (get_record node) s m own h =
      rw (load-Represents s m h) (refl, loaded s m h)
  serve_file-Represents (get_nonce node) s m own h = rw (load-Represents s m h) (refl, loaded s m h)
  serve_file-Represents list_records s m own h = rw (load-Represents s m h) (refl, loaded s m h)
  serve_file-Represents restart s m own h = (
    refl,
    record { on_disk = h.on_disk; in_memory = inr (refl, refl); persistable = h.persistable },
  )
  serve_file-Represents (put_record r) s m own h = rw (load-Represents s m h) (
    refl,
    record {
      on_disk = inl refl;
      in_memory = inl (refl, refl);
      persistable = write-IsPersistable v r m own h.persistable;
    },
  )

  -- If every flush works and every record put is one as the publish handler makes it, the file
  -- store answers any sequence of requests, restarts of the process among them, as a memory store
  -- does that holds the same records and is never restarted.
  pub run_file-eq-run_memory :
      (qs : List Request) (s : FileEnvelopeStore) (m : MemoryEnvelopeStore)
      → All (IsOwnRequest v) qs
      → Represents v c s m
      → run_with (serve_file v c) qs s ≡ run_with serve_memory qs m
  run_file-eq-run_memory [] s m own h = refl
  run_file-eq-run_memory (q ∷ qs) s m own h =
      let step = serve_file-Represents q s m own.0 h in
      ap₂ (◌∷◌) step.0
        (run_file-eq-run_memory qs (serve_file v c q s).1 (serve_memory q m).1 own.1 step.1)
