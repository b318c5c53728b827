-- ===== src/Gateway/FileStore/Writes.antt =====
-- gateway/src/store/file.ts: puts that overlap, and the chain of their flushes. A flush writes the maps
-- of the moment at which it begins, and begins when the one before it has ended, well or not.
use zegel.Common.{
  ℕ, zero, suc, ◌+◌, ◌≤◌, ◌<◌, ◌≡◌, refl, sym, ◌∙◌, ap, Option, none, some, List, [], ◌∷◌, ◌++◌,
  take, length, length-append, arith,
}
use zegel.Common.Text.{Text}
use zegel.Gateway.Platform.{Platform}
use zegel.Gateway.Store.{EnvelopeRecord, MemoryEnvelopeStore, write, seeded}
use zegel.Gateway.FileStore.{Codec, File, contains, flushed_text}

-- `waiting` flushes have not begun, and `writing` is the text of the one that runs. `puts`, the flushes
-- that have `ended` and the number of the last one that worked (0 if none has) are history, which the
-- code does not keep.
pub record WriteChain : Type 0 where
  pub maps : MemoryEnvelopeStore
  pub waiting : ℕ
  pub writing : Option Text
  pub file : File
  pub puts : List EnvelopeRecord
  pub ended : ℕ
  pub saved : ℕ

abbrev pub fresh_chain : MemoryEnvelopeStore → File → WriteChain
fresh_chain maps file = record {
  maps = maps;
  waiting = 0;
  writing = none;
  file = file;
  puts = [];
  ended = 0;
  saved = 0;
}

-- `put`, up to its wait for the flush
unfoldable pub put_begins : EnvelopeRecord → WriteChain → WriteChain
put_begins r s = record s {
  maps = write r s.maps;
  waiting = s.waiting + 1;
  puts = s.puts ++ r ∷ [];
}

unfoldable pub flush_begins : Platform → Codec → ℕ → WriteChain → WriteChain
flush_begins v c more s = record s { waiting = more; writing = some (flushed_text v c s.maps) }

unfoldable pub flush_works : Text → WriteChain → WriteChain
flush_works text s = record s {
  writing = none;
  file = contains text;
  ended = s.ended + 1;
  saved = s.ended + 1;
}

unfoldable pub flush_fails : WriteChain → WriteChain
flush_fails s = record s { writing = none; ended = s.ended + 1 }

pub data ChainStep (v : Platform) (c : Codec) (s t : WriteChain) : Type 0 where
  puts_record : (r : EnvelopeRecord) → t ≡ put_begins r s → ChainStep v c s t
  begins_flush :
      (more : ℕ)
      → s.waiting ≡ suc more
      → s.writing ≡ none
      → t ≡ flush_begins v c more s
      → ChainStep v c s t
  works : (text : Text) → s.writing ≡ some text → t ≡ flush_works text s → ChainStep v c s t
  fails : (text : Text) → s.writing ≡ some text → t ≡ flush_fails s → ChainStep v c s t

pub data ChainSteps (v : Platform) (c : Codec) (s : WriteChain) : WriteChain → Type 0 where
  none_yet : ChainSteps v c s s
  and_then : (t u : WriteChain) → ChainSteps v c s t → ChainStep v c t u → ChainSteps v c s u

-- The maps after the first n puts.
abbrev pub maps_after : MemoryEnvelopeStore → WriteChain → ℕ → MemoryEnvelopeStore
maps_after m s n = seeded (take n s.puts) m

abbrev flushes_running : Option Text → ℕ
flushes_running none = 0
flushes_running (some text) = 1

-- The file has the maps after at least the first `n` puts.
abbrev pub Covers : Platform → Codec → MemoryEnvelopeStore → WriteChain → ℕ → Text → Type 0
Covers v c m s n text =
    (j : ℕ) × (n ≤ j) × (j ≤ length s.puts) × (text ≡ flushed_text v c (maps_after m s j))

record Invariant (v : Platform) (c : Codec) (m : MemoryEnvelopeStore) (s : WriteChain)
    : Type 0 where
  counted : length s.puts ≡ s.ended + flushes_running s.writing + s.waiting
  applied : s.maps ≡ seeded s.puts m
  runs : (text : Text) → s.writing ≡ some text → Covers v c m s (s.ended + 1) text
  kept : 0 < s.saved → (text : Text) × (s.file ≡ contains text) × Covers v c m s s.saved text

seeded-append :
    (rs : List EnvelopeRecord) (r : EnvelopeRecord) (m : MemoryEnvelopeStore)
    → seeded (rs ++ r ∷ []) m ≡ write r (seeded rs m)
unfolding seeded
seeded-append [] r m = refl
seeded-append (q ∷ rs) r m = seeded-append rs r (write q m)

take-snoc {ℓ} :
    {A : Type ℓ} (n : ℕ) (xs : List A) (x : A) → n ≤ length xs → take n (xs ++ x ∷ []) ≡ take n xs
take-snoc zero xs x h = refl
take-snoc (suc n) [] x h = absurd (omega arith)
take-snoc (suc n) (y ∷ xs) x h = ap (◌∷◌ y) (take-snoc n xs x (omega arith))

take_all {ℓ} : {A : Type ℓ} (xs : List A) (n : ℕ) → n ≡ length xs → take n xs ≡ xs
take_all [] zero h = refl
take_all [] (suc n) h = refl
take_all (x ∷ xs) zero h = absurd (omega arith)
take_all (x ∷ xs) (suc n) h = ap (◌∷◌ x) (take_all xs n (omega arith))

module _ (v : Platform) (c : Codec) (m : MemoryEnvelopeStore) where
  -- A later put takes nothing from what a text covers.
  Covers-put_begins :
      (r : EnvelopeRecord) (s : WriteChain) (n : ℕ) (text : Text)
      → Covers v c m s n text
      → Covers v c m (put_begins r s) n text
  unfolding put_begins
  Covers-put_begins r s n text (j, above, below, e) = (
    j,
    above,
    omega (arith, length-append s.puts (r ∷ [])),
    e ∙ ap (λ rs. flushed_text v c (seeded rs m)) (sym (take-snoc j s.puts r below)),
  )

  counted_at :
      (s : WriteChain) (running : Option Text)
      → Invariant v c m s
      → s.writing ≡ running
      → length s.puts ≡ s.ended + flushes_running running + s.waiting
  counted_at s running h e = rw (sym e) h.counted

  Invariant-ChainStep :
      (s t : WriteChain) → Invariant v c m s → ChainStep v c s t → Invariant v c m t
  unfolding put_begins flush_begins flush_works flush_fails
  Invariant-ChainStep s t h (puts_record r e) = rw e (record {
    counted = omega (arith, length-append s.puts (r ∷ []), h.counted);
    applied = rw (seeded-append s.puts r m) (ap (write r) h.applied);
    runs = λ text w. Covers-put_begins r s (s.ended + 1) text (h.runs text w);
    kept = λ some_saved.
        let (text, f, cov) = h.kept some_saved in (text, f, Covers-put_begins r s s.saved text cov);
  })
  Invariant-ChainStep s t h (begins_flush more w idle e) = rw e (record {
    counted = let n = counted_at s none h idle in omega arith;
    applied = h.applied;
    runs = λ text q.
        let n = counted_at s none h idle in
        (
          length s.puts,
          omega arith,
          omega arith,
          rw (take_all s.puts (length s.puts) refl, sym h.applied) cc,
        );
    kept = h.kept;
  })
  Invariant-ChainStep s t h (works text w e) = rw e (record {
    counted = let n = counted_at s (some text) h w in omega arith;
    applied = h.applied;
    runs = λ other q. absurd cc;
    kept = λ some_saved. (text, refl, h.runs text w);
  })
  Invariant-ChainStep s t h (fails text w e) = rw e (record {
    counted = let n = counted_at s (some text) h w in omega arith;
    applied = h.applied;
    runs = λ other q. absurd cc;
    kept = h.kept;
  })

  ChainSteps-Invariant :
      (file : File) (s : WriteChain) → ChainSteps v c (fresh_chain m file) s → Invariant v c m s
  unfolding seeded
  ChainSteps-Invariant file _ none_yet = record {
    counted = refl;
    applied = refl;
    runs = λ text w. absurd cc;
    kept = λ some_saved. absurd (omega arith);
  }
  ChainSteps-Invariant file _ (and_then t u steps step) =
      Invariant-ChainStep t u (ChainSteps-Invariant file t steps) step

  -- However the puts of a store overlap, if a flush has worked, the file has the maps after a
  -- number of puts, in their order, that is at least the number of the last flush that worked.
  pub ChainSteps-Covers :
      (file : File) (s : WriteChain)
      → ChainSteps v c (fresh_chain m file) s
      → 0 < s.saved
      → (text : Text) × (s.file ≡ contains text) × Covers v c m s s.saved text
  ChainSteps-Covers file s steps = (ChainSteps-Invariant file s steps).kept

  -- However the puts of a store overlap, if the last flush that worked is that of the last put,
  -- the file has the maps of the store.
  idle_file_is_current :
      (file : File) (s : WriteChain)
      → ChainSteps v c (fresh_chain m file) s
      → 0 < s.saved
      → s.saved ≡ length s.puts
      → s.file ≡ contains (flushed_text v c s.maps)
  idle_file_is_current file s steps positive all_saved =
      let h = ChainSteps-Invariant file s steps in
      let (text, f, (j, above, below, e)) = h.kept positive in
      rw (f, e, take_all s.puts j (omega arith), sym h.applied) refl
