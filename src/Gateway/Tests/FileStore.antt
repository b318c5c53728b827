-- ===== src/Gateway/Tests/FileStore.antt =====
-- Concrete runs of the file store.
use zegel.Common.{
  ℕ, suc, ◌≡◌, refl, ◌⊎◌, inl, inr, ◌≤◌, Option, none, some, List, [], ◌∷◌, length, arith,
}
use zegel.Common.Text.{Text, text_eq, to_lower_case}
use zegel.Gateway.Store.{write, empty}
use zegel.Gateway.FileStore.{File, contains, not_found, opened, flushed_text}
use zegel.Gateway.FileStore.Laws.{IsOwn, IsPersistable}
use zegel.Gateway.FileStore.Refinement.{
  get_record, put_record, restart, the_record, done, Represents, serve_file, serve_memory, run_with,
  run_file-eq-run_memory,
}
use zegel.Gateway.FileStore.Interrupted.{
  Disk, Flushing, stopped, continued, makes_directory, Holds, load-Flushing,
}
use zegel.Gateway.FileStore.Writes.{
  WriteChain, Covers, fresh_chain, ChainSteps, none_yet, and_then, puts_record, begins_flush, works,
  put_begins, flush_begins, flush_works, ChainSteps-Covers,
}
use zegel.Gateway.Tests.{platform, published, node_text, parse_envelope_ok}
use zegel.Gateway.Tests.Codec.{codec, codec-IsFaithful}

published-IsOwn : IsOwn platform published
unfolding to_lower_case
published-IsOwn = (refl, parse_envelope_ok)

empty-IsPersistable : IsPersistable platform empty
empty-IsPersistable = record { records_distinct = tt; nonces_distinct = tt; own = tt }

first_run : Represents platform codec (opened not_found) empty
first_run = record {
  on_disk = inr (refl, refl);
  in_memory = inr (refl, refl);
  persistable = empty-IsPersistable;
}

run_file-eq-run_memory_example :
    run_with
      (serve_file platform codec)
      (put_record published ∷ restart ∷ get_record node_text ∷ [])
      (opened not_found)
    ≡ run_with serve_memory (put_record published ∷ restart ∷ get_record node_text ∷ []) empty
run_file-eq-run_memory_example =
    run_file-eq-run_memory platform codec codec-IsFaithful
      (put_record published ∷ restart ∷ get_record node_text ∷ []) (opened not_found) empty
      (published-IsOwn, (tt, (tt, tt))) first_run

-- What the memory store answers there.
memory_answers :
    run_with serve_memory (put_record published ∷ restart ∷ get_record node_text ∷ []) empty
    ≡ (done ∷ done ∷ the_record (some published) ∷ [])
unfolding write to_lower_case zegel.Gateway.Store.get zegel.Common.JsMap.get zegel.Common.JsMap.set
    text_eq
memory_answers = refl

abbrev fresh_disk : Disk
fresh_disk = record { file = not_found; temporary = not_found }

-- The process ends when nothing but the directory has been made.
abbrev directory_only :
    Flushing (flushed_text platform codec (write published empty)) fresh_disk fresh_disk
directory_only =
    continued fresh_disk fresh_disk fresh_disk (makes_directory fresh_disk) (stopped fresh_disk)

fresh_disk-Holds : Holds platform codec not_found empty
unfolding zegel.Gateway.FileStore.load zegel.Gateway.FileStore.read_file
fresh_disk-Holds = refl

load-Flushing_example :
    Holds platform codec not_found empty ⊎ Holds platform codec not_found (write published empty)
load-Flushing_example =
    load-Flushing platform codec codec-IsFaithful published empty fresh_disk fresh_disk
      published-IsOwn empty-IsPersistable fresh_disk-Holds directory_only

-- One put whose flush works.
abbrev start_chain : WriteChain
start_chain = fresh_chain empty not_found

abbrev put_chain : WriteChain
put_chain = put_begins published start_chain

abbrev flush_chain : WriteChain
flush_chain = flush_begins platform codec 0 put_chain

abbrev saved_text : Text
saved_text = flushed_text platform codec (write published empty)

abbrev saved_chain : WriteChain
saved_chain = flush_works saved_text flush_chain

saved_steps : ChainSteps platform codec start_chain saved_chain
unfolding put_begins flush_begins
saved_steps =
    and_then flush_chain saved_chain
      (and_then put_chain flush_chain
        (and_then start_chain put_chain none_yet (puts_record published refl))
        (begins_flush 0 refl refl refl))
      (works saved_text refl refl)

saved_once : saved_chain.saved ≡ 1
unfolding put_begins flush_begins flush_works
saved_once = refl

saved_all : saved_chain.saved ≡ length saved_chain.puts
unfolding put_begins flush_begins flush_works
saved_all = refl

ChainSteps-Covers_example :
    (text : Text) × (saved_chain.file ≡ contains text)
    × Covers platform codec empty saved_chain saved_chain.saved text
ChainSteps-Covers_example =
    ChainSteps-Covers platform codec empty not_found saved_chain saved_steps
      (omega (arith, saved_once))
