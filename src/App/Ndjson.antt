-- ===== src/App/Ndjson.antt =====
-- app/src/lib/ndjson.ts: a stream of events, one JSON text to a line, at both ends. A chunk is the text
-- that the decoder gives for it.
pub mod Laws
use zegel.Common.{
  ℕ, Bool, true, false, Option, none, some, List, [], ◌∷◌, ◌++◌, ◌==◌, if◌then◌else◌,
}
use zegel.Common.Text.{Text, codes, text_eq, trim}

abbrev pub newline : ℕ
newline = 10

-- `sink.send` before the sink is closed: the texts of the events, each ended by a newline.
unfoldable pub sent_text {ℓ} : {E : Type ℓ} → (E → Text) → List E → Text
sent_text stringify [] = []
sent_text stringify (e ∷ es) = stringify e ++ (newline ∷ sent_text stringify es)

abbrev pub before_line : ℕ → List Text × Text → List Text × Text
before_line c ([], rest) = ([], c ∷ rest)
before_line c (line ∷ lines, rest) = ((c ∷ line) ∷ lines, rest)

-- The inner loop, which takes one line after the other off the buffer: the complete lines, and what stays.
unfoldable pub cut : Text → List Text × Text
cut [] = ([], [])
cut (c ∷ s) =
    let parts = cut s in if c == newline then ([] ∷ parts.0, parts.1) else before_line c parts

-- The events that were passed on, and whether all was read; `false` where `JSON.parse` threw.
abbrev pub Read {ℓ} : Type ℓ → Type ℓ
Read E = List E × Bool

abbrev pub after {ℓ} : {E : Type ℓ} → Read E → Read E → Read E
after (es, true) (fs, b) = (es ++ fs, b)
after (es, false) r = (es, false)

module _ {ℓ} {E : Type ℓ} (json_parse : Text → Option E) where
  abbrev pub on_parsed : Option E → Read E
  on_parsed none = ([], false)
  on_parsed (some e) = (e ∷ [], true)

  -- `if (line !== '') onEvent(JSON.parse(line))`, of the line without the space around it.
  unfoldable pub on_line : Text → Read E
  on_line line = if text_eq (trim line) [] then ([], true) else on_parsed (json_parse (trim line))

  unfoldable pub on_lines : List Text → Read E
  on_lines [] = ([], true)
  on_lines (line ∷ lines) = after (on_line line) (on_lines lines)

  -- The outer loop, with the buffer, and what follows it.
  unfoldable pub read_from : Text → List Text → Read E
  read_from buffer [] = on_line buffer
  read_from buffer (chunk ∷ chunks) =
      let parts = cut (buffer ++ chunk) in after (on_lines parts.0) (read_from parts.1 chunks)

  unfoldable pub read_ndjson : List Text → Read E
  read_ndjson chunks = read_from [] chunks
