-- ===== src/App/Tests/Stream.antt =====
-- app/src/lib/ndjson.ts: two events in three chunks.
use zegel.Common.{ℕ, ◌≡◌, refl, true, Option, none, some, List, [], ◌∷◌}
use zegel.Common.Text.{Text, text_eq, trim}
use zegel.App.Ndjson.{read_ndjson, sent_text, on_line}
use zegel.App.Ndjson.Laws.{AreRead, read_ndjson-sent_text}

-- An event is a letter, which is its own JSON.
abbrev letter : ℕ → Text
letter c = c ∷ []

abbrev read_letter : Text → Option ℕ
read_letter [] = none
read_letter (c ∷ s) = some c

abbrev three_chunks : List Text
three_chunks = (b'a' ∷ []) ∷ (10 ∷ b'b' ∷ []) ∷ (10 ∷ []) ∷ []

letters-AreRead : AreRead read_letter letter (b'a' ∷ b'b' ∷ [])
unfolding on_line text_eq trim
letters-AreRead = ((refl, refl), ((refl, refl), tt))

read_ndjson-sent_text_example : read_ndjson read_letter three_chunks ≡ (b'a' ∷ b'b' ∷ [], true)
unfolding sent_text
read_ndjson-sent_text_example =
    read_ndjson-sent_text read_letter letter (b'a' ∷ b'b' ∷ []) three_chunks refl letters-AreRead
