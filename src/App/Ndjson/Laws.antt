-- ===== src/App/Ndjson/Laws.antt =====
-- app/src/lib/ndjson.ts: what is read does not depend on the chunks that it comes in.
use zegel.Common.{
  ℕ, ◌≡◌, refl, sym, ap, ◌∙◌, true, false, not, all, Option, List, [], ◌∷◌, ◌++◌, All, ◌==◌,
  Bool-cases, inl, inr, arith,
}
use mathlib.Core.List.{append_assoc, append-nil}
use zegel.Common.Text.{Text, text_eq, trim}
use zegel.App.Ndjson.{
  newline, sent_text, before_line, cut, Read, after, on_line, on_lines, read_from, read_ndjson,
}

abbrev pub joined : List Text → Text
joined [] = []
joined (t ∷ ts) = t ++ joined ts

-- The parts of a text, cut where the parts of its beginning end.
abbrev resume : List Text × Text → Text → List Text × Text
resume (ls, r) t = (ls ++ (cut (r ++ t)).0, (cut (r ++ t)).1)

cut-before_line :
    (c : ℕ) (p : List Text × Text) (t : Text)
    → (c == newline) ≡ false
    → before_line c (resume p t) ≡ resume (before_line c p) t
unfolding cut
cut-before_line c ([], r) t h = rw h refl
cut-before_line c (l ∷ ls, r) t h = refl

cut-append : (s t : Text) → cut (s ++ t) ≡ resume (cut s) t
unfolding cut
cut-append [] t = refl
cut-append (c ∷ s) t = elim (Bool-cases (c == newline)) [
  | inl e ↦ rw e (ap (λ p. ([] ∷ p.0, p.1)) (cut-append s t))
  | inr e ↦ rw e (ap (before_line c) (cut-append s t) ∙ cut-before_line c (cut s) t e)
]

before_line_rest :
    (c : ℕ) (p : List Text × Text)
    → (c == newline) ≡ false
    → cut p.1 ≡ ([], p.1)
    → cut (before_line c p).1 ≡ ([], (before_line c p).1)
unfolding cut
before_line_rest c ([], r) h e = rw (h, e) refl
before_line_rest c (l ∷ ls, r) h e = e

-- What stays in the buffer has no newline.
cut_rest : (s : Text) → cut (cut s).1 ≡ ([], (cut s).1)
unfolding cut
cut_rest [] = refl
cut_rest (c ∷ s) = elim (Bool-cases (c == newline)) [
  | inl e ↦ rw e (cut_rest s)
  | inr e ↦ rw e (before_line_rest c (cut s) e (cut_rest s))
]

-- A line and its newline.
cut_line :
    (s t : Text)
    → all (λ c. not (c == newline)) s ≡ true
    → cut (s ++ (newline ∷ t)) ≡ (s ∷ (cut t).0, (cut t).1)
unfolding cut
cut_line [] t h = refl
cut_line (c ∷ s) t h = elim (Bool-cases (c == newline)) [
  | inl e ↦ absurd (ground arith)
  | inr e ↦ rw e (ap (before_line c) (cut_line s t (ground arith)))
]

after_assoc {ℓ} : {E : Type ℓ} (p q r : Read E) → after (after p q) r ≡ after p (after q r)
after_assoc (es, true) (fs, true) (gs, b) = rw (append_assoc es fs gs) refl
after_assoc (es, true) (fs, false) r = refl
after_assoc (es, false) (fs, b) r = refl

module _ {ℓ} {E : Type ℓ} (json_parse : Text → Option E) where
  on_lines-append :
      (xs ys : List Text)
      → on_lines json_parse (xs ++ ys) ≡ after (on_lines json_parse xs) (on_lines json_parse ys)
  unfolding on_lines
  on_lines-append [] ys = refl
  on_lines-append (x ∷ xs) ys =
      ap (after (on_line json_parse x)) (on_lines-append xs ys)
      ∙ sym (after_assoc (on_line json_parse x) (on_lines json_parse xs) (on_lines json_parse ys))

  -- A text that is read at once.
  abbrev read_whole : Text → Read E
  read_whole t = after (on_lines json_parse (cut t).0) (on_line json_parse (cut t).1)

  after_nothing : (r : Read E) → after ([], true) r ≡ r
  after_nothing (es, b) = refl

  read_whole-append :
      (s t : Text)
      → read_whole (s ++ t) ≡ after (on_lines json_parse (cut s).0) (read_whole ((cut s).1 ++ t))
  read_whole-append s t =
      ap (λ p. after (on_lines json_parse p.0) (on_line json_parse p.1)) (cut-append s t)
      ∙ ap (λ r. after r (on_line json_parse (cut ((cut s).1 ++ t)).1))
          (on_lines-append (cut s).0 (cut ((cut s).1 ++ t)).0)
      ∙ after_assoc (on_lines json_parse (cut s).0) (on_lines json_parse (cut ((cut s).1 ++ t)).0)
          (on_line json_parse (cut ((cut s).1 ++ t)).1)

  -- From a buffer with no newline on, the chunks give what their text gives at once.
  read_from-read_whole :
      (b : Text) (cs : List Text)
      → cut b ≡ ([], b)
      → read_from json_parse b cs ≡ read_whole (b ++ joined cs)
  unfolding read_from on_lines
  read_from-read_whole b [] h = rw (append-nil b) (
      sym (
        ap (λ p. after (on_lines json_parse p.0) (on_line json_parse p.1)) h
        ∙ after_nothing (on_line json_parse b)))
  read_from-read_whole b (c ∷ cs) h =
      ap (after (on_lines json_parse (cut (b ++ c)).0))
        (read_from-read_whole (cut (b ++ c)).1 cs (cut_rest (b ++ c)))
      ∙ sym (read_whole-append (b ++ c) (joined cs))
      ∙ ap read_whole (append_assoc b c (joined cs))

  -- Every event stands on one line and is read back from it.
  abbrev pub AreRead : (E → Text) → List E → Type ℓ
  AreRead stringify es =
      All
        (λ e.
          (all (λ c. not (c == newline)) (stringify e) ≡ true)
          × (on_line json_parse (stringify e) ≡ (e ∷ [], true)))
        es

  read_whole-sent_text :
      (stringify : E → Text) (es : List E)
      → AreRead stringify es
      → read_whole (sent_text stringify es) ≡ (es, true)
  unfolding sent_text on_line on_lines cut text_eq trim
  read_whole-sent_text stringify [] h = refl
  read_whole-sent_text stringify (e ∷ es) ((one, back), h) =
      let rest = sent_text stringify es in
      ap (λ p. after (on_lines json_parse p.0) (on_line json_parse p.1))
        (cut_line (stringify e) (sent_text stringify es) one)
      ∙ after_assoc (on_line json_parse (stringify e))
          (on_lines json_parse (cut (sent_text stringify es)).0)
          (on_line json_parse (cut (sent_text stringify es)).1)
      ∙ ap (λ r. after r (read_whole (sent_text stringify es))) back
      ∙ ap (after (e ∷ [], true)) (read_whole-sent_text stringify es h)

  -- However the text that was sent is cut into chunks, the reader passes on the events that were
  -- sent, in their order, and fails nowhere, if the JSON of each has no newline and is read back
  -- as it.
  pub read_ndjson-sent_text :
      (stringify : E → Text) (es : List E) (chunks : List Text)
      → joined chunks ≡ sent_text stringify es
      → AreRead stringify es
      → read_ndjson json_parse chunks ≡ (es, true)
  unfolding read_ndjson cut
  read_ndjson-sent_text stringify es chunks same h =
      read_from-read_whole [] chunks refl ∙ ap read_whole same ∙ read_whole-sent_text stringify es h
