-- ===== src/App/Mrz/Slices.antt =====
-- app/src/lib/mrz.ts: the places of the fields in the second line.
use zegel.Common.{
  ℕ, zero, suc, ◌+◌, ◌-◌, ◌≡◌, refl, ap, ◌∙◌, ◌≤◌, [], ◌∷◌, ◌++◌, length, take, drop, arith,
  length-append, take-append,
}
use zegel.Common.Text.{Text}
use zegel.App.Mrz.{
  Line2, check_digit, issuing_namespace, filler, composite_of, composite_slice, print_line2, slice,
}

drop_past : (xs ys : Text) (n k : ℕ) → length xs ≡ n → n ≤ k → drop k (xs ++ ys) ≡ drop (k - n) ys
drop_past [] ys n k e h = let z : k - n ≡ k = omega arith in rw z refl
drop_past (x ∷ xs) ys n zero e h = absurd (omega arith)
drop_past (x ∷ xs) ys n (suc k) e h =
    let z : suc k - n ≡ k - length xs = omega arith in
    rw z (drop_past xs ys (length xs) k refl (omega arith))

slice_skip :
    (xs ys : Text) (n a b c d : ℕ)
    → length xs ≡ n
    → a ≡ c + n
    → b ≡ d + n
    → c ≤ d
    → slice a b (xs ++ ys) ≡ slice c d ys
slice_skip xs ys n a b c d e h k le =
    let z : b - a ≡ d - c = omega arith in
    let z' : a - n ≡ c = omega arith in rw (z, drop_past xs ys n a e (omega arith), z') refl

slice_here : (xs ys : Text) (n : ℕ) → length xs ≡ n → slice 0 n (xs ++ ys) ≡ xs
slice_here xs ys n e = let z : n - 0 ≡ n = omega arith in rw z (take-append xs ys n (omega arith))

take_all : (xs : Text) (n : ℕ) → length xs ≡ n → take n xs ≡ xs
take_all [] zero e = refl
take_all [] (suc n) e = refl
take_all (x ∷ xs) zero e = absurd (omega arith)
take_all (x ∷ xs) (suc n) e = ap (◌∷◌ x) (take_all xs n (omega arith))

slice_last : (xs : Text) (n : ℕ) → length xs ≡ n → slice 0 n xs ≡ xs
slice_last xs n e = let z : n - 0 ≡ n = omega arith in rw z (take_all xs n e)

length-check_digit : (s : Text) → length (check_digit s) ≡ 1
unfolding check_digit
length-check_digit s = refl

-- The widths of the fields.
pub record IsSized (f : Line2) : Type 0 where
  pub doc_no : length f.doc_no ≡ 9
  pub from : length f.from ≡ 6
  pub expiry : length f.expiry ≡ 6
  pub personal : length f.personal ≡ 14

module _ (f : Line2) where
  abbrev last_digits : Text
  last_digits = check_digit f.personal ++ check_digit (composite_of f)

  abbrev from_personal : Text
  from_personal = f.personal ++ last_digits

  abbrev from_expiry : Text
  from_expiry = f.expiry ++ (check_digit f.expiry ++ from_personal)

  abbrev from_window : Text
  from_window = f.from ++ (check_digit f.from ++ ((filler ∷ []) ++ from_expiry))

  abbrev from_digit : Text
  from_digit = check_digit f.doc_no ++ (issuing_namespace ++ from_window)

module _ (f : Line2) (w : IsSized f) where
  one : (s : Text) → length (check_digit s) ≡ 1
  one = length-check_digit

  to_window :
      (a b : ℕ) → a ≤ b → slice (a + 13) (b + 13) (print_line2 f) ≡ slice a b (from_window f)
  unfolding print_line2
  to_window a b h =
      slice_skip f.doc_no (from_digit f) 9 (a + 13) (b + 13) (a + 4) (b + 4) w.doc_no (omega arith)
        (omega arith) (omega arith)
      ∙ slice_skip (check_digit f.doc_no) (issuing_namespace ++ from_window f) 1 (a + 4) (b + 4)
          (a + 3) (b + 3) (one f.doc_no) (omega arith) (omega arith) (omega arith)
      ∙ slice_skip issuing_namespace (from_window f) 3 (a + 3) (b + 3) a b refl (omega arith)
          (omega arith) h

  to_expiry :
      (a b : ℕ) → a ≤ b → slice (a + 21) (b + 21) (print_line2 f) ≡ slice a b (from_expiry f)
  to_expiry a b h =
      let za : a + 21 ≡ a + 8 + 13 = omega arith in
      let zb : b + 21 ≡ b + 8 + 13 = omega arith in
      rw (za, zb)
        (to_window (a + 8) (b + 8) (omega arith)
          ∙ slice_skip f.from (check_digit f.from ++ ((filler ∷ []) ++ from_expiry f)) 6 (a + 8)
              (b + 8) (a + 2) (b + 2) w.from (omega arith) (omega arith) (omega arith)
          ∙ slice_skip (check_digit f.from) ((filler ∷ []) ++ from_expiry f) 1 (a + 2) (b + 2)
              (a + 1) (b + 1) (one f.from) (omega arith) (omega arith) (omega arith)
          ∙ slice_skip (filler ∷ []) (from_expiry f) 1 (a + 1) (b + 1) a b refl (omega arith)
              (omega arith) h)

  to_digits :
      (a b : ℕ) → a ≤ b → slice (a + 42) (b + 42) (print_line2 f) ≡ slice a b (last_digits f)
  to_digits a b h =
      let za : a + 42 ≡ a + 21 + 21 = omega arith in
      let zb : b + 42 ≡ b + 21 + 21 = omega arith in
      rw (za, zb)
        (to_expiry (a + 21) (b + 21) (omega arith)
          ∙ slice_skip f.expiry (check_digit f.expiry ++ from_personal f) 6 (a + 21) (b + 21)
              (a + 15) (b + 15) w.expiry (omega arith) (omega arith) (omega arith)
          ∙ slice_skip (check_digit f.expiry) (from_personal f) 1 (a + 15) (b + 15) (a + 14)
              (b + 14) (one f.expiry) (omega arith) (omega arith) (omega arith)
          ∙ slice_skip f.personal (last_digits f) 14 (a + 14) (b + 14) a b w.personal (omega arith)
              (omega arith) h)

  pub slice-doc_no : slice 0 9 (print_line2 f) ≡ f.doc_no
  unfolding print_line2
  slice-doc_no = slice_here f.doc_no (from_digit f) 9 w.doc_no

  pub slice-doc_digit : slice 9 10 (print_line2 f) ≡ check_digit f.doc_no
  unfolding print_line2
  slice-doc_digit =
      slice_skip f.doc_no (from_digit f) 9 9 10 0 1 w.doc_no refl refl (omega arith)
      ∙ slice_here (check_digit f.doc_no) (issuing_namespace ++ from_window f) 1 (one f.doc_no)

  pub slice-from : slice 13 19 (print_line2 f) ≡ f.from
  slice-from = to_window 0 6 (omega arith) ∙ slice_here f.from _ 6 w.from

  pub slice-from_digit : slice 19 20 (print_line2 f) ≡ check_digit f.from
  slice-from_digit =
      to_window 6 7 (omega arith)
      ∙ slice_skip f.from (check_digit f.from ++ ((filler ∷ []) ++ from_expiry f)) 6 6 7 0 1 w.from
          refl refl (omega arith)
      ∙ slice_here (check_digit f.from) _ 1 (one f.from)

  pub slice-expiry : slice 21 27 (print_line2 f) ≡ f.expiry
  slice-expiry = to_expiry 0 6 (omega arith) ∙ slice_here f.expiry _ 6 w.expiry

  pub slice-expiry_digit : slice 27 28 (print_line2 f) ≡ check_digit f.expiry
  slice-expiry_digit =
      to_expiry 6 7 (omega arith)
      ∙ slice_skip f.expiry (check_digit f.expiry ++ from_personal f) 6 6 7 0 1 w.expiry refl refl
          (omega arith)
      ∙ slice_here (check_digit f.expiry) _ 1 (one f.expiry)

  pub slice-personal : slice 28 42 (print_line2 f) ≡ f.personal
  slice-personal =
      to_expiry 7 21 (omega arith)
      ∙ slice_skip f.expiry (check_digit f.expiry ++ from_personal f) 6 7 21 1 15 w.expiry refl refl
          (omega arith)
      ∙ slice_skip (check_digit f.expiry) (from_personal f) 1 1 15 0 14 (one f.expiry) refl refl
          (omega arith)
      ∙ slice_here f.personal _ 14 w.personal

  pub slice-personal_digit : slice 42 43 (print_line2 f) ≡ check_digit f.personal
  slice-personal_digit =
      to_digits 0 1 (omega arith) ∙ slice_here (check_digit f.personal) _ 1 (one f.personal)

  pub slice-composite_digit : slice 43 44 (print_line2 f) ≡ check_digit (composite_of f)
  slice-composite_digit =
      to_digits 1 2 (omega arith)
      ∙ slice_skip (check_digit f.personal) (check_digit (composite_of f)) 1 1 2 0 1
          (one f.personal) refl refl (omega arith)
      ∙ slice_last (check_digit (composite_of f)) 1 (one (composite_of f))

  -- The composite is read off the line as it was computed.
  pub composite_slice-print_line2 : composite_slice (print_line2 f) ≡ composite_of f
  unfolding composite_of
  composite_slice-print_line2 = rw (
    slice-doc_no, slice-doc_digit, slice-from, slice-from_digit, slice-expiry, slice-expiry_digit,
    slice-personal, slice-personal_digit,
  )

  pub length-print_line2 : length (print_line2 f) ≡ 44
  unfolding print_line2
  length-print_line2 = omega (
    arith,
    w.doc_no,
    w.from,
    w.expiry,
    w.personal,
    length-append f.doc_no (from_digit f),
    length-append (check_digit f.doc_no) (issuing_namespace ++ from_window f),
    length-append f.from (check_digit f.from ++ ((filler ∷ []) ++ from_expiry f)),
    length-append (check_digit f.from) ((filler ∷ []) ++ from_expiry f),
    length-append f.expiry (check_digit f.expiry ++ from_personal f),
    length-append (check_digit f.expiry) (from_personal f),
    length-append f.personal (last_digits f),
    length-append (check_digit f.personal) (check_digit (composite_of f)),
    one f.doc_no,
    one f.from,
    one f.expiry,
    one f.personal,
    one (composite_of f),
  )
