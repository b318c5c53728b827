-- ===== src/App/Mrz/Printed.antt =====
-- app/src/lib/mrz.ts, `buildMrz`: the format of a printed zone, and its reading.
use zegel.Common.{
  ℕ, ◌+◌, ◌-◌, ◌++◌, ◌≡◌, refl, true, Option, none, some, map, length, replicate, arith,
  length-append, length-take, length-replicate,
}
use zegel.Common.Int.{ℤ, pos, negsuc, ◌≤ℤ◌}
use zegel.Common.Text.{Text, text_eq_refl}
use zegel.App.Mrz.{
  MrzInput, DateParts, check_digit, composite_of, pad_upper, pad, printable, filler, year_text,
  two_digits, yymmdd, personal_number, document_number, fields_of, build_mrz, read_mrz_line2,
}
use zegel.App.Mrz.Slices.{
  IsSized, length-print_line2, slice-doc_no, slice-doc_digit, slice-from, slice-from_digit,
  slice-expiry, slice-expiry_digit, slice-personal, slice-personal_digit, slice-composite_digit,
  composite_slice-print_line2,
}

length-pad_upper : (value : Text) (n : ℕ) → length (pad_upper value n) ≡ n
unfolding pad_upper
length-pad_upper value n =
    let upper = map printable value in
    ground (
      arith,
      length-take n upper,
      length-append upper (replicate (n - length upper) filler),
      length-replicate (n - length upper) filler,
    )

-- A text that is no date, or one whose year is not negative.
abbrev pub HasPlainYear : Option DateParts → Type 0
HasPlainYear none = Unit {0}
HasPlainYear (some d) = pos 0 ≤ℤ d.year

length-year_text : (year : ℤ) → pos 0 ≤ℤ year → length (year_text year) ≡ 2
length-year_text (pos n) h = refl
length-year_text (negsuc n) h = absurd (omega (arith, h))

length-yymmdd : (d : Option DateParts) → HasPlainYear d → length (yymmdd d) ≡ 6
unfolding yymmdd
length-yymmdd none h = refl
length-yymmdd (some d) h =
    let rest = two_digits (d.month + 1) ++ two_digits d.day in
    omega (arith, length-append (year_text d.year) rest, length-year_text d.year h)

module _ (upper : Text → Text) (date : Text → Option DateParts) (i : MrzInput)
    (from : HasPlainYear (date i.record_from)) (until : HasPlainYear (date i.expires_at)) where
  fields_of-IsSized : IsSized (fields_of upper date i)
  unfolding pad personal_number
  fields_of-IsSized = record {
    doc_no = length-pad_upper (upper (document_number upper i.reference_id)) 9;
    from = length-yymmdd (date i.record_from) from;
    expiry = length-yymmdd (date i.expires_at) until;
    personal = length-pad_upper _ 14;
  }

  -- If neither date has a negative year, both lines of a built zone have 44 characters, and the
  -- zone is well formed.
  build_mrz_format :
      let m = build_mrz upper date i in
      (length m.line1 ≡ 44) × (length m.line2 ≡ 44) × (m.well_formed ≡ true)
  unfolding build_mrz pad
  build_mrz_format =
      let f = fields_of upper date i in
      let len = length-print_line2 f fields_of-IsSized in
      (
        length-pad_upper _ 44,
        len,
        ground (
          arith,
          len,
          text_eq_refl (check_digit f.doc_no),
          text_eq_refl (check_digit f.from),
          text_eq_refl (check_digit f.expiry),
          text_eq_refl (check_digit f.personal),
          text_eq_refl (check_digit (composite_of f)),
        ),
      )

  -- If neither of the two dates has a negative year, the second line of a built zone is accepted
  -- by the reader, which returns the fields it was printed from.
  pub read_mrz_line2-build_mrz :
      read_mrz_line2 (build_mrz upper date i).line2 ≡ (some (fields_of upper date i), true)
  unfolding build_mrz read_mrz_line2
  read_mrz_line2-build_mrz =
      let f = fields_of upper date i in
      let w = fields_of-IsSized in
      rw (
        length-print_line2 f w,
        composite_slice-print_line2 f w,
        slice-doc_no f w,
        slice-doc_digit f w,
        slice-from f w,
        slice-from_digit f w,
        slice-expiry f w,
        slice-expiry_digit f w,
        slice-personal f w,
        slice-personal_digit f w,
        slice-composite_digit f w,
        text_eq_refl (check_digit f.doc_no),
        text_eq_refl (check_digit f.from),
        text_eq_refl (check_digit f.expiry),
        text_eq_refl (check_digit f.personal),
        text_eq_refl (check_digit (composite_of f)),
      )
