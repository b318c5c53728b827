-- ===== src/App/Mrz.antt =====
-- app/src/lib/mrz.ts: the machine-readable zone of a reference. Upper-casing (`upper`) and the UTC
-- year, month and day that `Date` reads from a text are parameters. The Dutch renderings for the
-- reader (`readable`) are left out.
pub mod Digits
pub mod Slices
pub mod Printed
pub mod Read
use zegel.Common.{
  ℕ, ◌+◌, ◌-◌, ◌*◌, ◌/◌, ◌%◌, Bool, true, false, ◌&&◌, ◌||◌, Option, none, some, List, [], ◌∷◌,
  ◌++◌, map, all, length, take, drop, replicate, leb, ltb, ◌==◌, if◌then◌else◌,
}
use zegel.Common.Int.{ℤ, pos, negsuc}
use zegel.Common.Text.{Text, codes, text_eq, to_lower_case}

abbrev pub mrz_line_length : ℕ
mrz_line_length = 44

abbrev pub issuing_namespace : Text
issuing_namespace = codes "ENS"

abbrev pub document_code : Text
document_code = codes "PZ"

abbrev pub filler : ℕ
filler = b'<'

abbrev pub char_value : ℕ → ℕ
char_value c =
    if leb b'0' c && leb c b'9' then c - 48 else if leb b'A' c && leb c b'Z' then c - 55 else 0

-- `weights[i % 3]`
abbrev pub weight : ℕ → ℕ
weight i = if i % 3 == 0 then 7 else if i % 3 == 1 then 3 else 1

-- The sum over the characters from place `i` on.
unfoldable pub weighted_sum : ℕ → Text → ℕ
weighted_sum i [] = 0
weighted_sum i (c ∷ cs) = char_value c * weight i + weighted_sum (i + 1) cs

-- A text of one digit.
unfoldable pub check_digit : Text → Text
check_digit input = (weighted_sum 0 input % 10 + 48) ∷ []

-- `/[^A-Z0-9<]/` becomes the filler
abbrev pub printable : ℕ → ℕ
printable c =
    if (leb b'A' c && leb c b'Z') || (leb b'0' c && leb c b'9') || c == filler then c else filler

-- `value` is upper-cased already.
unfoldable pub pad_upper : Text → ℕ → Text
pad_upper value n =
    let upper = map printable value in
    if leb n (length upper) then take n upper else upper ++ replicate (n - length upper) filler

abbrev pub slice : ℕ → ℕ → Text → Text
slice from to s = take (to - from) (drop from s)

-- `value.replace(/^0x/i, '')`
unfoldable pub strip_0x : Text → Text
strip_0x value = if text_eq (to_lower_case (take 2 value)) (codes "0x") then drop 2 value else value

-- The UTC parts of a date; the month counts from 0.
pub record DateParts : Type 0 where
  pub year : ℤ
  pub month : ℕ
  pub day : ℕ

-- `String(n).padStart(2, '0')`, for the numbers below 100 that it is called at.
abbrev pub two_digits : ℕ → Text
two_digits n = (n / 10 % 10 + 48) ∷ (n % 10 + 48) ∷ []

-- `String(n).padStart(2, '0')`, for a number below 100 after its sign.
abbrev pub below_hundred : ℕ → Text
below_hundred n = if ltb n 10 then (n + 48) ∷ [] else two_digits n

-- `String(year % 100).padStart(2, '0')`: the remainder has the sign of the year.
abbrev pub year_text : ℤ → Text
year_text (pos n) = two_digits (n % 100)
year_text (negsuc n) =
    let rest = (n + 1) % 100 in if rest == 0 then codes "00" else b'-' ∷ below_hundred rest

unfoldable pub yymmdd : Option DateParts → Text
yymmdd none = codes "<<<<<<"
yymmdd (some d) = year_text d.year ++ (two_digits (d.month + 1) ++ two_digits d.day)

pub record MrzInput : Type 0 where
  pub name : Option Text
  pub reference_id : Text
  pub commitment : Text
  pub record_from : Text
  pub expires_at : Text
  pub tier : ℕ

pub record MrzRow : Type 0 where
  pub value : Text
  pub printed : Text
  pub recomputed : Text

pub record Mrz : Type 0 where
  pub line1 : Text
  pub line2 : Text
  pub rows : List MrzRow
  pub well_formed : Bool

abbrev pub row_agrees : MrzRow → Bool
row_agrees r = text_eq r.printed r.recomputed

module _ (upper : Text → Text) where
  unfoldable pub pad : Text → ℕ → Text
  pad value n = pad_upper (upper value) n

  abbrev hex_body : Text → Text
  hex_body value = upper (strip_0x value)

  unfoldable pub document_number : Text → Text
  document_number reference_id = take 9 (codes "ZGL" ++ take 6 (hex_body reference_id))

  unfoldable pub personal_number : Text → ℕ → Text
  personal_number commitment tier =
      pad (codes "T" ++ ((tier % 10 + 48) ∷ take 12 (hex_body commitment))) 14

  -- `name.toUpperCase().replace(/\./g, '<')`
  abbrev holder : Option Text → Text
  holder none = codes "ZEGEL"
  holder (some name) = map (λ c. if c == b'.' then filler else c) (upper name)

  unfoldable pub name_field : Option Text → Text
  name_field name = pad (holder name ++ codes "<<REFERENTIE") 39

-- The fields of the second line, from which it is printed.
pub record Line2 : Type 0 where
  pub doc_no : Text
  pub from : Text
  pub expiry : Text
  pub personal : Text

unfoldable pub composite_of : Line2 → Text
composite_of f =
    f.doc_no
    ++ (check_digit f.doc_no
        ++ (f.from
            ++ (check_digit f.from
                ++ (f.expiry ++ (check_digit f.expiry ++ (f.personal ++ check_digit f.personal))))))

unfoldable pub print_line2 : Line2 → Text
print_line2 f =
    f.doc_no
    ++ (check_digit f.doc_no
        ++ (issuing_namespace
            ++ (f.from
                ++ (check_digit f.from
                    ++ ((filler ∷ [])
                        ++ (f.expiry
                            ++ (check_digit f.expiry
                                ++ (f.personal
                                    ++ (check_digit f.personal
                                        ++ check_digit (composite_of f))))))))))

abbrev pub row : Text → Text → MrzRow
row value digit = record { value = value; printed = digit; recomputed = check_digit value }

-- The composite row shows a list of places in place of the characters.
abbrev pub composite_row : Text → Text → MrzRow
composite_row composite digit = record {
  value = codes "velden 1-10, 14-20, 22-43";
  printed = digit;
  recomputed = check_digit composite;
}

module _ (upper : Text → Text) (date : Text → Option DateParts) where
  abbrev pub fields_of : MrzInput → Line2
  fields_of i = record {
    doc_no = pad upper (document_number upper i.reference_id) 9;
    from = yymmdd (date i.record_from);
    expiry = yymmdd (date i.expires_at);
    personal = personal_number upper i.commitment i.tier;
  }

  unfoldable pub build_mrz : MrzInput → Mrz
  build_mrz i =
      let f = fields_of i in
      let rows : List MrzRow =
        row f.doc_no (check_digit f.doc_no)
        ∷ row f.from (check_digit f.from)
        ∷ row f.expiry (check_digit f.expiry)
        ∷ row f.personal (check_digit f.personal)
        ∷ composite_row (composite_of f) (check_digit (composite_of f))
        ∷ [] in
      record {
        line1 =
            pad upper (document_code ++ (issuing_namespace ++ name_field upper i.name))
              mrz_line_length;
        line2 = print_line2 f;
        rows = rows;
        well_formed = all row_agrees rows && length (print_line2 f) == mrz_line_length;
      }

abbrev pub composite_slice : Text → Text
composite_slice s =
    slice 0 9 s
    ++ (slice 9 10 s
        ++ (slice 13 19 s
            ++ (slice 19 20 s
                ++ (slice 21 27 s ++ (slice 27 28 s ++ (slice 28 42 s ++ slice 42 43 s))))))

unfoldable pub ladder_from_line2 : Text → List MrzRow
ladder_from_line2 s =
    if length s == mrz_line_length
    then row (slice 0 9 s) (slice 9 10 s)
      ∷ row (slice 13 19 s) (slice 19 20 s)
      ∷ row (slice 21 27 s) (slice 27 28 s)
      ∷ row (slice 28 42 s) (slice 42 43 s)
      ∷ composite_row (composite_slice s) (slice 43 44 s)
      ∷ []
    else []

unfoldable pub read_mrz_line2 : Text → Option Line2 × Bool
read_mrz_line2 s =
    if length s == mrz_line_length
    then (
      some (record {
        doc_no = slice 0 9 s;
        from = slice 13 19 s;
        expiry = slice 21 27 s;
        personal = slice 28 42 s;
      }),
      text_eq (check_digit (slice 0 9 s)) (slice 9 10 s)
          && (text_eq (check_digit (slice 13 19 s)) (slice 19 20 s)
              && (text_eq (check_digit (slice 21 27 s)) (slice 27 28 s)
                  && (text_eq (check_digit (slice 28 42 s)) (slice 42 43 s)
                      && text_eq (check_digit (composite_slice s)) (slice 43 44 s)))),
    )
    else (none, false)
