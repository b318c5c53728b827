-- ===== src/App/Mrz/Read.antt =====
-- app/src/lib/mrz.ts: the two readers of the second line.
use zegel.Common.{◌≡◌, ◌↔◌, true, all, length, arith}
use zegel.Common.Text.{Text, text_eq_symm}
use zegel.App.Mrz.{
  row_agrees, check_digit, slice, composite_slice, ladder_from_line2, read_mrz_line2,
}

-- On a line of 44 characters the reader accepts exactly if every row of the ladder agrees.
read_mrz_line2_iff :
    (s : Text)
    → length s ≡ 44
    → ((read_mrz_line2 s).1 ≡ true) ↔ (all row_agrees (ladder_from_line2 s) ≡ true)
unfolding read_mrz_line2 ladder_from_line2
read_mrz_line2_iff s h =
    rw
      (
        h,
        text_eq_symm (slice 9 10 s) (check_digit (slice 0 9 s)),
        text_eq_symm (slice 19 20 s) (check_digit (slice 13 19 s)),
        text_eq_symm (slice 27 28 s) (check_digit (slice 21 27 s)),
        text_eq_symm (slice 42 43 s) (check_digit (slice 28 42 s)),
        text_eq_symm (slice 43 44 s) (check_digit (composite_slice s)),
      )
      (ground arith)
