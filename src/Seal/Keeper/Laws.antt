-- ===== src/Seal/Keeper/Laws.antt =====
-- packages/seal/src/keeper.ts: the log of receipts, read back.
use zegel.Common.{
  ◌≡◌, refl, sym, ap, ◌∙◌, ◌≢◌, ℕ, Bool, true, false, not, none, some, List, [], ◌∷◌, ◌++◌, all,
  All, length, ◌==◌, arith,
}
use mathlib.Core.List.{append_assoc, append-nil}
use zegel.Common.Text.{Text, codes, trim}
use zegel.Common.Result.{Result, ok, err, ◌>>=◌}
use zegel.Seal.Errors.{SealError, upstream}
use zegel.Seal.Receipt.{SealReceipt}
use zegel.Seal.Keeper.{ReceiptCodec, file_keeper, split_lines, parse_lines, read_kept_receipts}

abbrev pub is_line : Text → Bool
is_line s = all (λ x. not (x == 10)) s

-- The JSON of a receipt stands on one line, is not blank, and comes back.
pub record IsJsonLine (c : ReceiptCodec) (r : SealReceipt) : Type 0 where
  pub one_line : is_line (c.stringify r) ≡ true
  pub not_blank : length (trim (c.stringify r)) ≢ 0
  pub parses : c.parse (c.stringify r) ≡ some r

-- The text of a log.
abbrev pub log_of : ReceiptCodec → List SealReceipt → Text
log_of c [] = []
log_of c (r ∷ rs) = (c.stringify r ++ codes "\n") ++ log_of c rs

-- The file after the keeper has been given some receipts, one after the other.
abbrev pub keep_all : ReceiptCodec → List SealReceipt → Text → Text
keep_all c [] file = file
keep_all c (r ∷ rs) file = keep_all c rs (file_keeper c r file).1

keep_all-log_of :
    (c : ReceiptCodec) (rs : List SealReceipt) (file : Text)
    → keep_all c rs file ≡ file ++ log_of c rs
unfolding file_keeper
keep_all-log_of c [] file = sym (append-nil file)
keep_all-log_of c (r ∷ rs) file =
    keep_all-log_of c rs (file ++ (c.stringify r ++ codes "\n"))
    ∙ append_assoc file (c.stringify r ++ codes "\n") (log_of c rs)

split_lines-append :
    (l rest : Text) → is_line l ≡ true → split_lines (l ++ 10 ∷ rest) ≡ l ∷ split_lines rest
unfolding split_lines
split_lines-append [] rest h = refl
split_lines-append (x ∷ l) rest h = ground (arith, split_lines-append l rest)

split_last : (l : Text) → is_line l ≡ true → split_lines l ≡ l ∷ []
unfolding split_lines
split_last [] h = refl
split_last (x ∷ l) h = ground (arith, split_last l)

not_blank_test : (n : ℕ) → n ≢ 0 → (n == 0) ≡ false
not_blank_test n h = ground arith

nothing_added : (m : Result SealError (List SealReceipt)) → m ≡ (m >>= λ more. ok more)
nothing_added (ok rs) = refl
nothing_added (err e) = refl

one_more :
    (r : SealReceipt) (rs : List SealReceipt) (m : Result SealError (List SealReceipt))
    → ((m >>= λ more. ok (rs ++ more)) >>= λ ys. ok (r ∷ ys))
      ≡ (m >>= λ more. ok (r ∷ (rs ++ more)))
one_more r rs (ok ys) = refl
one_more r rs (err e) = refl

-- The log of some receipts, and a line behind it.
parse_log :
    (c : ReceiptCodec) (rs : List SealReceipt) (rest : Text)
    → All (IsJsonLine c) rs
    → parse_lines c (split_lines (log_of c rs ++ rest))
      ≡ (parse_lines c (split_lines rest) >>= λ more. ok (rs ++ more))
unfolding parse_lines
parse_log c [] rest h = nothing_added (parse_lines c (split_lines rest))
parse_log c (r ∷ rs) rest h =
    rw
      (
        append_assoc (c.stringify r ++ codes "\n") (log_of c rs) rest,
        append_assoc (c.stringify r) (codes "\n") (log_of c rs ++ rest),
        split_lines-append (c.stringify r) (log_of c rs ++ rest) h.0.one_line,
        not_blank_test (length (trim (c.stringify r))) h.0.not_blank,
        h.0.parses,
        parse_log c rs rest h.1,
      )
      (one_more r rs (parse_lines c (split_lines rest)))

parse_whole_log :
    (c : ReceiptCodec) (rs : List SealReceipt)
    → All (IsJsonLine c) rs
    → parse_lines c (split_lines (log_of c rs)) ≡ ok rs
unfolding parse_lines split_lines trim
parse_whole_log c rs h =
    ap (λ t. parse_lines c (split_lines t)) (sym (append-nil (log_of c rs)))
    ∙ parse_log c rs [] h
    ∙ ap ok (append-nil rs)

-- The log that held some receipts and was then given others is read back as all of them in that
-- order, if the JSON of each stands on one line, is not blank and parses to its receipt.
read_kept_receipts-keep_all :
    (c : ReceiptCodec) (kept rs : List SealReceipt)
    → All (IsJsonLine c) kept
    → All (IsJsonLine c) rs
    → read_kept_receipts c (some (keep_all c rs (log_of c kept))) ≡ ok (kept ++ rs)
unfolding read_kept_receipts
read_kept_receipts-keep_all c kept rs h k =
    rw (keep_all-log_of c rs (log_of c kept), parse_log c kept (log_of c rs) h)
      (rw (parse_whole_log c rs k) refl)

-- If a log ends in a line that is not blank and no JSON, as an append that was cut off leaves it,
-- reading the log fails, although every receipt before it stands there in full.
pub read_kept_receipts_torn :
    (c : ReceiptCodec) (kept : List SealReceipt) (part : Text)
    → All (IsJsonLine c) kept
    → is_line part ≡ true
    → length (trim part) ≢ 0
    → c.parse part ≡ none
    → read_kept_receipts c (some (log_of c kept ++ part)) ≡ err (upstream none)
unfolding read_kept_receipts parse_lines
read_kept_receipts_torn c kept part h line black torn =
    rw
      (
        parse_log c kept part h,
        split_last part line,
        not_blank_test (length (trim part)) black,
        torn,
      )
      refl
