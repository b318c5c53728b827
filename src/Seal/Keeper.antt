-- ===== src/Seal/Keeper.antt =====
-- packages/seal/src/keeper.ts: where receipts are kept. The file system's answers are arguments.
pub mod Laws
use zegel.Common.{
  ℕ, Bool, true, false, not, Option, none, some, List, [], ◌∷◌, ◌++◌, length, ltb, ◌==◌,
  if◌then◌else◌,
}
use zegel.Common.Text.{Text, codes, trim}
use zegel.Common.Result.{Result, ok, err, ◌>>=◌, or_throw}
use zegel.Seal.Errors.{SealError, upstream}
use zegel.Seal.Receipt.{SealReceipt}

-- A keeper with its state: it keeps a receipt, or throws.
abbrev pub Keeper : Type 0 → Type 0
Keeper S = SealReceipt → S → Result SealError (Unit {0}) × S

abbrev pub after :
    {S : Type 0}
    → Result SealError (Unit {0}) × S
    → (S → Result SealError (Unit {0}) × S)
    → Result SealError (Unit {0}) × S
after (ok u, s) f = f s
after (err e, s) f = (err e, s)

-- `memoryKeeper`, whose state is `receipts`
unfoldable pub memory_keeper : Keeper (List SealReceipt)
memory_keeper r kept = (ok tt, kept ++ r ∷ [])

-- `JSON.stringify` and `JSON.parse` at the type that the code casts to.
pub record ReceiptCodec : Type 0 where
  pub stringify : SealReceipt → Text
  pub parse : Text → Option SealReceipt

-- `fileKeeper`, whose state is the text of the file.
unfoldable pub file_keeper : ReceiptCodec → Keeper Text
file_keeper c r file = (ok tt, file ++ (c.stringify r ++ codes "\n"))

-- The loop of `allKeepers`: a keeper that throws ends it.
unfoldable pub all_keepers : {S : Type 0} → List (Keeper S) → Keeper S
all_keepers [] r s = (ok tt, s)
all_keepers (k ∷ ks) r s = after (k r s) (all_keepers ks r)

abbrev onto_first : ℕ → List Text → List Text
onto_first c [] = (c ∷ []) ∷ []
onto_first c (l ∷ ls) = (c ∷ l) ∷ ls

-- `text.split('\n')`
unfoldable pub split_lines : Text → List Text
split_lines [] = [] ∷ []
split_lines (c ∷ s) = let rest = split_lines s in if c == 10 then [] ∷ rest else onto_first c rest

-- `.filter(…).map(…)`: a line that is no JSON throws.
unfoldable pub parse_lines : ReceiptCodec → List Text → Result SealError (List SealReceipt)
parse_lines c [] = ok []
parse_lines c (l ∷ ls) =
    let rest = parse_lines c ls in
    if length (trim l) == 0
    then rest
    else do r ← or_throw (c.parse l) (upstream none); rs ← rest; ok (r ∷ rs)

abbrev or_blank : Option Text → Text
or_blank none = []
or_blank (some text) = text

-- `none` is a file that cannot be read.
unfoldable pub read_kept_receipts : ReceiptCodec → Option Text → Result SealError (List SealReceipt)
read_kept_receipts c file = parse_lines c (split_lines (or_blank file))
