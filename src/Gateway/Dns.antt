-- ===== src/Gateway/Dns.antt =====
-- gateway/src/dns.ts: DNS wire format to a dotted name.
pub mod Laws
use zegel.Common.{
  ℕ, zero, suc, ◌+◌, Option, none, some, List, [], ◌∷◌, ◌++◌, length, take, drop, ltb, ◌==◌,
  if◌then◌else◌,
}
use zegel.Common.Text.{Text, codes}
use zegel.Common.Result.{Result, ok, err}
use zegel.Gateway.Failure.{Failure, bad_request, undecodable_name}

abbrev pub max_label_length : ℕ
max_label_length = 63

abbrev cons_label : Text → Result Failure (List Text) → Result Failure (List Text)
cons_label l (ok ls) = ok (l ∷ ls)
cons_label l (err e) = err e

abbrev after_root : List ℕ → Result Failure (List Text)
after_root [] = ok []
after_root (b ∷ bs) = err (bad_request undecodable_name)

-- The loop: `bytes` is what stands from `offset` on. A round takes at least one byte, so the length
-- of the name is fuel enough; `none` means that the fuel ran out.
unfoldable pub labels_from :
    (List ℕ → Option Text) → ℕ → List ℕ → Option (Result Failure (List Text))
labels_from utf8 zero bytes = none
labels_from utf8 (suc fuel) [] = some (err (bad_request undecodable_name))
labels_from utf8 (suc fuel) (n ∷ bytes) =
    let rest = labels_from utf8 fuel (drop n bytes) in
    if n == 0
    then some (after_root bytes)
    else if ltb max_label_length n
    then some (err (bad_request undecodable_name))
    else if ltb (length bytes) n
    then some (err (bad_request undecodable_name))
    else elim (utf8 (take n bytes)) [
      | none ↦ some (err (bad_request undecodable_name))
      | some label ↦ elim rest [ none ↦ none | some r ↦ some (cons_label label r) ]
    ]

-- `labels.join('.')`
abbrev pub join : List Text → Text
join [] = []
join (l ∷ []) = l
join (l ∷ m ∷ ls) = l ++ codes "." ++ join (m ∷ ls)

abbrev pub joined : Option (Result Failure (List Text)) → Result Failure Text
joined none = err (bad_request undecodable_name)
joined (some (ok ls)) = ok (join ls)
joined (some (err e)) = err e

unfoldable pub decode_dns_name : (List ℕ → Option Text) → List ℕ → Result Failure Text
decode_dns_name utf8 bytes = joined (labels_from utf8 (length bytes + 1) bytes)
