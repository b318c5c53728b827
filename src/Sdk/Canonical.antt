-- ===== src/Sdk/Canonical.antt =====
-- packages/sdk/src/canonical.ts: the canonical encoding of a value and its digest.
pub mod Laws
use zegel.Common.{
  ℕ, Bool, true, false, Option, none, some, List, [], ◌∷◌, ◌++◌, length, ltb, ◌==◌, ◌&&◌, ◌||◌,
  if◌then◌else◌,
}
use zegel.Common.Bits.{differences}
use zegel.Common.Int.{ℤ}
use zegel.Common.Text.{Text, codes, text_eq}
use zegel.Common.Result.{Result, ok, err, ◌>>=◌}

-- A JavaScript value. A number is the bit pattern of a finite double; an object is its own enumerable
-- fields, of distinct names, in the order of `Object.entries`, and an array has no gaps.
mutual
  pub data Value : Type 0 where
    undefined null : Value
    boolean : Bool → Value
    number : ℕ → Value
    non_finite_number : Value
    bigint : ℤ → Value
    string : Text → Value
    array : Items → Value
    object : Fields → Value
    function_or_symbol : Value

  pub data Items : Type 0 where
    nil : Items
    cons : Value → Items → Items

  pub data Fields : Type 0 where
    end : Fields
    field : Text → Value → Fields → Fields

-- `object[name]`, with `none` for a field that is not there.
unfoldable pub member : Text → Fields → Option Value
member name end = none
member name (field k v fs) = if text_eq k name then some v else member name fs

-- `JSON.stringify` of a string and of a number, and `toString` of a bigint.
pub record Writer : Type 0 where
  pub string_json : Text → Text
  pub number_json : ℕ → Text
  pub bigint_text : ℤ → Text

-- The two messages of a `TypeError`.
pub data EncodeError : Type 0 where
  non_finite not_canonicalizable : EncodeError

-- `a < b` on strings
unfoldable pub text_ltb : Text → Text → Bool
text_ltb [] [] = false
text_ltb [] (y ∷ ys) = true
text_ltb (x ∷ xs) [] = false
text_ltb (x ∷ xs) (y ∷ ys) = ltb x y || (x == y && text_ltb xs ys)

abbrev pub Entry : Type 0
Entry = Text × Result EncodeError Text

unfoldable pub insert_entry : Entry → List Entry → List Entry
insert_entry x [] = x ∷ []
insert_entry x (y ∷ ys) =
    let rest = insert_entry x ys in if text_ltb y.0 x.0 then y ∷ rest else x ∷ y ∷ ys

-- `entries.sort(([a], [b]) => …)`
unfoldable pub sort_entries : List Entry → List Entry
sort_entries [] = []
sort_entries (x ∷ xs) = insert_entry x (sort_entries xs)

-- `join(',')`
unfoldable pub join_commas : List Text → Text
join_commas [] = []
join_commas (t ∷ []) = t
join_commas (t ∷ u ∷ ts) = t ++ codes "," ++ join_commas (u ∷ ts)

-- `entries.map(([k, v]) => …)`, which stops at the first entry that throws.
unfoldable pub write_entries : Writer → List Entry → Result EncodeError (List Text)
write_entries w [] = ok []
write_entries w ((k, r) ∷ es) = do
  t ← r
  ts ← write_entries w es
  ok ((w.string_json k ++ codes ":" ++ t) ∷ ts)

abbrev in_brackets : Result EncodeError (List Text) → Result EncodeError Text
in_brackets (ok ts) = ok (codes "[" ++ join_commas ts ++ codes "]")
in_brackets (err e) = err e

abbrev in_braces : Result EncodeError (List Text) → Result EncodeError Text
in_braces (ok ts) = ok (codes "{" ++ join_commas ts ++ codes "}")
in_braces (err e) = err e

-- The text of an element, or its error, before those of the other elements.
abbrev first_then :
    Result EncodeError Text → Result EncodeError (List Text) → Result EncodeError (List Text)
first_then (ok t) (ok ts) = ok (t ∷ ts)
first_then (ok t) (err e) = err e
first_then (err e) rest = err e

unfoldable mutual
  pub encode : Writer → Value → Result EncodeError Text
  encode w undefined = err not_canonicalizable
  encode w null = ok (codes "null")
  encode w (boolean b) = ok (if b then codes "true" else codes "false")
  encode w (number n) = ok (w.number_json n)
  encode w non_finite_number = err non_finite
  encode w (bigint n) = ok (w.string_json (w.bigint_text n))
  encode w (string s) = ok (w.string_json s)
  encode w (array xs) = in_brackets (encode_items w xs)
  encode w (object fs) = in_braces (write_entries w (sort_entries (encode_fields w fs)))
  encode w function_or_symbol = err not_canonicalizable

  -- `encode(v === undefined ? null : v)`
  pub encode_items : Writer → Items → Result EncodeError (List Text)
  encode_items w nil = ok []
  encode_items w (cons undefined xs) = first_then (ok (codes "null")) (encode_items w xs)
  encode_items w (cons v xs) = first_then (encode w v) (encode_items w xs)

  -- The members that are not `undefined`, each with its encoding.
  pub encode_fields : Writer → Fields → List Entry
  encode_fields w end = []
  encode_fields w (field k undefined fs) = encode_fields w fs
  encode_fields w (field k v fs) = (k, encode w v) ∷ encode_fields w fs

-- What `@noble/hashes` provides.
pub record Hashing : Type 0 where
  pub utf8_to_bytes : Text → List ℕ
  pub sha256 : List ℕ → List ℕ
  pub bytes_to_hex : List ℕ → Text

unfoldable pub canonicalize : Writer → Value → Result EncodeError Text
canonicalize w value = encode w value

unfoldable pub canonical_digest : Writer → Hashing → Value → Result EncodeError Text
canonical_digest w h value = do
  text ← canonicalize w value
  ok (codes "0x" ++ h.bytes_to_hex (h.sha256 (h.utf8_to_bytes text)))

unfoldable pub digests_equal : Text → Text → Bool
digests_equal a b = if length a == length b then differences 0 a b == 0 else false
