-- ===== src/Sdk/Canonical/Laws.antt =====
-- packages/sdk/src/canonical.ts: what the encoding does not depend on.
use zegel.Common.{
  ◌≡◌, refl, sym, ◌∙◌, ap, ◌≢◌, ◌↔◌, Bool, true, false, not, List, [], ◌∷◌, arith, if◌then◌else◌,
}
use zegel.Common.Bits.{differences_iff}
use zegel.Common.Result.{Result, ok}
use zegel.Common.Text.{Text, codes, text_eq, text_eq_iff}
use zegel.Sdk.Canonical.{
  Value, Items, Fields, undefined, null, boolean, number, non_finite_number, bigint, string,
  function_or_symbol, EncodeError, first_then, in_brackets, in_braces, array, object, nil, cons,
  end, field, Writer, Entry, Hashing, text_ltb, insert_entry, sort_entries, write_entries, encode,
  encode_items, encode_fields, canonicalize, canonical_digest, digests_equal,
}

-- Of two different texts exactly one is below the other.
text_ltb_total : (x y : Text) → text_eq x y ≡ false → text_ltb x y ≡ not (text_ltb y x)
unfolding text_ltb text_eq
text_ltb_total [] [] d = absurd cc
text_ltb_total [] (y ∷ ys) d = refl
text_ltb_total (x ∷ xs) [] d = refl
text_ltb_total (x ∷ xs) (y ∷ ys) d = ground (arith, text_ltb_total xs ys)

-- What is not above a text below y is below y.
text_ltb_trans : (x y z : Text) → text_ltb z y ≡ false → text_ltb z x ≡ true → text_ltb y x ≡ true
unfolding text_ltb
text_ltb_trans [] y [] h k = absurd cc
text_ltb_trans [] y (z ∷ zs) h k = absurd cc
text_ltb_trans (x ∷ xs) [] z h k = refl
text_ltb_trans (x ∷ xs) (y ∷ ys) [] h k = absurd cc
text_ltb_trans (x ∷ xs) (y ∷ ys) (z ∷ zs) h k = ground (arith, text_ltb_trans xs ys zs)

insert_entry_comm :
    (x y : Entry) (l : List Entry)
    → text_eq x.0 y.0 ≡ false
    → insert_entry x (insert_entry y l) ≡ insert_entry y (insert_entry x l)
unfolding insert_entry
insert_entry_comm x y [] d = ground (arith, text_ltb_total x.0 y.0 d)
insert_entry_comm x y (z ∷ l) d = ground (
  arith,
  text_ltb_total x.0 y.0 d,
  text_ltb_trans x.0 y.0 z.0,
  text_ltb_trans y.0 x.0 z.0,
  insert_entry_comm x y l d,
)

-- Values that differ at most in the order of the fields of their objects, in fields that are
-- `undefined`, and in elements of arrays that are `undefined` or `null`.
mutual
  pub data Same : Value → Value → Type 0 where
    same : (v : Value) → Same v v
    arrays : {xs ys : Items} → SameItems xs ys → Same (array xs) (array ys)
    objects : {fs gs : Fields} → SameFields fs gs → Same (object fs) (object gs)

  pub data SameItems : Items → Items → Type 0 where
    no_items : SameItems nil nil
    items :
        {v w : Value} {xs ys : Items}
        → Same v w
        → SameItems xs ys
        → SameItems (cons v xs) (cons w ys)
    gap : {xs ys : Items} → SameItems xs ys → SameItems (cons undefined xs) (cons null ys)

  pub data SameFields : Fields → Fields → Type 0 where
    no_fields : SameFields end end
    fields :
        (k : Text) {v w : Value} {fs gs : Fields}
        → Same v w
        → SameFields fs gs
        → SameFields (field k v fs) (field k w gs)
    swapped :
        (k j : Text) (v w : Value) (fs : Fields)
        → k ≢ j
        → SameFields (field k v (field j w fs)) (field j w (field k v fs))
    dropped : (k : Text) (fs : Fields) → SameFields (field k undefined fs) fs
    reversed : {fs gs : Fields} → SameFields fs gs → SameFields gs fs
    in_turn : {fs gs hs : Fields} → SameFields fs gs → SameFields gs hs → SameFields fs hs

abbrev is_undefined : Value → Bool
is_undefined undefined = true
is_undefined v = false

abbrev item_text : Writer → Value → Result EncodeError Text
item_text w v = if is_undefined v then ok (codes "null") else encode w v

abbrev with_member : Writer → Text → Value → List Entry → List Entry
with_member w k v es = if is_undefined v then es else insert_entry (k, encode w v) es

encode_items-cons :
    (w : Writer) (v : Value) (xs : Items)
    → encode_items w (cons v xs) ≡ first_then (item_text w v) (encode_items w xs)
unfolding encode
encode_items-cons w undefined xs = refl
encode_items-cons w null xs = refl
encode_items-cons w (boolean b) xs = refl
encode_items-cons w (number n) xs = refl
encode_items-cons w non_finite_number xs = refl
encode_items-cons w (bigint n) xs = refl
encode_items-cons w (string s) xs = refl
encode_items-cons w (array ys) xs = refl
encode_items-cons w (object gs) xs = refl
encode_items-cons w function_or_symbol xs = refl

sort_entries-field :
    (w : Writer) (k : Text) (v : Value) (fs : Fields)
    → sort_entries (encode_fields w (field k v fs))
      ≡ with_member w k v (sort_entries (encode_fields w fs))
unfolding encode sort_entries
sort_entries-field w k undefined fs = refl
sort_entries-field w k null fs = refl
sort_entries-field w k (boolean b) fs = refl
sort_entries-field w k (number n) fs = refl
sort_entries-field w k non_finite_number fs = refl
sort_entries-field w k (bigint n) fs = refl
sort_entries-field w k (string s) fs = refl
sort_entries-field w k (array ys) fs = refl
sort_entries-field w k (object gs) fs = refl
sort_entries-field w k function_or_symbol fs = refl

with_member_comm :
    (w : Writer) (k j : Text) (v u : Value) (es : List Entry)
    → k ≢ j
    → with_member w k v (with_member w j u es) ≡ with_member w j u (with_member w k v es)
with_member_comm w k j v u es d =
    ground (arith, text_eq_iff k j, insert_entry_comm (k, encode w v) (j, encode w u) es)

-- Values that are the same are undefined together.
is_undefined-Same : (a b : Value) → Same a b → is_undefined a ≡ is_undefined b
is_undefined-Same _ _ (same v) = refl
is_undefined-Same _ _ (arrays h) = refl
is_undefined-Same _ _ (objects h) = refl

mutual
  unfolding encode

  encode-Same : (w : Writer) (a b : Value) → Same a b → encode w a ≡ encode w b
  encode-Same w _ _ (same v) = refl
  encode-Same w _ _ (arrays {xs = xs} {ys = ys} h) = ap in_brackets (encode_items-Same w xs ys h)
  encode-Same w _ _ (objects {fs = fs} {gs = gs} h) =
      ap (λ es. in_braces (write_entries w es)) (sort_entries-Same w fs gs h)

  encode_items-Same :
      (w : Writer) (xs ys : Items) → SameItems xs ys → encode_items w xs ≡ encode_items w ys
  encode_items-Same w _ _ no_items = refl
  encode_items-Same w _ _ (items {v = v} {w = u} {xs = xs} {ys = ys} h k) =
      rw
        (
          encode_items-cons w v xs,
          encode_items-cons w u ys,
          is_undefined-Same v u h,
          encode-Same w v u h,
          encode_items-Same w xs ys k,
        )
        refl
  encode_items-Same w _ _ (gap {xs = xs} {ys = ys} k) =
      ap (first_then (ok (codes "null"))) (encode_items-Same w xs ys k)

  sort_entries-Same :
      (w : Writer) (fs gs : Fields)
      → SameFields fs gs
      → sort_entries (encode_fields w fs) ≡ sort_entries (encode_fields w gs)
  sort_entries-Same w _ _ no_fields = refl
  sort_entries-Same w _ _ (fields k {v = v} {w = u} {fs = fs} {gs = gs} h m) =
      rw
        (
          sort_entries-field w k v fs,
          sort_entries-field w k u gs,
          is_undefined-Same v u h,
          encode-Same w v u h,
          sort_entries-Same w fs gs m,
        )
        refl
  sort_entries-Same w _ _ (swapped k j v u fs d) =
      rw
        (
          sort_entries-field w k v (field j u fs),
          sort_entries-field w j u fs,
          sort_entries-field w j u (field k v fs),
          sort_entries-field w k v fs,
        )
        (with_member_comm w k j v u (sort_entries (encode_fields w fs)) d)
  sort_entries-Same w _ _ (dropped k fs) = sort_entries-field w k undefined fs
  sort_entries-Same w _ _ (reversed {fs = fs} {gs = gs} h) = sym (sort_entries-Same w fs gs h)
  sort_entries-Same w _ _ (in_turn {fs = fs} {gs = gs} {hs = hs} h k) =
      sort_entries-Same w fs gs h ∙ sort_entries-Same w gs hs k

-- Values that differ at most in the order of the fields of their objects, in fields that are
-- undefined, and in elements of arrays that are undefined or null, have the same canonical
-- digest, or the same error.
pub canonical_digest-Same :
    (w : Writer) (h : Hashing) (a b : Value)
    → Same a b
    → canonical_digest w h a ≡ canonical_digest w h b
unfolding canonical_digest canonicalize
canonical_digest-Same w h a b s = rw (encode-Same w a b s) refl

-- The comparison of digests is true exactly if they are the same text.
pub digests_equal_iff : (a b : Text) → (digests_equal a b ≡ true) ↔ (a ≡ b)
unfolding digests_equal
digests_equal_iff a b = ground (arith, differences_iff 0 a b)
