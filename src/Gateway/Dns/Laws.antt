-- ===== src/Gateway/Dns/Laws.antt =====
-- gateway/src/dns.ts: decoded names and the wire format.
use zegel.Common.{
  ℕ, zero, suc, ◌+◌, ◌≡◌, refl, ◌≢◌, ◌↔◌, ◌≤◌, ◌<◌, Option, none, some, List, [], ◌∷◌, ◌++◌, length,
  take, drop, All, arith, length-drop, length-take, take-append-drop, length-append, ◌⊎◌,
  take-append, drop-append, Option-cases, inl, inr,
}
use zegel.Common.Text.{Text}
use zegel.Common.Result.{Result, ok, err}
use zegel.Gateway.Failure.{Failure}
use zegel.Gateway.Dns.{labels_from, decode_dns_name, join, joined}

-- The wire format of a name whose labels are these bytes.
abbrev pub wire : List (List ℕ) → List ℕ
wire [] = 0 ∷ []
wire (l ∷ ls) = length l ∷ (l ++ wire ls)

-- The label as text, one to 63 bytes long.
abbrev pub IsLabel : (List ℕ → Option Text) → List ℕ × Text → Type 0
IsLabel utf8 (l, t) = (0 < length l) × (length l ≤ 63) × (utf8 l ≡ some t)

abbrev pub bytes_of : List (List ℕ × Text) → List (List ℕ)
bytes_of [] = []
bytes_of ((l, t) ∷ ls) = l ∷ bytes_of ls

abbrev pub texts_of : List (List ℕ × Text) → List Text
texts_of [] = []
texts_of ((l, t) ∷ ls) = t ∷ texts_of ls

-- The fuel suffices.
labels_from-ne-none :
    (utf8 : List ℕ → Option Text) (fuel : ℕ) (bytes : List ℕ)
    → length bytes < fuel
    → labels_from utf8 fuel bytes ≢ none
unfolding labels_from
labels_from-ne-none utf8 zero bytes h = absurd (omega arith)
labels_from-ne-none utf8 (suc fuel) [] h = cc
labels_from-ne-none utf8 (suc fuel) (n ∷ bytes) h =
    let ih = labels_from-ne-none utf8 fuel (drop n bytes) (omega (arith, length-drop n bytes)) in
    ground arith

-- One round at a label.
labels_from-label :
    (utf8 : List ℕ → Option Text) (fuel n : ℕ) (bytes : List ℕ) (t : Text) (ts : List Text)
    → 0 < n
    → n ≤ 63
    → n ≤ length bytes
    → utf8 (take n bytes) ≡ some t
    → labels_from utf8 fuel (drop n bytes) ≡ some (ok ts)
    → labels_from utf8 (suc fuel) (n ∷ bytes) ≡ some (ok (t ∷ ts))
unfolding labels_from
labels_from-label utf8 fuel n bytes t ts pos max fits text rest = ground arith

-- What is encoded is decoded.
labels_from-wire :
    (utf8 : List ℕ → Option Text) (ls : List (List ℕ × Text)) (fuel : ℕ)
    → All (IsLabel utf8) ls
    → length (wire (bytes_of ls)) < fuel
    → labels_from utf8 fuel (wire (bytes_of ls)) ≡ some (ok (texts_of ls))
labels_from-wire utf8 ls zero v h = absurd (omega arith)
labels_from-wire utf8 [] (suc fuel) v h = unfold labels_from in refl
labels_from-wire utf8 ((l, t) ∷ ls) (suc fuel) (v, vs) h =
    let len = length-append l (wire (bytes_of ls)) in
    let ih : labels_from utf8 fuel (wire (bytes_of ls)) ≡ some (ok (texts_of ls)) =
      labels_from-wire utf8 ls fuel vs (omega arith) in
    let e1 = take-append l (wire (bytes_of ls)) (length l) refl in
    let e2 = drop-append l (wire (bytes_of ls)) (length l) refl in
    labels_from-label utf8 fuel (length l) (l ++ wire (bytes_of ls)) t (texts_of ls) v.0 v.1
      (omega arith) (rw e1 v.2) (rw e2 ih)

-- The round that a successful decoding begins with.
labels_from-eq-ok :
    (utf8 : List ℕ → Option Text) (fuel n : ℕ) (bytes : List ℕ) (ts : List Text)
    → labels_from utf8 (suc fuel) (n ∷ bytes) ≡ some (ok ts)
    → ((n ≡ 0) × (bytes ≡ []) × (ts ≡ []))
      ⊎ ((t : Text) × (us : List Text) × (ts ≡ t ∷ us)
          × (0 < n)
          × (n ≤ 63)
          × (n ≤ length bytes)
          × (utf8 (take n bytes) ≡ some t)
          × (labels_from utf8 fuel (drop n bytes) ≡ some (ok us)))
unfolding labels_from
labels_from-eq-ok utf8 fuel zero [] ts h = inl (refl, refl, ground arith)
labels_from-eq-ok utf8 fuel zero (b ∷ bytes) ts h = absurd (ground arith)
labels_from-eq-ok utf8 fuel (suc n) bytes ts h = elim (Option-cases (utf8 (take (suc n) bytes))) [
  | inl e ↦ absurd (ground arith)
  | inr (t, e) ↦ elim (Option-cases (labels_from utf8 fuel (drop (suc n) bytes))) [
    | inl f ↦ absurd (ground arith)
    | inr (err x, f) ↦ absurd (ground arith)
    | inr (ok us, f) ↦ inr (t, us, ground arith, omega arith, ground arith, ground arith, e, f)
  ]
]

-- What is decoded was encoded.
wire-labels_from :
    (utf8 : List ℕ → Option Text) (fuel : ℕ) (bytes : List ℕ) (ts : List Text)
    → labels_from utf8 fuel bytes ≡ some (ok ts)
    → (ls : List (List ℕ × Text)) × All (IsLabel utf8) ls
      × (bytes ≡ wire (bytes_of ls))
      × (ts ≡ texts_of ls)
wire-labels_from utf8 zero bytes ts h = absurd (unfold labels_from in cc)
wire-labels_from utf8 (suc fuel) [] ts h = absurd (unfold labels_from in cc)
wire-labels_from utf8 (suc fuel) (n ∷ bytes) ts h =
    elim (labels_from-eq-ok utf8 fuel n bytes ts h) [
      | inl (e0, e1, e2) ↦ ([], tt, cc, e2)
      | inr (t, us, e, pos, max, fits, text, rest) ↦
          let (ls, valid, e1, e2) = wire-labels_from utf8 fuel (drop n bytes) us rest in
          let len : length (take n bytes) ≡ n = omega (arith, length-take n bytes) in
          (
            (take n bytes, t) ∷ ls,
            ((omega arith, omega arith, text), valid),
            cc (len, e1, take-append-drop n bytes),
            cc (e, e2),
          )
    ]

abbrev joined_of : Option (Result Failure (List Text)) → Result Failure Text
joined_of o = joined o

eq-ok_of_joined :
    (o : Option (Result Failure (List Text))) (name : Text)
    → joined_of o ≡ ok name
    → (ts : List Text) × (o ≡ some (ok ts)) × (name ≡ join ts)
eq-ok_of_joined none name h = absurd (cc)
eq-ok_of_joined (some (ok ts)) name h = (ts, refl, cc)
eq-ok_of_joined (some (err e)) name h = absurd (cc)

-- A name is decoded to a text exactly if the bytes are the wire format of labels of one to 63
-- bytes of valid UTF-8, with nothing behind the root label, and the text is those labels joined
-- by dots.
pub decode_dns_name_iff :
    (utf8 : List ℕ → Option Text) (bytes : List ℕ) (name : Text)
    → (decode_dns_name utf8 bytes ≡ ok name) ↔ (
        (ls : List (List ℕ × Text)) × All (IsLabel utf8) ls
        × (bytes ≡ wire (bytes_of ls))
        × (name ≡ join (texts_of ls)))
unfolding decode_dns_name
decode_dns_name_iff utf8 bytes name = (to, from)
  where
    to :
        decode_dns_name utf8 bytes ≡ ok name
        → (ls : List (List ℕ × Text)) × All (IsLabel utf8) ls
          × (bytes ≡ wire (bytes_of ls))
          × (name ≡ join (texts_of ls))
    to h =
        let (ts, e, named) = eq-ok_of_joined (labels_from utf8 (length bytes + 1) bytes) name h in
        let (ls, valid, e1, e2) = wire-labels_from utf8 (length bytes + 1) bytes ts e in
        (ls, valid, e1, cc (named, e2))

    from :
        ((ls : List (List ℕ × Text)) × All (IsLabel utf8) ls
          × (bytes ≡ wire (bytes_of ls))
          × (name ≡ join (texts_of ls)))
        → decode_dns_name utf8 bytes ≡ ok name
    from (ls, valid, e1, e2) =
        let e = labels_from-wire utf8 ls (length (wire (bytes_of ls)) + 1) valid (omega arith) in
        rw (e1, e2, e) refl
