-- ===== src/Seal/Pubkey/Laws.antt =====
-- packages/seal/src/pubkey.ts, `normaliseGrantees`: the keys of a normalised list.
use zegel.Common.{
  ◌≡◌, refl, ap, subst, ◌↔◌, Bool, true, false, ◌||◌, List, [], ◌∷◌, ◌++◌, all, any, arith,
  Bool-cases, inl, inr, if◌then◌else◌,
}
use zegel.Common.Text.{Text, text_eq, text_eq_iff, text_eq_symm}
use zegel.Common.Result.{Result, ok, err, Result-cases}
use zegel.Seal.Errors.{SealError}
use zegel.Seal.Pubkey.{grantee_public_key, normalise_from, normalise_grantees}

-- No text stands twice.
abbrev pub IsDistinct : List Text → Type 0
IsDistinct [] = Unit {0}
IsDistinct (x ∷ xs) = (any (text_eq x) xs ≡ false) × IsDistinct xs

any-append : (p : Text → Bool) (xs ys : List Text) → any p (xs ++ ys) ≡ (any p xs || any p ys)
any-append p [] ys = refl
any-append p (x ∷ xs) ys = ground (arith, any-append p xs ys)

append-IsDistinct :
    (xs : List Text) (n : Text)
    → any (text_eq n) xs ≡ false
    → IsDistinct xs
    → IsDistinct (xs ++ n ∷ [])
append-IsDistinct [] n h d = (refl, tt)
append-IsDistinct (x ∷ xs) n h (new, d) = (
  ground (arith, any-append (text_eq x) xs (n ∷ []), text_eq_symm x n),
  append-IsDistinct xs n (ground arith) d,
)

-- A text that is equal to one in the list is found like it.
any-text_eq :
    (k n : Text) (out : List Text) → text_eq k n ≡ true → any (text_eq k) out ≡ any (text_eq n) out
any-text_eq k n out e = ap (λ t. any (text_eq t) out) ((text_eq_iff k n).0 e)

module _ (on_curve : Text → Bool) where
  -- The key is accepted and `k` is its normal form.
  abbrev form_of : Text → Result SealError Text → Bool
  form_of k (ok n) = text_eq k n
  form_of k (err e) = false

  abbrev pub has_form : Text → Text → Bool
  has_form k key = form_of k (grantee_public_key on_curve key)

  added : Text → List Text → List Text
  added n out = if any (text_eq n) out then out else out ++ n ∷ []

  added-IsDistinct : (n : Text) (out : List Text) → IsDistinct out → IsDistinct (added n out)
  unfolding added
  added-IsDistinct n out d = elim (Bool-cases (any (text_eq n) out)) [
    | inl e ↦ rw e d
    | inr e ↦ rw e (append-IsDistinct out n e d)
  ]

  any-added :
      (k n : Text) (out : List Text)
      → any (text_eq k) (added n out) ≡ (any (text_eq k) out || text_eq k n)
  unfolding added
  any-added k n out = ground (arith, any-append (text_eq k) out (n ∷ []), any-text_eq k n out)

  normalise_from-IsDistinct :
      (out keys res : List Text)
      → normalise_from on_curve out keys ≡ ok res
      → IsDistinct out
      → IsDistinct res
  unfolding normalise_from added
  normalise_from-IsDistinct out [] res h d =
      let e : out ≡ res = ground arith in subst IsDistinct e d
  normalise_from-IsDistinct out (k ∷ ks) res h d =
      elim (Result-cases (grantee_public_key on_curve k)) [
        | inr (e, p) ↦ absurd (ground arith)
        | inl (n, p) ↦
            normalise_from-IsDistinct (added n out) ks res (ground arith) (added-IsDistinct n out d)
      ]

  any-normalise_from :
      (k : Text) (out keys res : List Text)
      → normalise_from on_curve out keys ≡ ok res
      → any (text_eq k) res ≡ (any (text_eq k) out || any (has_form k) keys)
  unfolding normalise_from added
  any-normalise_from k out [] res h = ground arith
  any-normalise_from k out (x ∷ xs) res h = elim (Result-cases (grantee_public_key on_curve x)) [
    | inr (e, p) ↦ absurd (ground arith)
    | inl (n, p) ↦
        let ih = any-normalise_from k (added n out) xs res (ground arith) in
        ground (arith, any-added k n out)
  ]

  -- A list of grantees that is accepted is normalised to one without repetitions, in which a text
  -- stands exactly if it is the normal form of one of the keys.
  normalise_grantees_lem :
      (k : Text) (keys out : List Text)
      → normalise_grantees on_curve keys ≡ ok out
      → IsDistinct out × (any (text_eq k) out ≡ any (has_form k) keys)
  unfolding normalise_grantees
  normalise_grantees_lem k keys out h =
      (normalise_from-IsDistinct [] keys out h tt, any-normalise_from k [] keys out h)

  abbrev is_ok : Result SealError Text → Bool
  is_ok (ok n) = true
  is_ok (err e) = false

  abbrev pub accepted : Text → Bool
  accepted key = is_ok (grantee_public_key on_curve key)

  normalise_from-accepted :
      (out keys : List Text)
      → (all accepted keys ≡ true)
        ↔ ((res : List Text) × (normalise_from on_curve out keys ≡ ok res))
  unfolding normalise_from added
  normalise_from-accepted out [] = (λ h. (out, refl), λ h. refl)
  normalise_from-accepted out (k ∷ ks) = elim (Result-cases (grantee_public_key on_curve k)) [
    | inr (e, p) ↦ (λ h. absurd (ground arith), λ (res, h). absurd (ground arith))
    | inl (n, p) ↦
        let ih = normalise_from-accepted (added n out) ks in
        (
          λ h. let (res, e) = ih.0 (ground arith) in (res, ground arith),
          λ (res, h). let rest = ih.1 (res, ground arith) in ground arith,
        )
  ]

  -- A list of grantees is accepted exactly if each of its keys is.
  normalise_grantees-accepted :
      (keys : List Text)
      → (all accepted keys ≡ true)
        ↔ ((out : List Text) × (normalise_grantees on_curve keys ≡ ok out))
  unfolding normalise_grantees
  normalise_grantees-accepted keys = normalise_from-accepted [] keys
