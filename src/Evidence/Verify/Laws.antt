-- ===== src/Evidence/Verify/Laws.antt =====
-- packages/evidence/src/verify.ts: when each part of the check finds nothing.
use zegel.Common.{
  ◌≡◌, refl, sym, ap, ◌∙◌, ◌↔◌, true, false, Option, none, some, List, [], ◌∷◌, ◌++◌, All,
  if◌then◌else◌, Bool-cases, inl, inr,
}
use zegel.Common.Text.{Text, text_eq, text_eq_iff}
use zegel.Common.JsMap.{get, lacks}
use zegel.Common.Result.{Result, ok, err, ◌>>=◌, bind-eq-ok, ok-inj}
use zegel.Sdk.Canonical.{Value, EncodeError, canonicalize, canonical_digest, digests_equal}
use zegel.Sdk.Canonical.Laws.{digests_equal_iff}
use zegel.Evidence.Bundle.{Claim, EvidenceSource, Unavailable}
use zegel.Evidence.Claims.{ClaimError}
use zegel.Evidence.Verify.{derived_or}
use zegel.Evidence.Verify.{
  Mismatch, VerifyError, FieldName, Checker, encoded, collect, body_mismatch, source_mismatch,
  keys_lacking, field_value, field_mismatch, stated_mismatch, claim_mismatch, claim_fields,
  is_empty, other_digest, other_field,
}

pub All-mono {ℓ} :
    {X : Type ℓ} (P Q : X → Type 0) (xs : List X) → ((x : X) → P x → Q x) → All P xs → All Q xs
All-mono P Q [] f h = tt
All-mono P Q (x ∷ xs) f (p, h) = (f x p, All-mono P Q xs f h)

append-eq-nil : (xs ys : List Mismatch) → xs ++ ys ≡ [] → (xs ≡ []) × (ys ≡ [])
append-eq-nil [] ys h = (refl, h)
append-eq-nil (x ∷ xs) ys h = absurd cc

pub is_empty-append :
    (xs ys : List Mismatch) → is_empty (xs ++ ys) ≡ true → (xs ≡ []) × (is_empty ys ≡ true)
is_empty-append [] ys h = (refl, h)
is_empty-append (x ∷ xs) ys h = absurd cc

pub is_empty-eq : (xs : List Mismatch) → is_empty xs ≡ true → xs ≡ []
is_empty-eq [] h = refl
is_empty-eq (x ∷ xs) h = absurd cc

-- A loop finds nothing exactly if no element has a mismatch.
pub collect-nil {ℓ} :
    {X : Type ℓ} (f : X → Result VerifyError (List Mismatch)) (xs : List X)
    → collect f xs ≡ ok []
    → All (λ x. f x ≡ ok []) xs
unfolding collect
collect-nil f [] h = tt
collect-nil f (x ∷ xs) h =
    let (here, e, k) = bind-eq-ok (f x) _ [] h in
    let (rest, e', k') = bind-eq-ok (collect f xs) _ [] k in
    let (a, b) = append-eq-nil here rest (ok-inj (here ++ rest) [] k') in
    (e ∙ ap ok a, collect-nil f xs (e' ∙ ap ok b))

pub collect-All {ℓ} :
    {X : Type ℓ} (f : X → Result VerifyError (List Mismatch)) (xs : List X)
    → All (λ x. f x ≡ ok []) xs
    → collect f xs ≡ ok []
unfolding collect
collect-All f [] h = refl
collect-All f (x ∷ xs) (e, h) = rw (e, collect-All f xs h) refl

pub keys_lacking_iff :
    (name : Text → Mismatch) (cs m : List (Text × Claim))
    → (keys_lacking name cs m ≡ []) ↔ All (λ e. lacks e.0 m ≡ false) cs
unfolding keys_lacking
keys_lacking_iff name [] m = (λ h. tt, λ h. refl)
keys_lacking_iff name ((id, c) ∷ cs) m = elim (Bool-cases (lacks id m)) [
  | inl e ↦ rw e ((λ h. absurd cc), (λ h. absurd cc))
  | inr e ↦
      rw e
        ((λ h. (refl, (keys_lacking_iff name cs m).0 h)), (λ h. (keys_lacking_iff name cs m).1 h.1))
]

-- A source that is unavailable has no body; the digest of any other body is that of the source.
abbrev pub IsFaithful : Checker → EvidenceSource → Option Unavailable → Option Value → Type 0
IsFaithful k s (some u) none = Unit {0}
IsFaithful k s (some u) (some v) = ⊥
IsFaithful k s none none = Unit {0}
IsFaithful k s none (some v) = canonical_digest k.writer k.hashing v ≡ ok s.digest

abbrev nothing_found : Result VerifyError (List Mismatch)
nothing_found = ok []

digest_iff :
    (s : EvidenceSource) (r : Result EncodeError Text)
    → ((do
      digest ← encoded r
      ok (if digests_equal digest s.digest then [] else other_digest s.index s.digest digest ∷ []))
        ≡ nothing_found)
      ↔ (r ≡ ok s.digest)
digest_iff s (err e) = ((λ h. absurd cc), (λ h. absurd cc))
digest_iff s (ok d) = elim (Bool-cases (digests_equal d s.digest)) [
  | inl e ↦ rw e ((λ h. ap ok ((digests_equal_iff d s.digest).0 e)), (λ h. refl))
  | inr e ↦ rw e (
    (λ h. absurd cc),
    (λ h. let t = (digests_equal_iff d s.digest).1 (ok-inj d s.digest h) in absurd cc),
  )
]

body_mismatch_iff :
    (k : Checker) (s : EvidenceSource) (u : Option Unavailable) (v : Option Value)
    → (body_mismatch k s u v ≡ ok []) ↔ IsFaithful k s u v
body_mismatch_iff k s (some u) none = ((λ h. tt), (λ h. refl))
body_mismatch_iff k s (some u) (some v) = ((λ h. absurd cc), (λ h. absurd h))
body_mismatch_iff k s none none = ((λ h. tt), (λ h. refl))
body_mismatch_iff k s none (some v) = digest_iff s (canonical_digest k.writer k.hashing v)

-- Two claims have the same canonical form of a field.
abbrev pub Agree : Checker → Claim → Claim → FieldName → Type 0
Agree k stated expected f =
    (t : Text) × (canonicalize k.writer (field_value k.runtime.numbers f stated) ≡ ok t)
    × (canonicalize k.writer (field_value k.runtime.numbers f expected) ≡ ok t)

compared_iff :
    (id : Text) (f : FieldName) (r q : Result EncodeError Text)
    → ((do x ← encoded r; y ← encoded q; ok (if text_eq x y then [] else other_field id f x y ∷ []))
        ≡ nothing_found)
      ↔ ((t : Text) × (r ≡ ok t) × (q ≡ ok t))
compared_iff id f (err e) q = ((λ h. absurd cc), (λ h. let c = h.1 in absurd cc))
compared_iff id f (ok x) (err e) = ((λ h. absurd cc), (λ h. let c = h.2 in absurd cc))
compared_iff id f (ok x) (ok y) = elim (Bool-cases (text_eq x y)) [
  | inl e ↦ rw e ((λ h. (x, refl, ap ok (sym ((text_eq_iff x y).0 e)))), (λ h. refl))
  | inr e ↦ rw e (
    (λ h. absurd cc),
    (λ h. let t = (text_eq_iff x y).1 (ok-inj x h.0 h.1 ∙ sym (ok-inj y h.0 h.2)) in absurd cc),
  )
]

pub source_mismatch_iff :
    (k : Checker) (s : EvidenceSource)
    → (source_mismatch k s ≡ ok []) ↔ IsFaithful k s s.unavailable s.body
unfolding source_mismatch
source_mismatch_iff k s = body_mismatch_iff k s s.unavailable s.body

pub field_mismatch_iff :
    (k : Checker) (id : Text) (stated expected : Claim) (f : FieldName)
    → (field_mismatch k id stated expected f ≡ ok []) ↔ Agree k stated expected f
unfolding field_mismatch
field_mismatch_iff k id stated expected f =
    compared_iff id f (canonicalize k.writer (field_value k.runtime.numbers f stated))
      (canonicalize k.writer (field_value k.runtime.numbers f expected))

-- A claim that is stated under the same name agrees in every field.
abbrev pub AgreesWith : Checker → Claim → Option Claim → Type 0
AgreesWith k expected none = Unit {0}
AgreesWith k expected (some stated) = All (Agree k stated expected) claim_fields

stated_mismatch_iff :
    (k : Checker) (id : Text) (expected : Claim) (o : Option Claim)
    → (stated_mismatch k id expected o ≡ ok []) ↔ AgreesWith k expected o
stated_mismatch_iff k id expected none = ((λ h. tt), (λ h. refl))
stated_mismatch_iff k id expected (some stated) = (
  λ h.
      All-mono (λ f. field_mismatch k id stated expected f ≡ ok []) (Agree k stated expected)
        claim_fields (λ f e. (field_mismatch_iff k id stated expected f).0 e)
        (collect-nil (field_mismatch k id stated expected) claim_fields h),
  λ h. collect-All (field_mismatch k id stated expected) claim_fields (
      All-mono (Agree k stated expected) (λ f. field_mismatch k id stated expected f ≡ ok [])
        claim_fields (λ f e. (field_mismatch_iff k id stated expected f).1 e) h),
)

pub claim_mismatch_iff :
    (k : Checker) (stated : List (Text × Claim)) (e : Text × Claim)
    → (claim_mismatch k stated e ≡ ok []) ↔ AgreesWith k e.1 (get e.0 stated)
unfolding claim_mismatch
claim_mismatch_iff k stated (id, expected) = stated_mismatch_iff k id expected (get id stated)

pub encoded-eq-ok {ℓ} :
    {A : Type ℓ} (r : Result EncodeError A) (x : A) → encoded r ≡ ok x → r ≡ ok x
encoded-eq-ok (ok y) x h = ap ok (ok-inj y x h)
encoded-eq-ok (err e) x h = absurd cc

pub derived_or-eq-ok {ℓ} :
    {A : Type ℓ} (r : Result ClaimError A) (x : A) → derived_or r ≡ ok x → r ≡ ok x
derived_or-eq-ok (ok y) x h = ap ok (ok-inj y x h)
derived_or-eq-ok (err e) x h = absurd cc
