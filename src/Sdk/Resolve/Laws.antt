-- ===== src/Sdk/Resolve/Laws.antt =====
-- packages/sdk/src/resolve.ts: which values are envelopes, and what the gateway's answers decode to.
use zegel.Common.{
  ◌≡◌, refl, sym, subst, All, not, ap, ◌↔◌, Bool, true, false, Option, none, some, List, [], ◌∷◌,
  arith, Bool-cases, inl, inr, if◌then◌else◌,
}
use zegel.Common.Text.{Text, codes, text_eq_iff, text_eq_refl}
use zegel.Common.Result.{Result, ok, err, ◌>>◌, throw_if, then-eq-ok, throw_if-eq-ok}
use zegel.Gateway.Json.{
  Json, Items, Fields, null, boolean, integer, other_number, string, array, object, member,
}
use zegel.Sdk.Resolve.{
  ResolveError, malformed_envelope, missing, unknown_schema, no_sealed_tiers, is_string, has_items,
  is_schema, assert_envelope, require_strings, required_fields, envelope_schema,
}

abbrev pub HasText : Fields → Text → Type 0
HasText e name = (s : Text) × (member name e ≡ some (string s))

-- The shape that a reader of an envelope relies on.
pub record IsEnvelope (e : Fields) : Type 0 where
  pub schema : member (codes "schema") e ≡ some (string envelope_schema)
  pub reference_id : HasText e (codes "referenceId")
  pub commitment : HasText e (codes "commitment")
  pub issued_at : HasText e (codes "issuedAt")
  pub expires_at : HasText e (codes "expiresAt")
  pub tier : Json
  pub tiers : Items
  pub sealed : member (codes "tiers") e ≡ some (array (Items.cons tier tiers))

is_string-text : (o : Option Json) → is_string o ≡ true → (s : Text) × (o ≡ some (string s))
is_string-text none h = absurd cc
is_string-text (some null) h = absurd cc
is_string-text (some (boolean b)) h = absurd cc
is_string-text (some (integer n)) h = absurd cc
is_string-text (some (other_number n)) h = absurd cc
is_string-text (some (string s)) h = (s, refl)
is_string-text (some (array (Items.cons x xs))) h = absurd cc
is_string-text (some (array Items.nil)) h = absurd cc
is_string-text (some (object fs)) h = absurd cc

is_schema-text : (o : Option Json) → is_schema o ≡ true → o ≡ some (string envelope_schema)
is_schema-text none h = absurd cc
is_schema-text (some null) h = absurd cc
is_schema-text (some (boolean b)) h = absurd cc
is_schema-text (some (integer n)) h = absurd cc
is_schema-text (some (other_number n)) h = absurd cc
is_schema-text (some (string s)) h = ground (arith, text_eq_iff s envelope_schema)
is_schema-text (some (array (Items.cons x xs))) h = absurd cc
is_schema-text (some (array Items.nil)) h = absurd cc
is_schema-text (some (object fs)) h = absurd cc

has_items-cons :
    (o : Option Json)
    → has_items o ≡ true
    → (x : Json) × (xs : Items) × (o ≡ some (array (Items.cons x xs)))
has_items-cons none h = absurd cc
has_items-cons (some null) h = absurd cc
has_items-cons (some (boolean b)) h = absurd cc
has_items-cons (some (integer n)) h = absurd cc
has_items-cons (some (other_number n)) h = absurd cc
has_items-cons (some (string s)) h = absurd cc
has_items-cons (some (array (Items.cons x xs))) h = (x, xs, refl)
has_items-cons (some (array Items.nil)) h = absurd cc
has_items-cons (some (object fs)) h = absurd cc

pub not-eq-false : (b : Bool) → not b ≡ false → b ≡ true
not-eq-false b h = ground arith

ok_injective : (a b : Fields) → Path (Result ResolveError Fields) (ok a) (ok b) → a ≡ b
ok_injective a b h = cc

require_strings-HasText :
    (names : List Text) (e : Fields) → require_strings names e ≡ ok tt → All (HasText e) names
unfolding require_strings
require_strings-HasText [] e h = tt
require_strings-HasText (name ∷ names) e h = elim (Bool-cases (is_string (member name e))) [
  | inl t ↦ (
    is_string-text (member name e) t,
    require_strings-HasText names e (
        subst
          (λ b.
            (if b then require_strings names e else err (malformed_envelope (missing name)))
            ≡ ok tt)
          t h),
  )
  | inr f ↦ absurd (ground arith)
]

assert_envelope-IsEnvelope :
    (fs e : Fields) → assert_envelope (object fs) ≡ ok e → (fs ≡ e) × IsEnvelope fs
unfolding assert_envelope
assert_envelope-IsEnvelope fs e h =
    let schema_test = is_schema (member (codes "schema") fs) in
    let tier_test = has_items (member (codes "tiers") fs) in
    let last = throw_if (not tier_test) (malformed_envelope no_sealed_tiers) >> ok fs in
    let strings = require_strings required_fields fs in
    let s =
      then-eq-ok (throw_if (not schema_test) (malformed_envelope unknown_schema)) (strings >> last)
        e h in
    let r = then-eq-ok strings last e s.1 in
    let t =
      then-eq-ok (throw_if (not tier_test) (malformed_envelope no_sealed_tiers)) (ok fs) e r.1 in
    let (x, xs, sealed) = has_items-cons (member (codes "tiers") fs) (
      not-eq-false tier_test
        (throw_if-eq-ok (not tier_test) (malformed_envelope no_sealed_tiers) t.0)) in
    let (id, (commitment, (issued, (expires, done)))) =
      require_strings-HasText required_fields fs r.0 in
    (
      ok_injective fs e t.1,
      record {
        schema = is_schema-text (member (codes "schema") fs) (
            not-eq-false schema_test
              (throw_if-eq-ok (not schema_test) (malformed_envelope unknown_schema) s.0));
        reference_id = id;
        commitment = commitment;
        issued_at = issued;
        expires_at = expires;
        tier = x;
        tiers = xs;
        sealed = sealed;
      },
    )

pub IsEnvelope-assert_envelope : (e : Fields) → IsEnvelope e → assert_envelope (object e) ≡ ok e
unfolding assert_envelope require_strings
IsEnvelope-assert_envelope e h =
    rw
      (
        h.schema,
        h.reference_id.1,
        h.commitment.1,
        h.issued_at.1,
        h.expires_at.1,
        h.sealed,
        text_eq_refl envelope_schema,
      )
      refl

is_object : (value : Json) (e : Fields) → assert_envelope value ≡ ok e → value ≡ object e
unfolding assert_envelope member
is_object (object fs) e h = ap object (assert_envelope-IsEnvelope fs e h).0
is_object null e h = absurd cc
is_object (boolean b) e h = absurd cc
is_object (integer n) e h = absurd cc
is_object (other_number n) e h = absurd cc
is_object (string s) e h = absurd cc
is_object (array xs) e h = absurd cc

-- The client accepts a JSON value as an envelope exactly if it is an object with the schema, a
-- text under each of the four required names, and at least one tier.
assert_envelope_iff :
    (value : Json) (e : Fields)
    → (assert_envelope value ≡ ok e) ↔ ((value ≡ object e) × IsEnvelope e)
assert_envelope_iff value e = (
  λ h. let o = is_object value e h in (o, (assert_envelope-IsEnvelope e e (rw (sym o) h)).1),
  λ p. rw p.0 (IsEnvelope-assert_envelope e p.1),
)
