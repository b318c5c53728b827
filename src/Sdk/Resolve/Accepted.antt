-- ===== src/Sdk/Resolve/Accepted.antt =====
-- gateway/src/envelope.ts and packages/sdk/src/resolve.ts: what the gateway accepts has the shape
-- that the client asks for.
use zegel.Common.{
  ◌≡◌, refl, sym, inl, inr, ap, ◌∙◌, Bool, true, not, Option, none, some, List, arith,
}
use zegel.Common.Int.{ℤ, leb_ℤ, floor_div}
use zegel.Common.Text.{Text, codes, text_eq, text_eq_iff}
use zegel.Common.Result.{
  Result, ok, ◌>>=◌, ◌>>◌, throw_if, or_throw, then-eq-ok, bind-eq-ok, throw_if-eq-ok,
  or_throw-eq-ok, Result-cases,
}
use zegel.Gateway.Failure.{
  Failure, Reason, bad_request, not_json, not_an_object, wrong_schema, bad_reference_id,
  bad_commitment, bad_issued_at, bad_expires_at, expiry_not_after_issue,
}
use zegel.Gateway.Json.{
  Json, Items, Fields, null, boolean, integer, other_number, string, array, object, member,
}
use zegel.Gateway.Platform.{Platform}
use zegel.Gateway.Envelope.{
  StoredEnvelope, parse_envelope, require_hex32, require_timestamp, require_links, require_tiers,
  tiers_of, object_of, string_with,
}
use zegel.Sdk.Resolve.{envelope_schema}
use zegel.Sdk.Resolve.Laws.{IsEnvelope, not-eq-false}

require_hex32-text :
    (r : Reason) (o : Option Json) → require_hex32 r o ≡ ok tt → (s : Text) × (o ≡ some (string s))
unfolding require_hex32
require_hex32-text r none h = absurd cc
require_hex32-text r (some null) h = absurd cc
require_hex32-text r (some (boolean b)) h = absurd cc
require_hex32-text r (some (integer n)) h = absurd cc
require_hex32-text r (some (other_number n)) h = absurd cc
require_hex32-text r (some (string s)) h = (s, refl)
require_hex32-text r (some (array (Items.cons x xs))) h = absurd cc
require_hex32-text r (some (array Items.nil)) h = absurd cc
require_hex32-text r (some (object fs)) h = absurd cc

require_timestamp-text :
    (v : Platform) (r : Reason) (o : Option Json) (n : ℤ)
    → require_timestamp v r o ≡ ok n
    → (s : Text) × (o ≡ some (string s))
unfolding require_timestamp
require_timestamp-text v r none n h = absurd cc
require_timestamp-text v r (some null) n h = absurd cc
require_timestamp-text v r (some (boolean b)) n h = absurd cc
require_timestamp-text v r (some (integer k)) n h = absurd cc
require_timestamp-text v r (some (other_number k)) n h = absurd cc
require_timestamp-text v r (some (string s)) n h = (s, refl)
require_timestamp-text v r (some (array (Items.cons x xs))) n h = absurd cc
require_timestamp-text v r (some (array Items.nil)) n h = absurd cc
require_timestamp-text v r (some (object fs)) n h = absurd cc

schema-text :
    (o : Option Json)
    → string_with (text_eq zegel.Gateway.Envelope.envelope_schema) o ≡ true
    → o ≡ some (string envelope_schema)
schema-text none h = absurd cc
schema-text (some null) h = absurd cc
schema-text (some (boolean b)) h = absurd cc
schema-text (some (integer n)) h = absurd cc
schema-text (some (other_number n)) h = absurd cc
schema-text (some (string s)) h = ground (arith, text_eq_iff envelope_schema s)
schema-text (some (array (Items.cons x xs))) h = absurd cc
schema-text (some (array Items.nil)) h = absurd cc
schema-text (some (object fs)) h = absurd cc

tiers_of-cons :
    (o : Option Json) (ts : List Json)
    → tiers_of o ≡ ok ts
    → (x : Json) × (xs : Items) × (o ≡ some (array (Items.cons x xs)))
tiers_of-cons none ts h = absurd cc
tiers_of-cons (some null) ts h = absurd cc
tiers_of-cons (some (boolean b)) ts h = absurd cc
tiers_of-cons (some (integer n)) ts h = absurd cc
tiers_of-cons (some (other_number n)) ts h = absurd cc
tiers_of-cons (some (string s)) ts h = absurd cc
tiers_of-cons (some (array (Items.cons x xs))) ts h = (x, xs, refl)
tiers_of-cons (some (array Items.nil)) ts h = absurd cc
tiers_of-cons (some (object fs)) ts h = absurd cc

-- The parts of `parseEnvelope`, each with what follows it.
abbrev stored_of : Platform → Text → Fields → ℤ → StoredEnvelope
stored_of v text c expires_at = record {
  text = text;
  bytes = v.string_to_hex text;
  digest = v.sha256 (v.string_to_hex text);
  envelope = c;
  expires_at_seconds = floor_div expires_at 1000;
}

abbrev links_part : Platform → Text → Fields → ℤ → Result Failure StoredEnvelope
links_part v text c expires_at = require_links c >> ok (stored_of v text c expires_at)

abbrev order_part : Platform → Text → Fields → ℤ → ℤ → Result Failure StoredEnvelope
order_part v text c issued_at expires_at =
    throw_if (leb_ℤ expires_at issued_at) (bad_request expiry_not_after_issue)
    >> links_part v text c expires_at

abbrev expiry_part : Platform → Text → Fields → ℤ → Result Failure StoredEnvelope
expiry_part v text c issued_at =
    require_timestamp v bad_expires_at (member (codes "expiresAt") c)
    >>= order_part v text c issued_at

abbrev issue_part : Platform → Text → Fields → Result Failure StoredEnvelope
issue_part v text c =
    require_timestamp v bad_issued_at (member (codes "issuedAt") c) >>= expiry_part v text c

abbrev commitment_part : Platform → Text → Fields → Result Failure StoredEnvelope
commitment_part v text c =
    require_hex32 bad_commitment (member (codes "commitment") c) >> issue_part v text c

abbrev reference_part : Platform → Text → Fields → Result Failure StoredEnvelope
reference_part v text c =
    require_hex32 bad_reference_id (member (codes "referenceId") c) >> commitment_part v text c

abbrev schema_test : Fields → Bool
schema_test c =
    string_with (text_eq zegel.Gateway.Envelope.envelope_schema) (member (codes "schema") c)

abbrev fields_part : Platform → Text → Fields → Result Failure StoredEnvelope
fields_part v text c =
    throw_if (not (schema_test c)) (bad_request wrong_schema) >> reference_part v text c

abbrev object_part : Platform → Text → Json → Result Failure StoredEnvelope
object_part v text parsed = object_of not_an_object (some parsed) >>= fields_part v text

require_links-tiers :
    (c : Fields)
    → require_links c ≡ ok tt
    → (x : Json) × (xs : Items) × (member (codes "tiers") c ≡ some (array (Items.cons x xs)))
unfolding require_links
require_links-tiers c h = elim (Result-cases (tiers_of (member (codes "tiers") c))) [
  | inl (ts, e) ↦ tiers_of-cons (member (codes "tiers") c) ts e
  | inr (f, e) ↦ absurd (ground arith)
]

fields_part-IsEnvelope :
    (v : Platform) (text : Text) (c : Fields) (stored : StoredEnvelope)
    → fields_part v text c ≡ ok stored
    → IsEnvelope c × (stored.envelope ≡ c) × (stored.bytes ≡ v.string_to_hex text)
fields_part-IsEnvelope v text c stored h =
    let s =
      then-eq-ok (throw_if (not (schema_test c)) (bad_request wrong_schema))
        (reference_part v text c) stored h in
    let r =
      then-eq-ok (require_hex32 bad_reference_id (member (codes "referenceId") c))
        (commitment_part v text c) stored s.1 in
    let k =
      then-eq-ok (require_hex32 bad_commitment (member (codes "commitment") c))
        (issue_part v text c) stored r.1 in
    let (i, issued, h3) =
      bind-eq-ok (require_timestamp v bad_issued_at (member (codes "issuedAt") c))
        (expiry_part v text c) stored k.1 in
    let (e, expires, h4) =
      bind-eq-ok (require_timestamp v bad_expires_at (member (codes "expiresAt") c))
        (order_part v text c i) stored h3 in
    let o =
      then-eq-ok (throw_if (leb_ℤ e i) (bad_request expiry_not_after_issue)) (links_part v text c e)
        stored h4 in
    let l = then-eq-ok (require_links c) (ok (stored_of v text c e)) stored o.1 in
    let (x, xs, sealed) = require_links-tiers c l.0 in
    (
      record {
        schema = schema-text (member (codes "schema") c) (
            not-eq-false (schema_test c)
              (throw_if-eq-ok (not (schema_test c)) (bad_request wrong_schema) s.0));
        reference_id = require_hex32-text bad_reference_id (member (codes "referenceId") c) r.0;
        commitment = require_hex32-text bad_commitment (member (codes "commitment") c) k.0;
        issued_at = require_timestamp-text v bad_issued_at (member (codes "issuedAt") c) i issued;
        expires_at =
            require_timestamp-text v bad_expires_at (member (codes "expiresAt") c) e expires;
        tier = x;
        tiers = xs;
        sealed = sealed;
      },
      cc,
      cc,
    )

object_of-object : (r : Reason) (j : Json) (c : Fields) → object_of r (some j) ≡ ok c → j ≡ object c
object_of-object r (object fs) c h = cc
object_of-object r null c h = absurd cc
object_of-object r (boolean b) c h = absurd cc
object_of-object r (integer n) c h = absurd cc
object_of-object r (other_number n) c h = absurd cc
object_of-object r (string s) c h = absurd cc
object_of-object r (array xs) c h = absurd cc

-- What the gateway accepts, with the value that it parsed.
pub parse_envelope-IsEnvelope :
    (v : Platform) (text : Text) (stored : StoredEnvelope)
    → parse_envelope v text ≡ ok stored
    → IsEnvelope stored.envelope
      × (v.json_parse text ≡ some (object stored.envelope))
      × (stored.bytes ≡ v.string_to_hex text)
unfolding parse_envelope
parse_envelope-IsEnvelope v text stored h =
    let (parsed, p, h1) =
      bind-eq-ok (or_throw (v.json_parse text) (bad_request not_json)) (object_part v text) stored
        h in
    let (c, o, h2) =
      bind-eq-ok (object_of not_an_object (some parsed)) (fields_part v text) stored h1 in
    let (shape, same, bytes) = fields_part-IsEnvelope v text c stored h2 in
    (
      rw same shape,
      or_throw-eq-ok (v.json_parse text) (bad_request not_json) parsed p
          ∙ ap some (object_of-object not_an_object parsed c o)
          ∙ ap (λ fs. some (object fs)) (sym same),
      bytes,
    )
