-- ===== src/Sdk/Tests.antt =====
-- Concrete runs of the encoding and of the check of the anchor.
use zegel.Common.{ℕ, ◌≡◌, refl, ◌↔◌, true, Option, none, some, [], ◌∷◌, ◌++◌, arith}
use zegel.Common.Text.{Text, codes}
use zegel.Common.Result.{ok}
use zegel.Contracts.Anchor.{Anchor, Anchors, no_anchor, update}
use zegel.Sdk.Canonical.{
  Value, Fields, undefined, boolean, number, string, object, end, field, Writer, Hashing,
  EncodeError, canonicalize, canonical_digest, digests_equal,
}
use zegel.Sdk.Canonical.Laws.{
  Same, same, objects, fields, swapped, dropped, in_turn, reversed, canonical_digest-Same,
}
use zegel.Sdk.Anchor.{SealedEnvelope, AnchorClient, shown_digest, verify_anchor}
use zegel.Sdk.Anchor.Laws.{IsLive, contract_answer, is_good, verify_anchor_good_iff}

abbrev writer : Writer
writer = record {
  string_json = λ s. codes "\"" ++ s ++ codes "\"";
  number_json = λ n. n ∷ [];
  bigint_text = λ n. [];
}

abbrev hashing : Hashing
hashing = record { utf8_to_bytes = λ t. t; sha256 = λ b. b; bytes_to_hex = λ b. b }

abbrev one_way : Value
one_way = object (field (codes "b") (number 50) (field (codes "a") (boolean true) end))

abbrev other_way : Value
other_way = object (
    field (codes "a") (boolean true)
      (field (codes "c") undefined (field (codes "b") (number 50) end)))

one_way_encoded : canonicalize writer one_way ≡ ok (codes "{\"a\":true,\"b\":2}")
unfolding canonicalize zegel.Sdk.Canonical.encode zegel.Sdk.Canonical.sort_entries
    zegel.Sdk.Canonical.insert_entry zegel.Sdk.Canonical.write_entries
    zegel.Sdk.Canonical.join_commas zegel.Sdk.Canonical.text_ltb
one_way_encoded = refl

one_way-Same : Same one_way other_way
one_way-Same = objects (
    in_turn
      (swapped (codes "b") (codes "a") (number 50) (boolean true) end (λ e. absurd (ground arith)))
      (fields (codes "a") (same (boolean true))
        (reversed (dropped (codes "c") (field (codes "b") (number 50) end)))))

canonical_digest-Same_example :
    canonical_digest writer hashing one_way ≡ canonical_digest writer hashing other_way
canonical_digest-Same_example = canonical_digest-Same writer hashing one_way other_way one_way-Same

abbrev live : Anchor
live = record { commitment = 48; issuer = 5; expires_at = 9000; anchored_at = 1000; revoked_at = 0 }

abbrev state : Anchors
state = update 3 live (λ id. no_anchor)

abbrev bytes32 : Text → Option ℕ
bytes32 [] = none
bytes32 (c ∷ cs) = some c

abbrev client : AnchorClient
client = record { verify = contract_answer bytes32 2000 state; get_anchor = λ reference. none }

abbrev digest : Text
digest = codes "0x{\"a\":true,\"b\":2}"

abbrev envelope : SealedEnvelope
envelope = record { reference_id = 3 ∷ []; commitment = digest }

claims_digest : shown_digest writer hashing (some one_way) ≡ ok (some digest)
unfolding shown_digest canonical_digest canonicalize zegel.Sdk.Canonical.encode
    zegel.Sdk.Canonical.sort_entries zegel.Sdk.Canonical.insert_entry
    zegel.Sdk.Canonical.write_entries zegel.Sdk.Canonical.join_commas zegel.Sdk.Canonical.text_ltb
claims_digest = refl

verify_anchor_good_iff_example :
    (is_good (verify_anchor writer hashing client envelope (some one_way)) ≡ true)
    ↔ (IsLive bytes32 2000 state (3 ∷ []) digest × (digest ≡ digest))
verify_anchor_good_iff_example =
    verify_anchor_good_iff bytes32 2000 state writer hashing client envelope (some one_way)
      (some digest) (λ r c. refl) claims_digest
