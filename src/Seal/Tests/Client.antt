-- ===== src/Seal/Tests/Client.antt =====
-- Concrete runs of the sealing client, its receipts and their log.
use zegel.Common.{
  ◌≡◌, ◌≢◌, ◌↔◌, refl, sym, ap, subst, ◌∙◌, true, false, none, some, List, [], ◌∷◌, ◌++◌, length,
  replicate, arith, if◌then◌else◌,
}
use zegel.Common.Text.{Text, codes, text_eq, text_eq_iff, to_lower_case, trim}
use zegel.Common.Result.{Result, ok, err}
use zegel.Sdk.Canonical.{
  Value, Fields, null, boolean, string, object, field, end, member, Writer, Hashing,
  canonical_digest, canonicalize,
}
use zegel.Sdk.Canonical.Laws.{objects, swapped}
use zegel.Seal.Errors.{SealError, upstream}
use zegel.Seal.Pubkey.{grantee_public_key, normalise_grantees, normalise_from}
use zegel.Seal.Refs.{swarm_reference, history_address}
use zegel.Seal.Receipt.{SealReceipt, SealCoordinates, gateway, node, tier_1, coordinates_of}
use zegel.Seal.Envelope.Laws.{HasMembers}
use zegel.Seal.Envelope.{
  SealEnvelope, seal_envelope_schema, tier_value, make_envelope, encode_envelope_object,
}
use zegel.Seal.Client.{
  Backend, Services, Event, uploads, keeps, patches_list, SealOptions, throw, seal,
}
use zegel.Seal.Client.Laws.{IsSealed, seal-IsSealed, input_of}
use zegel.Seal.Client.Access.{granted, not_granted, GranteeListReceipt, unseal, patch_grantees}
use zegel.Seal.Client.Access.Laws.{IsGranted, IsRefused, IsStoring, unseal_iff, unseal-seal}

abbrev pub hex64 : Text
hex64 = replicate 64 b'a'

abbrev pub public_key : Text
public_key = codes "02" ++ hex64

abbrev writer : Writer
writer = record { string_json = λ s. s; number_json = λ n. codes "1"; bigint_text = λ n. [] }

abbrev hashing : Hashing
hashing = record { utf8_to_bytes = λ t. t; sha256 = λ b. b; bytes_to_hex = λ b. b }

-- A payload whose fields are not in order, and what is read of its canonical text.
abbrev payload : Value
payload = object (field (codes "b") (boolean true) (field (codes "a") null end))

abbrev seen : Value
seen = object (field (codes "a") null (field (codes "b") (boolean true) end))

abbrev sealed : SealEnvelope
sealed = record {
  tier = tier_1;
  reference_id = codes "r";
  digest = codes "0x{a:null,b:true}";
  sealed_at = codes "now";
  payload = payload;
}

abbrev sealed_text : Text
sealed_text =
    codes "{digest:0x{a:null,b:true},payload:{a:null,b:true},referenceId:r,schema:zegel.seal.v1,"
    ++ codes "sealedAt:now,tier:1}"

-- The object of that text, with its fields in the order of the text.
abbrev read : Fields
read = field (codes "digest") (string sealed.digest) (
    field (codes "payload") seen (
      field (codes "referenceId") (string sealed.reference_id) (
        field (codes "schema") (string seal_envelope_schema) (
          field (codes "sealedAt") (string sealed.sealed_at)
            (field (codes "tier") (tier_value sealed.tier) end)))))

-- Only that text is JSON.
abbrev services : Services
services = record {
  writer = writer;
  hashing = hashing;
  on_curve = λ key. true;
  byte_length = length;
  json_parse = λ text. if text_eq text sealed_text then some (object read) else none;
  now = codes "now";
  keep = λ r. ok tt;
}

-- An endpoint without grantee lists that takes just this text.
abbrev backend : Backend
backend = record {
  kind = gateway;
  url = codes "u";
  can_manage_grantees = false;
  publisher = some public_key;
  batch_id = codes "b";
  upload = λ text under.
      if text_eq text sealed_text
      then ok (record { reference = hex64; history = some hex64 })
      else err (upstream none);
  download = λ c at. ok sealed_text;
  create = λ keys. err (upstream none);
  patch = λ list history add revoke. err (upstream none);
  get = λ list. err (upstream (some 404));
}

abbrev options : SealOptions
options = record {
  reference_id = codes "r";
  tier = tier_1;
  sealed_at = none;
  when_grantees_unsupported = throw;
}

abbrev pub receipt : SealReceipt
receipt = record {
  tier = tier_1;
  reference_id = codes "r";
  swarm_ref = hex64;
  act_history_address = hex64;
  act_publisher = some public_key;
  digest = codes "0x{a:null,b:true}";
  sealed_at = codes "now";
  backend = gateway;
  backend_url = codes "u";
  batch_id = codes "b";
  grantee_list_ref = none;
  grantees = record { applied = []; deferred = []; has_reason = false };
  bytes = length sealed_text;
}

made : make_envelope writer hashing (codes "now") (input_of options payload) ≡ ok sealed
unfolding make_envelope canonical_digest canonicalize zegel.Sdk.Canonical.encode
    zegel.Sdk.Canonical.sort_entries zegel.Sdk.Canonical.insert_entry
    zegel.Sdk.Canonical.write_entries zegel.Sdk.Canonical.join_commas zegel.Sdk.Canonical.text_ltb
made = refl

encoded : encode_envelope_object writer hashing sealed ≡ ok sealed_text
unfolding encode_envelope_object canonicalize zegel.Sdk.Canonical.encode
    zegel.Sdk.Canonical.sort_entries zegel.Sdk.Canonical.insert_entry
    zegel.Sdk.Canonical.write_entries zegel.Sdk.Canonical.join_commas zegel.Sdk.Canonical.text_ltb
encoded = refl

abbrev calls : List Event
calls = uploads sealed_text none ∷ keeps receipt ∷ []

sealed_once : seal backend services payload [] options [] ≡ (ok receipt, calls)
unfolding seal zegel.Seal.Client.store_sealed zegel.Seal.Client.prepare_grantee_list
    normalise_grantees normalise_from make_envelope canonical_digest canonicalize
    encode_envelope_object zegel.Sdk.Canonical.encode zegel.Sdk.Canonical.sort_entries
    zegel.Sdk.Canonical.insert_entry zegel.Sdk.Canonical.write_entries
    zegel.Sdk.Canonical.join_commas zegel.Sdk.Canonical.text_ltb text_eq swarm_reference
    history_address zegel.Seal.Pubkey.strip_0x trim to_lower_case
sealed_once = refl

seal-IsSealed_example : IsSealed backend services payload [] options receipt [] calls
seal-IsSealed_example =
    seal-IsSealed backend services payload [] options receipt [] calls sealed_once

one_grantee : normalise_grantees (λ key. true) (public_key ∷ []) ≡ ok (public_key ∷ [])
unfolding normalise_grantees normalise_from grantee_public_key zegel.Seal.Pubkey.strip_0x trim
    to_lower_case text_eq
one_grantee = refl

abbrev coordinates : SealCoordinates
coordinates = record { swarm_ref = hex64; act_history_address = hex64; act_publisher = public_key }

coordinates_found : coordinates_of receipt ≡ ok coordinates
unfolding coordinates_of
coordinates_found = refl

storing : IsStoring backend services coordinates none
storing = record {
  reads = λ text under answer history u n q a. ground (arith, text_eq_iff text sealed_text);
}

text_inj :
    (text : Text) → Path (Result SealError Text) (ok sealed_text) (ok text) → sealed_text ≡ text
text_inj text h = cc

same_envelope :
    (e : SealEnvelope) → Path (Result SealError SealEnvelope) (ok sealed) (ok e) → sealed ≡ e
same_envelope e h = cc

same_text :
    (e : SealEnvelope) (text : Text)
    → make_envelope writer hashing (codes "now") (input_of options payload) ≡ ok e
    → encode_envelope_object writer hashing e ≡ ok text
    → sealed_text ≡ text
same_text e text m k =
    let again =
      sym encoded
      ∙ ap (encode_envelope_object writer hashing) (same_envelope e (sym made ∙ m))
      ∙ k in
    text_inj text again

parsed_text : services.json_parse sealed_text ≡ some (object read)
unfolding text_eq
parsed_text = refl

read_members : HasMembers read (record sealed { payload = seen })
unfolding member text_eq
read_members = (refl, (refl, (refl, (refl, (refl, (refl, tt))))))

names_differ : codes "b" ≢ codes "a"
unfolding text_eq
names_differ e =
    let h : text_eq (codes "b") (codes "a") ≡ true = (text_eq_iff (codes "b") (codes "a")).1 e in
    absurd cc

unseal-seal_example : unseal backend services coordinates none ≡ ok (granted seen)
unseal-seal_example =
    unseal-seal backend services payload seen [] options receipt [] calls coordinates none read
      (λ e text m k. (
        subst (λ x. services.json_parse x ≡ some (object read)) (same_text e text m k) parsed_text,
        subst (λ x. HasMembers read (record x { payload = seen })) (same_envelope e (sym made ∙ m))
            read_members,
      ))
      (objects (swapped (codes "b") (codes "a") (boolean true) null end names_differ))
      (λ z. absurd (omega arith)) sealed_once coordinates_found (λ z. absurd (omega arith)) storing

unseal_iff_example :
    ((unseal backend services coordinates none ≡ ok (granted seen))
      ↔ IsGranted backend services coordinates none seen)
    × ((unseal backend services coordinates none ≡ ok not_granted)
        ↔ IsRefused backend services coordinates none)
unseal_iff_example = unseal_iff backend services coordinates none seen

-- A node that manages grantees, and a receipt with a list.
abbrev bee : Backend
bee = record backend {
  kind = node;
  can_manage_grantees = true;
  patch = λ list history add revoke. ok (hex64, hex64);
}

abbrev listed : SealReceipt
listed = record receipt { grantee_list_ref = some hex64 }

abbrev patched : GranteeListReceipt
patched = record {
  grantee_list_ref = hex64;
  act_history_address = hex64;
  added = [];
  revoked = public_key ∷ [];
  rotation_required = true;
}

abbrev patch_call : List Event
patch_call = patches_list hex64 hex64 [] (public_key ∷ []) ∷ []

patched_once : patch_grantees bee services listed [] (public_key ∷ []) [] ≡ (ok patched, patch_call)
unfolding patch_grantees zegel.Seal.Client.Access.patch normalise_grantees normalise_from
    grantee_public_key zegel.Seal.Pubkey.strip_0x trim to_lower_case text_eq swarm_reference
    history_address
patched_once = refl
