-- ===== src/Solana/Verify/Laws.antt =====
-- solana/src/verify.ts: the verdicts on an attestation.
use zegel.Common.{
  ℕ, ◌/◌, ◌≡◌, refl, ◌≢◌, ◌⊎◌, inl, inr, ◌↔◌, ◌≤◌, Bool, true, false, Option, none, some, List,
  take, Any, arith, Option-cases, Bool-cases,
}
use zegel.Common.Text.{Text, to_lower_case}
use zegel.Common.Result.{ok, Result-cases}
use zegel.Solana.Hex.{strip_0x, normalize_hex32}
use zegel.Solana.Hex.Laws.{hex_equal_iff}
use zegel.Solana.Schema.{
  SchemaAccount, ReferenceAttestationData, schema_matches_expected, decode_reference_data,
}
use zegel.Solana.Revocation.{
  SignatureInfo, RevocationEvidence, max_history_transactions, successful, find_revocation,
}
use zegel.Solana.Revocation.Laws.{IsEvidence, find_revocation-Any}
use zegel.Solana.Verify.{
  valid, expired, revoked, not_found, commitment_mismatch, reference_mismatch, schema_paused,
  VerifyOptions, AttestationAccount, Chain, VerifyResult, contradicts, absent_result, status_of,
  optional_hex32, present_result, verify_accounts, verify,
}

-- Both texts name the same bytes.
abbrev pub SameHex : Text → Text → Type 0
SameHex a b = to_lower_case (strip_0x a) ≡ to_lower_case (strip_0x b)

abbrev pub IsPast : AttestationAccount → ℕ → Type 0
IsPast account now = (account.expiry ≢ 0) × (account.expiry ≤ now / 1000)

-- On data that could be read the verdict is reference-mismatch exactly if the ids differ, else
-- commitment-mismatch exactly if the claims given are not the anchored ones, else schema-paused
-- exactly if the schema is paused, else expired exactly if an expiry is set and has come, and
-- valid exactly otherwise.
status_of_iff :
    (id : Text) (commitment : Option Text) (now : ℕ) (paused : Bool) (account : AttestationAccount)
    (onchain : ReferenceAttestationData)
    → let status = status_of id commitment now paused account onchain in
      let same = SameHex onchain.reference_id id in
      ((status ≡ reference_mismatch) ↔ (¬ same))
      × ((status ≡ commitment_mismatch)
          ↔ (same × (contradicts onchain.commitment commitment ≡ true)))
      × ((status ≡ schema_paused)
          ↔ (same × (contradicts onchain.commitment commitment ≡ false) × (paused ≡ true)))
      × ((status ≡ expired) ↔ (
          same
          × (contradicts onchain.commitment commitment ≡ false)
          × (paused ≡ false)
          × IsPast account now))
      × ((status ≡ valid) ↔ (
          same
          × (contradicts onchain.commitment commitment ≡ false)
          × (paused ≡ false)
          × ¬ (IsPast account now)))
unfolding status_of
status_of_iff id commitment now paused account onchain =
    let e = hex_equal_iff onchain.reference_id id in
    (ground arith, ground arith, ground arith, ground arith, ground arith)

-- The grounds on which a reference may be relied on: the schema is the expected one, the attestation
-- is there and anchors this reference, with these claims if any were given, and it runs.
pub record IsLive (o : VerifyOptions) (chain : Chain) : Type 0 where
  pub id : Text
  pub asked : normalize_hex32 o.reference_id ≡ some id
  pub claims : Option Text
  pub shown : optional_hex32 o.commitment ≡ ok claims
  pub schema : SchemaAccount
  pub held_schema : chain.schema ≡ some schema
  pub matched : schema_matches_expected chain.decode_text schema ≡ true
  pub account : AttestationAccount
  pub held : chain.attestation ≡ some account
  pub onchain : ReferenceAttestationData
  pub decoded : decode_reference_data chain.deserialize account.data_bytes schema ≡ some onchain
  pub same_reference : SameHex onchain.reference_id id
  pub same_claims : contradicts onchain.commitment claims ≡ false
  pub running : schema.is_paused ≡ false
  pub unexpired : ¬ (IsPast account o.now)

-- Where these grounds hold, the verification ends without an error, calls the reference valid and
-- returns the data decoded.
pub IsLive-verify :
    (o : VerifyOptions) (chain : Chain)
    → (l : IsLive o chain)
    → (r : VerifyResult) × (verify o chain ≡ ok r)
      × (r.status ≡ valid)
      × (r.onchain ≡ some l.onchain)
unfolding verify verify_accounts
IsLive-verify o chain l =
    let v = status_of_iff l.id l.claims o.now l.schema.is_paused l.account l.onchain in
    (
      present_result chain l.id l.claims o.now l.account l.onchain,
      ground (arith, l.asked, l.shown, l.held_schema, l.matched, l.held, l.decoded),
      rw l.held_schema (v.4.1 (l.same_reference, l.same_claims, l.running, l.unexpired)),
      refl,
    )

-- A call that gets to the data of an attestation.
verify_accounts-eq-ok :
    (chain : Chain) (check : Bool) (now : ℕ) (id : Text) (claims : Option Text) (r : VerifyResult)
    (s : Option SchemaAccount) (a : Option AttestationAccount)
    → verify_accounts chain check now id claims s a ≡ ok r
    → (((s ≡ none) × (r.status ≡ not_found)) ⊎ ((a ≡ none) × (r ≡ absent_result chain id check)))
      ⊎ ((schema : SchemaAccount) × (account : AttestationAccount)
          × (onchain : ReferenceAttestationData) × (s ≡ some schema)
          × (a ≡ some account)
          × (schema_matches_expected chain.decode_text schema ≡ true)
          × (decode_reference_data chain.deserialize account.data_bytes schema ≡ some onchain)
          × (r ≡ present_result chain id claims now account onchain))
unfolding verify_accounts
verify_accounts-eq-ok chain check now id claims r none a h = inl (inl (refl, ground arith))
verify_accounts-eq-ok chain check now id claims r (some s) none h = inl (inr (refl, ground arith))
verify_accounts-eq-ok chain check now id claims r (some s) (some a) h =
    elim (Option-cases (decode_reference_data chain.deserialize a.data_bytes s)) [
      | inl e ↦ absurd (ground arith)
      | inr (d, e) ↦ inr (s, a, d, refl, refl, ground arith, e, ground arith)
    ]

verify-eq-ok :
    (o : VerifyOptions) (chain : Chain) (r : VerifyResult)
    → verify o chain ≡ ok r
    → (id : Text) × (claims : Option Text) × (normalize_hex32 o.reference_id ≡ some id)
      × (optional_hex32 o.commitment ≡ ok claims)
      × (verify_accounts chain o.check_revocation_history o.now id claims chain.schema
            chain.attestation
          ≡ ok r)
unfolding verify
verify-eq-ok o chain r h = elim (Option-cases (normalize_hex32 o.reference_id)) [
  | inl e ↦ absurd (ground arith)
  | inr (id, e) ↦ elim (Result-cases (optional_hex32 o.commitment)) [
    | inr (x, f) ↦ absurd (ground arith)
    | inl (claims, f) ↦ (id, claims, e, f, ground arith)
  ]
]

absent-status :
    (chain : Chain) (id : Text) (check : Bool)
    → ((absent_result chain id check).status ≡ not_found)
      ⊎ ((e : RevocationEvidence) × (check ≡ true)
          × ((find_revocation chain.node).evidence ≡ some e)
          × ((absent_result chain id check).revocation ≡ some e)
          × ((absent_result chain id check).status ≡ revoked))
unfolding absent_result
absent-status chain id check = elim (Option-cases (find_revocation chain.node).evidence) [
  | inl e ↦ inl (ground arith)
  | inr (x, e) ↦ elim (Bool-cases check) [
    | inl c ↦ inr (x, c, e, ground arith, ground arith)
    | inr c ↦ inl (ground arith)
  ]
]

present-status :
    (id : Text) (claims : Option Text) (now : ℕ) (paused : Bool) (account : AttestationAccount)
    (onchain : ReferenceAttestationData)
    → status_of id claims now paused account onchain ≢ revoked
unfolding status_of
present-status id claims now paused account onchain = ground arith

-- A reference is called valid only if its schema is the expected one and not paused, its
-- attestation is there and decodes to data of this reference id, the commitment is the anchored
-- one if one was given, and the attestation has no expiry or one that is still to come.
pub verify-IsLive :
    (o : VerifyOptions) (chain : Chain) (r : VerifyResult)
    → verify o chain ≡ ok r
    → r.status ≡ valid
    → IsLive o chain
verify-IsLive o chain r h v =
    let (id, claims, asked, shown, call) = verify-eq-ok o chain r h in
    elim (verify_accounts-eq-ok chain o.check_revocation_history o.now id claims r chain.schema
      chain.attestation call) [
        | inl (inl (e, f)) ↦ absurd (ground arith)
        | inl (inr (e, f)) ↦
            absurd (ground (arith, absent-status chain id o.check_revocation_history))
        | inr (schema, account, onchain, hs, ha, m, d, e) ↦
            let is : status_of id claims o.now schema.is_paused account onchain ≡ valid = cc in
            let g = (status_of_iff id claims o.now schema.is_paused account onchain).4.0 is in
            record {
              id = id;
              asked = asked;
              claims = claims;
              shown = shown;
              schema = schema;
              held_schema = hs;
              matched = m;
              account = account;
              held = ha;
              onchain = onchain;
              decoded = d;
              same_reference = g.0;
              same_claims = g.1;
              running = g.2;
              unexpired = g.3;
            }
      ]

-- A reference is called revoked only if its attestation is absent and one of the five newest
-- successful transactions at its address has, at its top level or in an inner group, an
-- instruction to the attestation program that is identified as a close; the evidence reported is
-- of that transaction and that close.
pub verify-revoked :
    (o : VerifyOptions) (chain : Chain) (r : VerifyResult)
    → verify o chain ≡ ok r
    → r.status ≡ revoked
    → (chain.attestation ≡ none)
      × ((e : RevocationEvidence) × (r.revocation ≡ some e)
          × ((signatures : List SignatureInfo) × (chain.node.signatures ≡ some signatures)
              × Any
                  (IsEvidence chain.node e)
                  (take max_history_transactions (successful signatures))))
verify-revoked o chain r h v =
    let (id, claims, asked, shown, call) = verify-eq-ok o chain r h in
    elim (verify_accounts-eq-ok chain o.check_revocation_history o.now id claims r chain.schema
      chain.attestation call) [
        | inl (inl (e, f)) ↦ absurd (ground arith)
        | inl (inr (e, f)) ↦ elim (absent-status chain id o.check_revocation_history) [
          | inl g ↦ absurd (ground arith)
          | inr (x, c, g, k, st) ↦ (e, (x, cc, find_revocation-Any chain.node x g))
        ]
        | inr (schema, account, onchain, hs, ha, m, d, e) ↦
            let no = present-status id claims o.now schema.is_paused account onchain in
            let is : status_of id claims o.now schema.is_paused account onchain ≡ revoked = cc in
            absurd (no is)
      ]
