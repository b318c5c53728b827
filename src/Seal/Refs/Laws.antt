-- ===== src/Seal/Refs/Laws.antt =====
-- packages/seal/src/refs.ts and pubkey.ts: the normal forms are their own normal forms.
use zegel.Common.{◌≡◌, Bool, true, [], ◌∷◌, all, arith}
use zegel.Common.Text.{
  Text, text_eq, to_lower_case_idem, is_hex_digit, trim_hex, all-to_lower_case,
  length-to_lower_case,
}
use zegel.Common.Result.{ok}
use zegel.Seal.Pubkey.{strip_0x, grantee_public_key}
use zegel.Seal.Refs.{swarm_reference, history_address}

-- Hexadecimal digits alone do not begin with `0x`.
strip_0x-hex : (s : Text) → all is_hex_digit s ≡ true → strip_0x s ≡ s
unfolding strip_0x text_eq
strip_0x-hex [] h = ground (arith, trim_hex [])
strip_0x-hex (c ∷ []) h = ground (arith, trim_hex (c ∷ []))
strip_0x-hex (c ∷ d ∷ s) h = ground (arith, trim_hex (c ∷ d ∷ s))

swarm_reference_idem : (value s : Text) → swarm_reference value ≡ ok s → swarm_reference s ≡ ok s
unfolding swarm_reference
swarm_reference_idem value s h =
    let hex = strip_0x value in
    ground (
      arith,
      strip_0x-hex s,
      all-to_lower_case hex,
      length-to_lower_case hex,
      to_lower_case_idem hex,
    )

history_address_idem : (value s : Text) → history_address value ≡ ok s → history_address s ≡ ok s
unfolding history_address
history_address_idem value s h =
    let hex = strip_0x value in
    ground (
      arith,
      strip_0x-hex s,
      all-to_lower_case hex,
      length-to_lower_case hex,
      to_lower_case_idem hex,
    )

grantee_public_key_idem :
    (on_curve : Text → Bool) (value s : Text)
    → grantee_public_key on_curve value ≡ ok s
    → grantee_public_key on_curve s ≡ ok s
unfolding grantee_public_key
grantee_public_key_idem on_curve value s h =
    let hex = strip_0x value in
    ground (
      arith,
      strip_0x-hex s,
      all-to_lower_case hex,
      length-to_lower_case hex,
      to_lower_case_idem hex,
    )
