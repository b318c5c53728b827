-- ===== src/Seal/Refs.antt =====
-- packages/seal/src/refs.ts: Swarm references and history addresses. The two brands are texts; a value
-- that is no text is left out of the two tests.
pub mod Laws
use zegel.Common.{Bool, not, ◌&&◌, ◌||◌, all, length, ◌==◌, if◌then◌else◌}
use zegel.Common.Text.{Text, to_lower_case, is_hex_digit}
use zegel.Common.Result.{Result, ok, err}
use zegel.Seal.Errors.{SealError, invalid_envelope}
use zegel.Seal.Pubkey.{strip_0x}

-- `/^[A-Fa-f0-9]{64}(?:[A-Fa-f0-9]{64})?$/`
abbrev pub is_reference_hex : Text → Bool
is_reference_hex s = all is_hex_digit s && (length s == 64 || length s == 128)

-- `/^[A-Fa-f0-9]{64}$/`
abbrev pub is_history_hex : Text → Bool
is_history_hex s = all is_hex_digit s && length s == 64

unfoldable pub swarm_reference : Text → Result SealError Text
swarm_reference value =
    let hex = strip_0x value in
    if not (is_reference_hex hex) then err invalid_envelope else ok (to_lower_case hex)

unfoldable pub history_address : Text → Result SealError Text
history_address value =
    let hex = strip_0x value in
    if not (is_history_hex hex) then err invalid_envelope else ok (to_lower_case hex)

unfoldable pub is_swarm_reference : Text → Bool
is_swarm_reference value = is_reference_hex (strip_0x value)

unfoldable pub is_history_address : Text → Bool
is_history_address value = is_history_hex (strip_0x value)
