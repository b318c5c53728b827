-- ===== src/Contracts/Anchor.antt =====
-- contracts/src/ZegelAnchor.sol: anchoring, revoking and verifying a reference. A `bytes32` and an
-- address are numbers; events are left out. `sender` and `time` are `msg.sender` and
-- `block.timestamp`.
pub mod Laws
use zegel.Common.{
  ℕ, ◌^◌, ◌%◌, Bool, true, false, not, List, [], ◌∷◌, ltb, leb, ◌==◌, ◌&&◌, if◌then◌else◌,
}
use zegel.Common.Result.{Result, ok, err, ◌>>=◌, ◌>>◌, throw_if}

pub data Revert : Type 0 where
  zero_reference_id zero_commitment expiry_in_past : Revert
  not_issuer not_anchored already_revoked reason_too_long : Revert

pub data Status : Type 0 where
  never_anchored valid expired revoked commitment_mismatch : Status

pub record Anchor : Type 0 where
  pub commitment : ℕ
  pub issuer : ℕ
  pub expires_at : ℕ
  pub anchored_at : ℕ
  pub revoked_at : ℕ

-- `mapping(bytes32 => Anchor)`
abbrev pub Anchors : Type 0
Anchors = ℕ → Anchor

abbrev pub no_anchor : Anchor
no_anchor = record { commitment = 0; issuer = 0; expires_at = 0; anchored_at = 0; revoked_at = 0 }

abbrev pub max_reason_bytes : ℕ
max_reason_bytes = 256

-- `uint64(…)`
abbrev pub uint64 : ℕ → ℕ
uint64 n = n % 2 ^ 64

abbrev pub update : ℕ → Anchor → Anchors → Anchors
update reference a m id = if id == reference then a else m id

-- Who is the issuer after the checks of `anchor`.
unfoldable pub issuer_for : ℕ → Anchor → Result Revert ℕ
issuer_for sender a =
    if a.anchored_at == 0
    then ok sender
    else if not (a.issuer == sender)
    then err not_issuer
    else if not (a.revoked_at == 0)
    then err already_revoked
    else ok a.issuer

unfoldable pub anchor :
    (sender time reference commitment expires_at : ℕ) → Anchors → Result Revert Anchors
anchor sender time reference commitment expires_at m = do
  throw_if (reference == 0) zero_reference_id
  throw_if (commitment == 0) zero_commitment
  throw_if (leb expires_at time) expiry_in_past
  issuer ← issuer_for sender (m reference)
  ok (
      update reference
        (record (m reference) {
          commitment = commitment;
          issuer = issuer;
          expires_at = expires_at;
          anchored_at = uint64 time;
        })
        m)

unfoldable pub revoke : (sender time reference reason_length : ℕ) → Anchors → Result Revert Anchors
revoke sender time reference reason_length m = do
  throw_if ((m reference).anchored_at == 0) not_anchored
  throw_if (not ((m reference).issuer == sender)) not_issuer
  throw_if (not ((m reference).revoked_at == 0)) already_revoked
  throw_if (ltb max_reason_bytes reason_length) reason_too_long
  ok (update reference (record (m reference) { revoked_at = uint64 time }) m)

unfoldable pub is_valid : ℕ → ℕ → Anchors → Bool
is_valid time reference m =
    not ((m reference).anchored_at == 0)
    && (m reference).revoked_at == 0
    && ltb time (m reference).expires_at

unfoldable pub verify : (time reference commitment : ℕ) → Anchors → Status
verify time reference commitment m =
    let a = m reference in
    if a.anchored_at == 0
    then never_anchored
    else if not (a.revoked_at == 0)
    then revoked
    else if leb a.expires_at time
    then expired
    else if not (a.commitment == commitment)
    then commitment_mismatch
    else valid

-- A transaction, with its sender and the time of its block.
pub data Call : Type 0 where
  anchor_call : (sender time reference commitment expires_at : ℕ) → Call
  revoke_call : (sender time reference reason_length : ℕ) → Call

abbrev or_before : Result Revert Anchors → Anchors → Anchors
or_before (ok m) before = m
or_before (err e) before = before

-- A call that reverts leaves the state as it was.
unfoldable pub execute : Call → Anchors → Anchors
execute (anchor_call s t r c e) m = or_before (anchor s t r c e m) m
execute (revoke_call s t r n) m = or_before (revoke s t r n m) m

unfoldable pub execute_all : List Call → Anchors → Anchors
execute_all [] m = m
execute_all (c ∷ cs) m = execute_all cs (execute c m)
