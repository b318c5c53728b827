-- ===== src/Contracts/Tests.antt =====
-- Concrete runs of the anchor contract.
use zegel.Common.{◌≡◌, refl, [], ◌∷◌, arith}
use zegel.Common.Result.{ok}
use zegel.Contracts.Anchor.{
  Anchor, Anchors, anchor_call, revoked, no_anchor, update, anchor, revoke, verify, execute_all,
  issuer_for,
}
use zegel.Contracts.Anchor.Laws.{verify-revoke}

abbrev live : Anchor
live = record { commitment = 77; issuer = 5; expires_at = 9000; anchored_at = 1000; revoked_at = 0 }

abbrev state : Anchors
state = update 3 live (λ id. no_anchor)

abbrev revoked_state : Anchors
revoked_state = update 3 (record live { revoked_at = 2000 }) state

anchored_first : anchor 5 1000 3 77 9000 (λ id. no_anchor) ≡ ok state
unfolding anchor issuer_for
anchored_first = refl

revoked_by_issuer : revoke 5 2000 3 10 state ≡ ok revoked_state
unfolding revoke
revoked_by_issuer = refl

-- The issuer tries to anchor the reference again.
verify-revoke_example :
    verify 2500 3 77 (execute_all (anchor_call 5 2400 3 77 9000 ∷ []) revoked_state) ≡ revoked
verify-revoke_example =
    verify-revoke 5 2000 3 10 state revoked_state (anchor_call 5 2400 3 77 9000 ∷ []) 2500 77
      (λ e. absurd (omega arith)) revoked_by_issuer
