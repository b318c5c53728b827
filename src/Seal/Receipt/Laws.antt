-- ===== src/Seal/Receipt/Laws.antt =====
-- packages/seal/src/receipt.ts: coordinates that pass through the public record of a tier.
use zegel.Common.{◌≡◌, refl, Bool, none, some, Option}
use zegel.Common.Text.{Text}
use zegel.Common.Result.{ok, ◌>>=◌}
use zegel.Seal.Pubkey.{grantee_public_key}
use zegel.Seal.Refs.{swarm_reference, history_address}
use zegel.Seal.Receipt.{SealReceipt, coordinates_of, to_sealed_tier, coordinates_from_tier}

-- The coordinates are in the normal form that a seal writes them in.
pub record IsNormal (on_curve : Text → Bool) (r : SealReceipt) : Type 0 where
  pub reference : swarm_reference r.swarm_ref ≡ ok r.swarm_ref
  pub history : history_address r.act_history_address ≡ ok r.act_history_address
  pub publisher : (p : Text) → r.act_publisher ≡ some p → grantee_public_key on_curve p ≡ ok p

-- The coordinates that are read from the public tier of a receipt in normal form are the
-- receipt's, and both fail alike where its publisher is unknown.
coordinates_from_tier-to_sealed_tier :
    (on_curve : Text → Bool) (r : SealReceipt)
    → IsNormal on_curve r
    → (to_sealed_tier r >>= coordinates_from_tier on_curve) ≡ coordinates_of r
unfolding to_sealed_tier coordinates_of coordinates_from_tier
coordinates_from_tier-to_sealed_tier on_curve r h = go r.act_publisher refl
  where
    go :
        (o : Option Text)
        → r.act_publisher ≡ o
        → (to_sealed_tier r >>= coordinates_from_tier on_curve) ≡ coordinates_of r
    go none e = rw e refl
    go (some p) e = rw (e, h.reference, h.history, h.publisher p e) refl
