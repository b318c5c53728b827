-- ===== src/Seal/Postage/Choice.antt =====
-- packages/seal/src/postage.ts: the choice of a batch, and its price.
use zegel.Common.{
  ℕ, ◌+◌, ◌*◌, ◌≡◌, inl, inr, ◌≤◌, ◌<◌, true, none, some, List, [], ◌∷◌, Any, sym, arith,
  Bool-cases, Option-cases,
}
use zegel.Common.Result.{ok, Result-cases}
use zegel.Seal.Postage.{
  SwarmNetwork, gnosis, sepolia, block_time_seconds, ceil_div, amount_for_duration, BatchQuote,
  BatchInfo, BeeNode, EnsureOptions, Purchase, quote_batch, is_reusable, find_reusable, batches_of,
  ensure_usable_batch,
}

find_reusable-Any :
    (depth : ℕ) (bs : List BatchInfo) (b : BatchInfo)
    → find_reusable depth bs ≡ some b
    → (is_reusable depth b ≡ true) × Any (λ c. c ≡ b) bs
unfolding find_reusable
find_reusable-Any depth [] b h = absurd (cc)
find_reusable-Any depth (c ∷ cs) b h = elim (Bool-cases (is_reusable depth c)) [
  | inl e ↦ let same : c ≡ b = ground arith in (rw (sym same) e, inl same)
  | inr e ↦ let rest = find_reusable-Any depth cs b (ground arith) in (rest.0, inr rest.1)
]

-- A purchase is asked for only if the caller allowed it, no batch was configured and none can be
-- reused; it is the only one, has the depth asked for, and its amount is that of the quote.
pub ensure_usable_batch-purchase :
    (bee : BeeNode) (o : EnsureOptions) (p : Purchase) (ps : List Purchase)
    → (ensure_usable_batch bee o).1 ≡ p ∷ ps
    → (o.allow_purchase ≡ true)
      × (o.batch_id ≡ none)
      × (find_reusable o.depth (batches_of bee.all_batches) ≡ none)
      × (ps ≡ [])
      × (p.depth ≡ o.depth)
      × ((quote : BatchQuote) × (quote_batch bee o.depth o.duration o.network ≡ ok quote)
          × (p.amount ≡ quote.amount))
unfolding ensure_usable_batch
ensure_usable_batch-purchase bee o p ps h = elim (Option-cases o.batch_id) [
  | inr (id, e) ↦ absurd (ground arith)
  | inl e ↦ elim (Option-cases (find_reusable o.depth (batches_of bee.all_batches))) [
    | inr (b, f) ↦ absurd (ground arith)
    | inl f ↦ elim (Result-cases (quote_batch bee o.depth o.duration o.network)) [
      | inr (x, g) ↦ absurd (ground arith)
      | inl (quote, g) ↦ (ground arith, e, f, ground arith, ground arith, (quote, g, ground arith))
    ]
  ]
]

-- Reuse.
ensure_usable_batch-reuse :
    (bee : BeeNode) (o : EnsureOptions) (b : BatchInfo)
    → o.batch_id ≡ none
    → find_reusable o.depth (batches_of bee.all_batches) ≡ some b
    → (ensure_usable_batch bee o ≡ (ok b.batch_id, []))
      × (b.usable ≡ true)
      × (o.depth ≤ b.depth)
      × (b.has_room ≡ true)
      × Any (λ c. c ≡ b) (batches_of bee.all_batches)
unfolding ensure_usable_batch
ensure_usable_batch-reuse bee o b e f =
    let (reusable, held) = find_reusable-Any o.depth (batches_of bee.all_batches) b f in
    (ground arith, ground arith, ground arith, ground arith, held)

-- An amount is the price times a number of blocks that lasts at least the duration, and less than
-- one block longer.
amount_for_duration_bounds :
    (price duration : ℕ) (network : SwarmNetwork) (amount : ℕ)
    → amount_for_duration price duration network ≡ ok amount
    → (blocks : ℕ) × (amount ≡ price * blocks)
      × (duration ≤ blocks * block_time_seconds network)
      × (blocks * block_time_seconds network < duration + block_time_seconds network)
unfolding amount_for_duration
amount_for_duration_bounds price duration network amount h =
    (ceil_div duration (block_time_seconds network), ground arith, lower network, upper network)
  where
    lower :
        (n : SwarmNetwork)
        → duration ≤ ceil_div duration (block_time_seconds n) * block_time_seconds n
    lower gnosis = omega arith
    lower sepolia = omega arith

    upper :
        (n : SwarmNetwork)
        → ceil_div duration (block_time_seconds n) * block_time_seconds n
          < duration + block_time_seconds n
    upper gnosis = omega arith
    upper sepolia = omega arith
