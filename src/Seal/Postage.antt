-- ===== src/Seal/Postage.antt =====
-- packages/seal/src/postage.ts: what a batch costs, the wait until it is usable, and the choice of a
-- batch. Prices and durations are whole numbers; a text of progress and the rendering in xBZZ are
-- left out. What the Bee node answers is a parameter.
pub mod Waiting
pub mod Choice
use zegel.Common.{
  ℕ, zero, suc, ◌+◌, ◌-◌, ◌*◌, ◌/◌, ◌^◌, Bool, true, false, not, ◌&&◌, Option, none, some, List, [],
  ◌∷◌, leb, ltb, ◌==◌, if◌then◌else◌,
}
use zegel.Common.Text.{Text}
use zegel.Common.Result.{Result, ok, err, ◌>>=◌}
use zegel.Seal.Errors.{SealError, postage_unavailable}

abbrev pub min_batch_depth : ℕ
min_batch_depth = 17

abbrev pub demo_batch_depth : ℕ
demo_batch_depth = 17

pub data SwarmNetwork : Type 0 where
  gnosis sepolia : SwarmNetwork

abbrev pub block_time_seconds : SwarmNetwork → ℕ
block_time_seconds gnosis = 5
block_time_seconds sepolia = 15

-- `Math.ceil(a / b)`
abbrev pub ceil_div : ℕ → ℕ → ℕ
ceil_div a b = (a + (b - 1)) / b

unfoldable pub amount_for_duration : ℕ → ℕ → SwarmNetwork → Result SealError ℕ
amount_for_duration price duration network =
    if price == 0
    then err postage_unavailable
    else if duration == 0
    then err postage_unavailable
    else ok (price * ceil_div duration (block_time_seconds network))

unfoldable pub batch_cost_plur : ℕ → ℕ → Result SealError ℕ
batch_cost_plur depth amount =
    if ltb depth min_batch_depth then err postage_unavailable else ok (2 ^ depth * amount)

pub record BatchQuote : Type 0 where
  pub depth : ℕ
  pub amount : ℕ
  pub duration : ℕ
  pub network : SwarmNetwork
  pub cost_plur : ℕ

-- What a read of a batch comes to: an answer, a 404, or another failure.
pub data BatchRead : Type 0 where
  found : (usable : Bool) → BatchRead
  missing : BatchRead
  unreadable : BatchRead

pub record BatchInfo : Type 0 where
  pub batch_id : Text
  pub usable : Bool
  pub depth : ℕ
  -- `usage < 1`
  pub has_room : Bool

-- The node: the read of a batch before the wait, the one of each attempt of the wait, the clock
-- after each attempt, all batches, the price (`none` where `/chainstate` cannot be read), and the
-- purchase of a batch from its amount and depth.
pub record BeeNode : Type 0 where
  pub get : Text → BatchRead
  pub poll : Text → ℕ → BatchRead
  pub clock : ℕ → ℕ
  pub all_batches : Option (List BatchInfo)
  pub current_price : Option ℕ
  pub create : ℕ → ℕ → Result SealError Text

unfoldable pub read_storage_price : BeeNode → Result SealError ℕ
read_storage_price bee = elim bee.current_price [ none ↦ err postage_unavailable | some p ↦ ok p ]

unfoldable pub quote_batch : BeeNode → ℕ → ℕ → SwarmNetwork → Result SealError BatchQuote
quote_batch bee depth duration network = do
  price ← read_storage_price bee
  amount ← amount_for_duration price duration network
  cost ← batch_cost_plur depth amount
  ok (record {
    depth = depth;
    amount = amount;
    duration = duration;
    network = network;
    cost_plur = cost;
  })

pub record WaitOptions : Type 0 where
  pub started : ℕ
  pub timeout : ℕ
  pub poll_ms : ℕ

-- What one attempt tells the loop.
pub data Attempt : Type 0 where
  done failed again : Attempt

abbrev pub attempt_of : BatchRead → Attempt
attempt_of (found usable) = if usable then done else again
attempt_of missing = again
attempt_of unreadable = failed

-- The loop from an attempt on; `none` means that the fuel ran out.
unfoldable pub wait_from :
    (ℕ → BatchRead) → (ℕ → ℕ) → ℕ → ℕ → ℕ → Option (Result SealError (Unit {0}))
wait_from poll clock deadline zero k = none
wait_from poll clock deadline (suc fuel) k =
    let rest = wait_from poll clock deadline fuel (k + 1) in
    elim (attempt_of (poll k)) [
      | done ↦ some (ok tt)
      | failed ↦ some (err postage_unavailable)
      | again ↦ if leb deadline (clock k) then some (err postage_unavailable) else rest
    ]

abbrev pub enough_attempts : WaitOptions → ℕ
enough_attempts w = suc (w.timeout / w.poll_ms + 1)

unfoldable pub wait_for_usable_batch :
    BeeNode → Text → WaitOptions → Option (Result SealError (Unit {0}))
wait_for_usable_batch bee id w =
    wait_from (bee.poll id) bee.clock (w.started + w.timeout) (enough_attempts w) 1

abbrev pub waited : Option (Result SealError (Unit {0})) → Text → Result SealError Text
waited (some (ok u)) id = ok id
waited (some (err e)) id = err e
waited none id = err postage_unavailable

pub record EnsureOptions : Type 0 where
  -- `batchId`, with `none` for an absent one and for the empty text
  pub batch_id : Option Text
  pub depth : ℕ
  pub duration : ℕ
  pub network : SwarmNetwork
  pub allow_purchase : Bool
  pub wait : WaitOptions

abbrev pub is_reusable : ℕ → BatchInfo → Bool
is_reusable depth b = b.usable && (leb depth b.depth && b.has_room)

unfoldable pub find_reusable : ℕ → List BatchInfo → Option BatchInfo
find_reusable depth [] = none
find_reusable depth (b ∷ bs) = if is_reusable depth b then some b else find_reusable depth bs

-- `getAll().catch(() => [])`
abbrev pub batches_of : Option (List BatchInfo) → List BatchInfo
batches_of none = []
batches_of (some bs) = bs

-- A purchase, by its amount and depth, that the node was asked for.
pub record Purchase : Type 0 where
  pub amount : ℕ
  pub depth : ℕ

unfoldable pub configured_batch : BeeNode → Text → WaitOptions → Result SealError Text
configured_batch bee id w = elim (bee.get id) [
  | found usable ↦ if usable then ok id else waited (wait_for_usable_batch bee id w) id
  | missing ↦ err postage_unavailable
  | unreadable ↦ err postage_unavailable
]

abbrev bought : BeeNode → WaitOptions → Result SealError Text → Result SealError Text
bought bee w (ok id) = waited (wait_for_usable_batch bee id w) id
bought bee w (err e) = err e

abbrev purchase_for :
    BeeNode → EnsureOptions → Result SealError BatchQuote → Result SealError Text × List Purchase
purchase_for bee o (err e) = (err e, [])
purchase_for bee o (ok quote) = (
  bought bee o.wait (bee.create quote.amount o.depth),
  record { amount = quote.amount; depth = o.depth } ∷ [],
)

-- The batch, and the purchases that were asked for on the way.
unfoldable pub ensure_usable_batch : BeeNode → EnsureOptions → Result SealError Text × List Purchase
ensure_usable_batch bee o = elim o.batch_id [
  | some id ↦ (configured_batch bee id o.wait, [])
  | none ↦ elim (find_reusable o.depth (batches_of bee.all_batches)) [
    | some b ↦ (ok b.batch_id, [])
    | none ↦
        if o.allow_purchase
        then purchase_for bee o (quote_batch bee o.depth o.duration o.network)
        else (err postage_unavailable, [])
  ]
]
