-- ===== src/Seal/Tests.antt =====
-- Concrete runs: grantees, a batch that becomes usable, and two patches of which the second waits out
-- the floor.
mod Client
mod Keeper
use zegel.Common.{
  ℕ, ◌+◌, ◌-◌, ◌*◌, ◌≤◌, ◌<◌, ◌≡◌, ◌≢◌, refl, ap, true, false, none, some, List, [], ◌∷◌, ◌++◌, any,
  replicate, leb, arith, if◌then◌else◌,
}
use zegel.Common.Text.{Text, codes, text_eq, to_lower_case, trim}
use zegel.Common.Result.{ok}
use zegel.Seal.Pubkey.{grantee_public_key, normalise_from, normalise_grantees}
use zegel.Seal.Pubkey.Laws.{IsDistinct, has_form}
use zegel.Seal.Postage.{
  gnosis, BatchQuote, found, missing, BeeNode, WaitOptions, done, attempt_of, wait_from,
  wait_for_usable_batch, EnsureOptions, find_reusable, batches_of, Purchase, ensure_usable_batch,
  quote_batch, read_storage_price, amount_for_duration, batch_cost_plur,
}
use zegel.Seal.Postage.Waiting.{Pending, wait_for_usable_batch-ne-none, wait_for_usable_batch-eq-ok}
use zegel.Seal.Postage.Choice.{ensure_usable_batch-purchase}
use zegel.Seal.Queue.{
  PatchQueue, fresh, depth, enqueue, take_task, start, settle, at_time, enqueues, passes, takes,
  starts, settles, Reach, here, next,
}
use zegel.Seal.Queue.Invariant.{IsSpaced, begun_tasks, in_hand}
use zegel.Seal.Queue.Promises.{log-IsSpaced, tasks_begin_in_order, queue_can_drain}

abbrev two_queued : PatchQueue
two_queued = enqueue 8 (enqueue 7 (fresh 1100 5000))

abbrev one_done : PatchQueue
one_done = settle 7 (at_time 5200 (start 7 (take_task 7 (8 ∷ []) two_queued)))

abbrev second_runs : PatchQueue
second_runs = start 8 (at_time 6300 (take_task 8 [] one_done))

Reach-two_queued : Reach (fresh 1100 5000) two_queued
Reach-two_queued = next (next here (enqueues 7 refl)) (enqueues 8 refl)

Reach-one_done : Reach (fresh 1100 5000) one_done
unfolding enqueue take_task start zegel.Seal.Queue.wait_ms
Reach-one_done =
    next
      (next
        (next (next Reach-two_queued (takes 7 (8 ∷ []) refl refl refl))
          (starts 7 5000 refl (omega arith) refl))
        (passes 5200 (omega arith) refl))
      (settles 7 refl refl)

Reach-second_runs : Reach (fresh 1100 5000) second_runs
unfolding enqueue take_task start settle zegel.Seal.Queue.wait_ms
Reach-second_runs =
    next (next (next Reach-one_done (takes 8 [] refl refl refl)) (passes 6300 (omega arith) refl))
      (starts 8 6300 refl (omega arith) refl)

log-IsSpaced_example : IsSpaced 1100 second_runs.log
log-IsSpaced_example = log-IsSpaced 1100 5000 second_runs Reach-second_runs

tasks_begin_in_order_example :
    second_runs.accepted
    ≡ begun_tasks second_runs.log ++ (in_hand second_runs.phase ++ second_runs.waiting)
tasks_begin_in_order_example = tasks_begin_in_order 1100 5000 second_runs Reach-second_runs

queue_can_drain_example :
    (r : PatchQueue) × Reach second_runs r
    × (depth r ≡ 0)
    × (begun_tasks r.log ≡ second_runs.accepted)
queue_can_drain_example = queue_can_drain 1100 5000 second_runs Reach-second_runs

abbrev key_2 : Text
key_2 = codes "02" ++ replicate 64 b'a'

abbrev key_2_upper : Text
key_2_upper = codes "0x02" ++ replicate 64 b'A'

normalise_grantees_ok :
    normalise_grantees (λ key. true) (key_2 ∷ key_2_upper ∷ []) ≡ ok (key_2 ∷ [])
unfolding normalise_grantees normalise_from grantee_public_key zegel.Seal.Pubkey.strip_0x trim
    text_eq to_lower_case
normalise_grantees_ok = refl

-- A node whose batches become usable at the third attempt, and which has none that can be reused.
abbrev bee : BeeNode
bee = record {
  get = λ id. found false;
  poll = λ id k. if leb 3 k then found true else missing;
  clock = λ k. 1000 + (k - 1) * 3000;
  all_batches =
      some (record { batch_id = codes "old"; usable = true; depth = 16; has_room = true } ∷ []);
  current_price = some 100;
  create = λ amount depth. ok (codes "new");
}

abbrev waiting : WaitOptions
waiting = record { started = 1000; timeout = 180000; poll_ms = 3000 }

abbrev choice : EnsureOptions
choice = record {
  batch_id = none;
  depth = 17;
  duration = 12;
  network = gnosis;
  allow_purchase = true;
  wait = waiting;
}

wait_for_usable_batch_ok : wait_for_usable_batch bee (codes "b") waiting ≡ some (ok tt)
unfolding wait_for_usable_batch wait_from
wait_for_usable_batch_ok = refl

ensure_usable_batch_ok :
    ensure_usable_batch bee choice ≡ (ok (codes "new"), record { amount = 300; depth = 17 } ∷ [])
unfolding ensure_usable_batch find_reusable quote_batch read_storage_price amount_for_duration
    batch_cost_plur wait_for_usable_batch wait_from
ensure_usable_batch_ok = refl

clock_runs : (k : ℕ) → 1000 + k * 3000 ≤ bee.clock (k + 1)
clock_runs k = omega arith

wait_for_usable_batch-ne-none_example : wait_for_usable_batch bee (codes "b") waiting ≢ none
wait_for_usable_batch-ne-none_example =
    wait_for_usable_batch-ne-none bee (codes "b") waiting (omega arith) clock_runs

abbrev no_purchases : List Purchase
no_purchases = []

ensure_usable_batch-purchase_example :
    (true ≡ true)
    × (choice.batch_id ≡ none)
    × (find_reusable 17 (batches_of bee.all_batches) ≡ none)
    × (no_purchases ≡ [])
    × (17 ≡ choice.depth)
    × ((quote : BatchQuote) × (quote_batch bee 17 12 gnosis ≡ ok quote) × (300 ≡ quote.amount))
ensure_usable_batch-purchase_example =
    ensure_usable_batch-purchase bee choice (record { amount = 300; depth = 17 }) []
      (ap (λ r. r.1) ensure_usable_batch_ok)

amount_for_duration_ok : amount_for_duration 100 12 gnosis ≡ ok 300
unfolding amount_for_duration
amount_for_duration_ok = refl
