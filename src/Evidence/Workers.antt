-- ===== src/Evidence/Workers.antt =====
-- packages/evidence/src/collect.ts: `runPlan`, in which several workers share the index of the next
-- request. A turn is what a worker does up to its next `await`; what the request of a slot brings is
-- a parameter, and a request that throws is not modelled.
pub mod Laws
pub mod Complete
use zegel.Common.{
  ℕ, zero, suc, ◌+◌, Bool, true, false, Option, none, some, List, [], ◌∷◌, ◌++◌, get_elem?,
  replicate, min, max, ltb, ◌==◌, if◌then◌else◌,
}

pub data Worker : Type 0 where
  idle : Worker
  busy : ℕ → Worker
  ended : Worker

-- `results` is read at the slots of the plan.
pub record Pool (R : Type 0) : Type 0 where
  pub next : ℕ
  pub done : ℕ
  pub results : ℕ → Option R
  pub workers : List Worker

unfoldable pub set_worker : List Worker → ℕ → Worker → List Worker
set_worker [] i w = []
set_worker (v ∷ vs) zero w = w ∷ vs
set_worker (v ∷ vs) (suc i) w = v ∷ set_worker vs i w

module _ {R : Type 0} where
  unfoldable pub store_result : ℕ → R → (ℕ → Option R) → ℕ → Option R
  store_result slot r results j = if slot == j then some r else results j

  -- An idle worker takes the next slot, or ends where the plan has none; a busy one stores its result.
  unfoldable pub turn_of : ℕ → (ℕ → R) → ℕ → Option Worker → Pool R → Pool R
  turn_of n outcome i none p = p
  turn_of n outcome i (some ended) p = p
  turn_of n outcome i (some idle) p = record p {
    next = p.next + 1;
    workers = set_worker p.workers i (if ltb p.next n then busy p.next else ended);
  }
  turn_of n outcome i (some (busy slot)) p = record p {
    done = p.done + 1;
    results = store_result slot (outcome slot) p.results;
    workers = set_worker p.workers i idle;
  }

  unfoldable pub turn : ℕ → (ℕ → R) → ℕ → Pool R → Pool R
  turn n outcome i p = turn_of n outcome i (get_elem? p.workers i) p

  -- The turns in the order in which the event loop grants them.
  unfoldable pub run_turns : ℕ → (ℕ → R) → List ℕ → Pool R → Pool R
  run_turns n outcome [] p = p
  run_turns n outcome (i ∷ is) p = run_turns n outcome is (turn n outcome i p)

  -- `Array.from({ length: Math.min(concurrency, plan.length) }, worker)`
  unfoldable pub new_pool : ℕ → ℕ → Pool R
  new_pool n concurrency = record {
    next = 0;
    done = 0;
    results = λ j. none;
    workers = replicate (min concurrency n) idle;
  }

  abbrev kept : Option R → List R
  kept none = []
  kept (some r) = r ∷ []

  -- `results.filter((r) => r !== undefined)`, from a slot on.
  unfoldable pub results_from : ℕ → ℕ → (ℕ → Option R) → List R
  results_from zero j results = []
  results_from (suc n) j results = kept (results j) ++ results_from n (j + 1) results
