-- ===== src/Evidence/Workers/Complete.antt =====
-- packages/evidence/src/collect.ts: however the workers take turns, each slot gets the result of its own
-- request, and the plan is done after a known number of turns.
use zegel.Common.{
  ℕ, zero, suc, ◌+◌, ◌-◌, ◌*◌, ◌≤◌, ◌<◌, ◌≡◌, refl, ap, ◌∙◌, true, false, Option, none, some, List,
  [], ◌∷◌, length, get_elem?, replicate, length-replicate, all, any, min, ltb, if◌then◌else◌, inl,
  inr, Bool-cases, arith,
}
use zegel.Evidence.Workers.{
  Worker, idle, busy, ended, Pool, set_worker, turn_of, turn, run_turns, new_pool, results_from,
}
use zegel.Evidence.Workers.Laws.{
  is_at, is_ended, busy_of, turns_of, total, total-set_worker, IsPool, taken-IsPool, stored-IsPool,
}

length-set_worker : (ws : List Worker) (i : ℕ) (w : Worker) → length (set_worker ws i w) ≡ length ws
unfolding set_worker
length-set_worker [] i w = refl
length-set_worker (v ∷ ws) zero w = refl
length-set_worker (v ∷ ws) (suc i) w = ap suc (length-set_worker ws i w)

all_ended-none_busy :
    (ws : List Worker) (j : ℕ)
    → all is_ended ws ≡ true
    → (any (is_at j) ws ≡ false) × (total busy_of ws ≡ 0)
all_ended-none_busy [] j h = (refl, refl)
all_ended-none_busy (idle ∷ ws) j h = absurd cc
all_ended-none_busy (busy s ∷ ws) j h = absurd cc
all_ended-none_busy (ended ∷ ws) j h =
    let (a, b) = all_ended-none_busy ws j h in (a, omega (arith, b))

all_ended-any : (ws : List Worker) → all is_ended ws ≡ true → 0 < length ws → any is_ended ws ≡ true
all_ended-any [] h lt = absurd (omega arith)
all_ended-any (w ∷ ws) h lt = ground arith

total_zero : (ws : List Worker) → total turns_of ws ≡ 0 → all is_ended ws ≡ true
total_zero [] h = refl
total_zero (idle ∷ ws) h = absurd (omega arith)
total_zero (busy s ∷ ws) h = absurd (omega arith)
total_zero (ended ∷ ws) h = total_zero ws (omega arith)

replicate_idle :
    (k : ℕ)
    → (total busy_of (replicate k idle) ≡ 0)
      × (total turns_of (replicate k idle) ≡ k)
      × (any is_ended (replicate k idle) ≡ false)
replicate_idle zero = (refl, refl, refl)
replicate_idle (suc k) = let (a, b, c) = replicate_idle k in (omega (arith, a), omega (arith, b), c)

module _ {R : Type 0} (n : ℕ) (outcome : ℕ → R) where
  -- The turns that are left, where each worker that still runs gets every other one.
  abbrev turns_left : Pool R → ℕ
  turns_left p = 2 * (n - p.next) + total turns_of p.workers

  -- A turn goes to a worker that has not ended.
  abbrev IsLive : ℕ → Pool R → Type 0
  IsLive i p = (w : Worker) × (get_elem? p.workers i ≡ some w) × (is_ended w ≡ false)

  -- Every turn of the schedule does.
  abbrev pub AreLive : List ℕ → Pool R → Type 0
  AreLive [] p = Unit
  AreLive (i ∷ is) p = IsLive i p × AreLive is (turn n outcome i p)

  abbrev pub outcomes_from : ℕ → ℕ → List R
  outcomes_from zero j = []
  outcomes_from (suc k) j = outcome j ∷ outcomes_from k (j + 1)

  turn_of-IsPool :
      (p : Pool R) (i : ℕ) (o : Option Worker)
      → get_elem? p.workers i ≡ o
      → IsPool n outcome p
      → IsPool n outcome (turn_of n outcome i o p)
  unfolding turn_of
  turn_of-IsPool p i none e h = h
  turn_of-IsPool p i (some ended) e h = h
  turn_of-IsPool p i (some idle) e h = taken-IsPool n outcome p i h e
  turn_of-IsPool p i (some (busy slot)) e h = stored-IsPool n outcome p i slot h e

  run_turns-IsPool :
      (is : List ℕ) (p : Pool R) → IsPool n outcome p → IsPool n outcome (run_turns n outcome is p)
  unfolding run_turns turn
  run_turns-IsPool [] p h = h
  run_turns-IsPool (i ∷ is) p h =
      run_turns-IsPool is (turn n outcome i p) (turn_of-IsPool p i (get_elem? p.workers i) refl h)

  turn_of-length :
      (p : Pool R) (i : ℕ) (o : Option Worker)
      → length (turn_of n outcome i o p).workers ≡ length p.workers
  unfolding turn_of
  turn_of-length p i none = refl
  turn_of-length p i (some ended) = refl
  turn_of-length p i (some idle) =
      length-set_worker p.workers i (if ltb p.next n then busy p.next else ended)
  turn_of-length p i (some (busy slot)) = length-set_worker p.workers i idle

  run_turns-length :
      (is : List ℕ) (p : Pool R) → length (run_turns n outcome is p).workers ≡ length p.workers
  unfolding run_turns turn
  run_turns-length [] p = refl
  run_turns-length (i ∷ is) p =
      run_turns-length is (turn n outcome i p) ∙ turn_of-length p i (get_elem? p.workers i)

  turn_of-turns_left :
      (p : Pool R) (i : ℕ) (w : Worker)
      → get_elem? p.workers i ≡ some w
      → is_ended w ≡ false
      → turns_left (turn_of n outcome i (some w) p) + 1 ≡ turns_left p
  unfolding turn_of
  turn_of-turns_left p i ended e h = absurd cc
  turn_of-turns_left p i idle e h = elim (Bool-cases (ltb p.next n)) [
    | inl more ↦
        rw more (ground (arith, total-set_worker turns_of p.workers i idle (busy p.next) e))
    | inr none_left ↦
        rw none_left (ground (arith, total-set_worker turns_of p.workers i idle ended e))
  ]
  turn_of-turns_left p i (busy slot) e h =
      omega (arith, total-set_worker turns_of p.workers i (busy slot) idle e)

  run_turns-turns_left :
      (is : List ℕ) (p : Pool R)
      → AreLive is p
      → turns_left (run_turns n outcome is p) + length is ≡ turns_left p
  unfolding run_turns turn
  run_turns-turns_left [] p h = omega arith
  run_turns-turns_left (i ∷ is) p ((w, e, live), h) =
      let step : turns_left (turn n outcome i p) + 1 ≡ turns_left p =
        ap (λ o. turns_left (turn_of n outcome i o p) + 1) e ∙ turn_of-turns_left p i w e live in
      omega (arith, step, run_turns-turns_left is (turn n outcome i p) h)

  -- Every slot has its result, in the order of the plan.
  results_from_all :
      (k j : ℕ) (results : ℕ → Option R)
      → ((i : ℕ) → i < j + k → results i ≡ some (outcome i))
      → results_from k j results ≡ outcomes_from k j
  unfolding results_from
  results_from_all zero j results h = refl
  results_from_all (suc k) j results h =
      rw (h j (omega arith))
        (ap (◌∷◌ (outcome j)) (results_from_all k (j + 1) results (λ i lt. h i (omega arith))))

  -- Once the workers have ended, the results are those of the plan.
  ended_complete :
      (p : Pool R)
      → IsPool n outcome p
      → all is_ended p.workers ≡ true
      → (0 < n → 0 < length p.workers)
      → (results_from n 0 p.results ≡ outcomes_from n 0) × (p.done ≡ n)
  ended_complete p h ends some_worker =
      let past : n ≤ p.next = elim (Bool-cases (ltb 0 n)) [
        | inl pos ↦
            omega (arith, h.ended (all_ended-any p.workers ends (some_worker (ground arith))))
        | inr none_planned ↦ ground arith
      ] in
      (
        results_from_all n 0 p.results (λ i lt. elim (h.taken i (omega arith) (omega arith)) [
          | inl kept ↦ kept
          | inr at ↦ (let c = (all_ended-none_busy p.workers i ends).0 in absurd cc)
        ]),
        omega (arith, h.counted, (all_ended-none_busy p.workers 0 ends).1),
      )

  new_pool-IsPool : (c : ℕ) → IsPool n outcome (new_pool n c)
  unfolding new_pool
  new_pool-IsPool c =
      let (a, b, d) = replicate_idle (min c n) in
      record {
        taken = λ j lt lt'. absurd (omega arith);
        counted = omega (arith, a);
        ended = λ t. absurd cc;
      }

  -- With at least one worker, every schedule of 2 n + min(c, n) turns, each of which goes to a
  -- worker that has not ended, ends all of them, with as many requests counted as are planned and
  -- the result of each request in the order of the plan.
  pub run_turns_complete :
      (c : ℕ) (is : List ℕ)
      → 0 < c
      → AreLive is (new_pool n c)
      → length is ≡ 2 * n + min c n
      → (all is_ended (run_turns n outcome is (new_pool n c)).workers ≡ true)
        × (results_from n 0 (run_turns n outcome is (new_pool n c)).results ≡ outcomes_from n 0)
        × ((run_turns n outcome is (new_pool n c)).done ≡ n)
  unfolding new_pool
  run_turns_complete c is pos live count =
      let p = run_turns n outcome is (new_pool n c) in
      let (a, b, d) = replicate_idle (min c n) in
      let left = run_turns-turns_left is (new_pool n c) live in
      let ends : all is_ended (run_turns n outcome is (new_pool n c)).workers ≡ true =
        total_zero (run_turns n outcome is (new_pool n c)).workers
          (omega (arith, left, b, count)) in
      let (results, done) =
        ended_complete (run_turns n outcome is (new_pool n c))
          (run_turns-IsPool is (new_pool n c) (new_pool-IsPool c)) ends
          (λ planned.
            omega (arith, run_turns-length is (new_pool n c), length-replicate (min c n) idle)) in
      (ends, results, done)
