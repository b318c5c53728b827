-- ===== src/Seal/Queue/Promises.antt =====
-- packages/seal/src/queue.ts: order, spacing, depth and draining.
use zegel.Common.{
  ℕ, ◌+◌, ◌≡◌, refl, sym, ap, subst, ◌∙◌, List, [], ◌∷◌, ◌++◌, length, arith, length-append,
}
use mathlib.Core.List.{append-nil}
use zegel.Seal.Queue.{
  Phase, idle, sleeping, running, Event, begun, settled, PatchQueue, depth, fresh, enqueue,
  take_task, start, settle, at_time, wait_ms, Step, enqueues, passes, takes, starts, settles, Reach,
  here, next,
}
use zegel.Seal.Queue.Invariant.{
  IsSpaced, begun_tasks, in_hand, unsettled, Inv, fresh-Inv, Reach-Inv,
}

-- How many tasks have settled.
abbrev pub settled_count : List Event → ℕ
settled_count [] = 0
settled_count (begun i t ∷ l) = settled_count l
settled_count (settled i t ∷ l) = 1 + settled_count l

Step-min_interval : {q r : PatchQueue} → Step q r → r.min_interval ≡ q.min_interval
unfolding enqueue take_task start settle
Step-min_interval (enqueues task e) = ap (λ s. s.min_interval) e
Step-min_interval (passes t le e) = ap (λ s. s.min_interval) e
Step-min_interval (takes task rest p w e) = ap (λ s. s.min_interval) e
Step-min_interval (starts task until p le e) = ap (λ s. s.min_interval) e
Step-min_interval (settles task p e) = ap (λ s. s.min_interval) e

Reach-min_interval : {q r : PatchQueue} → Reach q r → r.min_interval ≡ q.min_interval
Reach-min_interval here = refl
Reach-min_interval (next more step) = Step-min_interval step ∙ Reach-min_interval more

-- In every state that a fresh queue reaches, a task begins only when the one before it has
-- settled, at least the interval after its end.
pub log-IsSpaced : (m now : ℕ) (q : PatchQueue) → Reach (fresh m now) q → IsSpaced m q.log
log-IsSpaced m now q r =
    subst (λ k. IsSpaced k q.log) (Reach-min_interval r) (Reach-Inv r (fresh-Inv m now)).spaced

-- In every state that a fresh queue reaches, the tasks accepted are, in their order, those that
-- have begun, then the one whose link sleeps, then those that wait.
pub tasks_begin_in_order :
    (m now : ℕ) (q : PatchQueue)
    → Reach (fresh m now) q
    → q.accepted ≡ begun_tasks q.log ++ (in_hand q.phase ++ q.waiting)
tasks_begin_in_order m now q r = (Reach-Inv r (fresh-Inv m now)).ordered

Step-depth :
    {q r : PatchQueue}
    → Step q r
    → Inv q
    → length q.accepted ≡ settled_count q.log + depth q
    → length r.accepted ≡ settled_count r.log + depth r
unfolding enqueue take_task start settle
Step-depth {q} (enqueues task e) v d =
    subst (λ s. length s.accepted ≡ settled_count s.log + depth s) (sym e)
      (omega (arith, d, length-append q.accepted (task ∷ [])))
Step-depth {q} (passes t le e) v d =
    subst (λ s. length s.accepted ≡ settled_count s.log + depth s) (sym e) d
Step-depth {q} (takes task rest p w e) v d =
    subst (λ s. length s.accepted ≡ settled_count s.log + depth s) (sym e) d
Step-depth {q} (starts task until p le e) v d =
    subst (λ s. length s.accepted ≡ settled_count s.log + depth s) (sym e) d
Step-depth {q} (settles task p e) v d =
    subst (λ s. length s.accepted ≡ settled_count s.log + depth s) (sym e)
      (omega (arith, d, v.counted, ap unsettled p))

Reach-depth :
    {s q : PatchQueue}
    → Reach s q
    → Inv s
    → length s.accepted ≡ settled_count s.log + depth s
    → length q.accepted ≡ settled_count q.log + depth q
Reach-depth here v d = d
Reach-depth (next more step) v d = Step-depth step (Reach-Inv more v) (Reach-depth more v d)

-- In every state that a fresh queue reaches, the number of tasks accepted is the number of those
-- that have settled plus the depth.
depth_counts_unsettled :
    (m now : ℕ) (q : PatchQueue)
    → Reach (fresh m now) q
    → length q.accepted ≡ settled_count q.log + depth q
depth_counts_unsettled m now q r = Reach-depth r (fresh-Inv m now) refl

Reach-trans : {q r t : PatchQueue} → Reach q r → Reach r t → Reach q t
Reach-trans a here = a
Reach-trans a (next more step) = next (Reach-trans a more) step

-- A state with nothing in hand that a queue reaches, where `w` waits, and what is accepted is kept.
record Rest (q : PatchQueue) (w : List ℕ) : Type 0 where
  end : PatchQueue
  reach : Reach q end
  at_rest : end.phase ≡ idle
  left : end.waiting ≡ w
  kept : end.accepted ≡ q.accepted

running_rests : (task : ℕ) (q : PatchQueue) → q.phase ≡ running task → Rest q q.waiting
unfolding settle
running_rests task q p = record {
  end = settle task q;
  reach = next here (settles task p refl);
  at_rest = refl;
  left = refl;
  kept = refl;
}

-- A sleeper that waits out its sleep, runs and settles.
sleeping_rests :
    (task until : ℕ) (q : PatchQueue) → q.phase ≡ sleeping task until → Rest q q.waiting
unfolding start settle
sleeping_rests task until q p = record {
  end = settle task (start task (at_time (q.now + until) q));
  reach =
      next
        (next (next here (passes (q.now + until) (omega arith) refl))
          (starts task until p (omega arith) refl))
        (settles task refl refl);
  at_rest = refl;
  left = refl;
  kept = refl;
}

phase_rests : (q : PatchQueue) (p : Phase) → q.phase ≡ p → Rest q q.waiting
phase_rests q idle e = record { end = q; reach = here; at_rest = e; left = refl; kept = refl }
phase_rests q (sleeping task until) e = sleeping_rests task until q e
phase_rests q (running task) e = running_rests task q e

idle_empties : (w : List ℕ) (q : PatchQueue) → q.phase ≡ idle → q.waiting ≡ w → Rest q []
unfolding take_task
idle_empties [] q p e = record { end = q; reach = here; at_rest = p; left = e; kept = refl }
idle_empties (task ∷ w) q p e =
    let a = sleeping_rests task (q.now + wait_ms q) (take_task task w q) refl in
    let b = idle_empties w a.end a.at_rest a.left in
    record {
      end = b.end;
      reach = Reach-trans (next here (takes task w p e refl)) (Reach-trans a.reach b.reach);
      at_rest = b.at_rest;
      left = b.left;
      kept = b.kept ∙ a.kept;
    }

-- From every state that a fresh queue reaches, it can reach one of depth 0 in which exactly the
-- tasks accepted so far have begun, in their order.
pub queue_can_drain :
    (m now : ℕ) (q : PatchQueue)
    → Reach (fresh m now) q
    → (r : PatchQueue) × Reach q r × (depth r ≡ 0) × (begun_tasks r.log ≡ q.accepted)
queue_can_drain m now q s =
    let a = phase_rests q q.phase refl in
    let b = idle_empties q.waiting a.end a.at_rest a.left in
    let v = Reach-Inv (Reach-trans (Reach-trans s a.reach) b.reach) (fresh-Inv m now) in
    (
      b.end,
      Reach-trans a.reach b.reach,
      omega (arith, v.counted, ap unsettled b.at_rest, ap length b.left),
      sym (append-nil (begun_tasks b.end.log))
          ∙ sym (in_order b.end b.at_rest b.left v)
          ∙ b.kept
          ∙ a.kept,
    )
  where
    in_order :
        (r : PatchQueue)
        → r.phase ≡ idle
        → r.waiting ≡ []
        → Inv r
        → r.accepted ≡ begun_tasks r.log ++ []
    in_order r p w v = v.ordered ∙ rw (p, w)
