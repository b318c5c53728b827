-- ===== src/Seal/Queue/Invariant.antt =====
-- packages/seal/src/queue.ts: an invariant of the queue.
use zegel.Common.{
  ℕ, ◌+◌, ◌-◌, ◌≤◌, ◌≡◌, refl, sym, ap, subst, ◌∙◌, Option, none, some, List, [], ◌∷◌, ◌++◌, length,
  arith, length-append,
}
use mathlib.Core.List.{append_assoc}
use zegel.Seal.Queue.{
  Phase, idle, sleeping, running, Event, begun, settled, PatchQueue, fresh, enqueue, take_task,
  start, settle, at_time, wait_ms, Step, enqueues, passes, takes, starts, settles, Reach, here,
  next,
}

-- The task begun at `t` comes at least `m` after the event before it, which settled another.
abbrev pub IsAfter : ℕ → ℕ → List Event → Type 0
IsAfter m t [] = Unit {0}
IsAfter m t (settled j u ∷ l) = u + m ≤ t
IsAfter m t (begun j u ∷ l) = ⊥

-- Tasks run one at a time, each at least `m` after the end of the one before.
abbrev pub IsSpaced : ℕ → List Event → Type 0
IsSpaced m [] = Unit {0}
IsSpaced m (begun i t ∷ l) = IsAfter m t l × IsSpaced m l
IsSpaced m (settled i t ∷ l) = IsSpaced m l

-- The tasks that have begun, in order.
abbrev pub begun_tasks : List Event → List ℕ
begun_tasks [] = []
begun_tasks (begun i t ∷ l) = begun_tasks l ++ i ∷ []
begun_tasks (settled i t ∷ l) = begun_tasks l

abbrev pub in_hand : Phase → List ℕ
in_hand idle = []
in_hand (sleeping i w) = i ∷ []
in_hand (running i) = []

abbrev pub unsettled : Phase → ℕ
unsettled idle = 0
unsettled (sleeping i w) = 1
unsettled (running i) = 1

-- The log ends with the last settled task, whose end `last_finished_at` holds.
abbrev pub IsRested : Option ℕ → ℕ → List Event → Type 0
IsRested none now [] = Unit {0}
IsRested (some u) now (settled j t ∷ l) = (u ≡ t) × (u ≤ now)
IsRested _ now _ = ⊥

abbrev pub IsPhase : ℕ → Option ℕ → ℕ → List Event → Phase → Type 0
IsPhase m last now l idle = IsRested last now l
IsPhase m last now l (sleeping i w) = IsRested last now l × IsAfter m w l
IsPhase m last now l (running i) = Unit {0}

pub record Inv (q : PatchQueue) : Type 0 where
  pub counted : q.pending ≡ length q.waiting + unsettled q.phase
  pub ordered : q.accepted ≡ begun_tasks q.log ++ (in_hand q.phase ++ q.waiting)
  pub spaced : IsSpaced q.min_interval q.log
  pub in_phase : IsPhase q.min_interval q.last_finished_at q.now q.log q.phase

pub fresh-Inv : (m now : ℕ) → Inv (fresh m now)
fresh-Inv m now = record { counted = refl; ordered = refl; spaced = tt; in_phase = tt }

append_append_assoc {ℓ} :
    {A : Type ℓ} → (a b c d : List A) → (a ++ (b ++ c)) ++ d ≡ a ++ (b ++ (c ++ d))
append_append_assoc a b c d = rw (append_assoc a (b ++ c) d, append_assoc b c d)

enqueue-Inv : (task : ℕ) (q : PatchQueue) → Inv q → Inv (enqueue task q)
unfolding enqueue
enqueue-Inv task q v = record {
  counted = omega (arith, v.counted, length-append q.waiting (task ∷ []));
  ordered =
      ap (λ l. l ++ task ∷ []) v.ordered
      ∙ append_append_assoc (begun_tasks q.log) (in_hand q.phase) q.waiting (task ∷ []);
  spaced = v.spaced;
  in_phase = v.in_phase;
}

IsRested-later :
    (last : Option ℕ) (now t : ℕ) (l : List Event)
    → now ≤ t
    → IsRested last now l
    → IsRested last t l
IsRested-later none now t [] le r = tt
IsRested-later none now t (e ∷ l) le bad = elim bad [ ]
IsRested-later (some u) now t [] le bad = elim bad [ ]
IsRested-later (some u) now t (settled j s ∷ l) le (e, b) = (e, omega arith)
IsRested-later (some u) now t (begun j s ∷ l) le bad = elim bad [ ]

IsPhase-later :
    (m : ℕ) (last : Option ℕ) (now t : ℕ) (l : List Event) (p : Phase)
    → now ≤ t
    → IsPhase m last now l p
    → IsPhase m last t l p
IsPhase-later m last now t l idle le r = IsRested-later last now t l le r
IsPhase-later m last now t l (sleeping i w) le (r, a) = (IsRested-later last now t l le r, a)
IsPhase-later m last now t l (running i) le r = tt

at_time-Inv : (t : ℕ) (q : PatchQueue) → q.now ≤ t → Inv q → Inv (at_time t q)
at_time-Inv t q le v = record {
  counted = v.counted;
  ordered = v.ordered;
  spaced = v.spaced;
  in_phase = IsPhase-later q.min_interval q.last_finished_at q.now t q.log q.phase le v.in_phase;
}

-- A link that has waited starts late enough.
IsRested-wait_ms :
    (q : PatchQueue)
    → IsRested q.last_finished_at q.now q.log
    → IsAfter q.min_interval (q.now + wait_ms q) q.log
unfolding wait_ms
IsRested-wait_ms q r = go q.last_finished_at q.log r
  where
    go :
        (last : Option ℕ) (l : List Event)
        → IsRested last q.now l
        → IsAfter q.min_interval
            (q.now + elim last [ none ↦ 0 | some at ↦ q.min_interval - (q.now - at) ])
            l
    go none [] r = tt
    go none (e ∷ l) bad = elim bad [ ]
    go (some u) [] bad = elim bad [ ]
    go (some u) (settled j s ∷ l) (e, b) = omega arith
    go (some u) (begun j s ∷ l) bad = elim bad [ ]

IsAfter-later : (m w t : ℕ) (l : List Event) → w ≤ t → IsAfter m w l → IsAfter m t l
IsAfter-later m w t [] le a = tt
IsAfter-later m w t (settled j s ∷ l) le a = omega arith
IsAfter-later m w t (begun j s ∷ l) le bad = elim bad [ ]

take_task-Inv :
    (task : ℕ) (rest : List ℕ) (q : PatchQueue)
    → q.phase ≡ idle
    → q.waiting ≡ task ∷ rest
    → Inv q
    → Inv (take_task task rest q)
unfolding take_task
take_task-Inv task rest q e w v = record {
  counted = omega (arith, v.counted, ap unsettled e, ap length w);
  ordered = v.ordered ∙ rw (e, w);
  spaced = v.spaced;
  in_phase = (r, IsRested-wait_ms q r);
}
  where
    r : IsRested q.last_finished_at q.now q.log
    r = subst (IsPhase q.min_interval q.last_finished_at q.now q.log) e v.in_phase

start-Inv :
    (task until : ℕ) (q : PatchQueue)
    → q.phase ≡ sleeping task until
    → until ≤ q.now
    → Inv q
    → Inv (start task q)
unfolding start
start-Inv task until q e le v = record {
  counted = omega (arith, v.counted, ap unsettled e);
  ordered = v.ordered ∙ rw (e, append_assoc);
  spaced = (IsAfter-later q.min_interval until q.now q.log le (r.1), v.spaced);
  in_phase = tt;
}
  where
    r : IsPhase q.min_interval q.last_finished_at q.now q.log (sleeping task until)
    r = subst (IsPhase q.min_interval q.last_finished_at q.now q.log) e v.in_phase

settle-Inv : (task : ℕ) (q : PatchQueue) → q.phase ≡ running task → Inv q → Inv (settle task q)
unfolding settle
settle-Inv task q e v = record {
  counted = omega (arith, v.counted, ap unsettled e);
  ordered = v.ordered ∙ rw e;
  spaced = v.spaced;
  in_phase = (refl, omega arith);
}

Step-Inv : {q r : PatchQueue} → Step q r → Inv q → Inv r
Step-Inv {q} (enqueues task e) v = subst Inv (sym e) (enqueue-Inv task q v)
Step-Inv {q} (passes t le e) v = subst Inv (sym e) (at_time-Inv t q le v)
Step-Inv {q} (takes task rest p w e) v = subst Inv (sym e) (take_task-Inv task rest q p w v)
Step-Inv {q} (starts task until p le e) v = subst Inv (sym e) (start-Inv task until q p le v)
Step-Inv {q} (settles task p e) v = subst Inv (sym e) (settle-Inv task q p v)

pub Reach-Inv : {q r : PatchQueue} → Reach q r → Inv q → Inv r
Reach-Inv here v = v
Reach-Inv (next more step) v = Step-Inv step (Reach-Inv more v)
