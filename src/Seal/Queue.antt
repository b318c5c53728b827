-- ===== src/Seal/Queue.antt =====
-- packages/seal/src/queue.ts: the queue of grantee patches as a state machine. A task is a number. A
-- link of the promise chain takes its task when the link before it has settled, sleeps out the floor,
-- runs the task, and settles whether the task succeeds or fails. `accepted` and `log` are the history
-- of the run, which the code does not keep; the listeners are left out.
pub mod Invariant
pub mod Promises
use zegel.Common.{ℕ, ◌+◌, ◌-◌, ◌≤◌, ◌≡◌, Bool, Option, none, some, List, [], ◌∷◌, ◌++◌}

abbrev pub min_grantee_patch_interval_ms : ℕ
min_grantee_patch_interval_ms = 1100

-- What the chain is doing: nothing, sleeping with a task in hand, or running one.
pub data Phase : Type 0 where
  idle : Phase
  sleeping : (task until : ℕ) → Phase
  running : (task : ℕ) → Phase

pub data Event : Type 0 where
  begun settled : (task at : ℕ) → Event

pub record PatchQueue : Type 0 where
  pub min_interval : ℕ
  pub now : ℕ
  pub pending : ℕ
  pub last_finished_at : Option ℕ
  pub waiting : List ℕ
  pub phase : Phase
  pub accepted : List ℕ
  pub log : List Event

abbrev pub fresh : ℕ → ℕ → PatchQueue
fresh min_interval now = record {
  min_interval = min_interval;
  now = now;
  pending = 0;
  last_finished_at = none;
  waiting = [];
  phase = idle;
  accepted = [];
  log = [];
}

-- `get depth`
abbrev pub depth : PatchQueue → ℕ
depth q = q.pending

-- `get waitMs`; the clock does not run back, so the difference is the source's.
unfoldable pub wait_ms : PatchQueue → ℕ
wait_ms q = elim q.last_finished_at [ none ↦ 0 | some at ↦ q.min_interval - (q.now - at) ]

unfoldable pub enqueue : ℕ → PatchQueue → PatchQueue
enqueue task q = record q {
  pending = q.pending + 1;
  waiting = q.waiting ++ task ∷ [];
  accepted = q.accepted ++ task ∷ [];
}

-- The next link takes its task and reads how long to wait.
unfoldable pub take_task : ℕ → List ℕ → PatchQueue → PatchQueue
unfolding wait_ms
take_task task rest q = record q { waiting = rest; phase = sleeping task (q.now + wait_ms q) }

unfoldable pub start : ℕ → PatchQueue → PatchQueue
start task q = record q { phase = running task; log = begun task q.now ∷ q.log }

-- The `finally` block, on success and on failure.
unfoldable pub settle : ℕ → PatchQueue → PatchQueue
settle task q = record q {
  last_finished_at = some q.now;
  pending = q.pending - 1;
  phase = idle;
  log = settled task q.now ∷ q.log;
}

abbrev pub at_time : ℕ → PatchQueue → PatchQueue
at_time t q = record q { now = t }

-- A sleep ends no earlier than it was asked to.
pub data Step (q : PatchQueue) (r : PatchQueue) : Type 0 where
  enqueues : (task : ℕ) → r ≡ enqueue task q → Step q r
  passes : (t : ℕ) → q.now ≤ t → r ≡ at_time t q → Step q r
  takes :
      (task : ℕ) (rest : List ℕ)
      → q.phase ≡ idle
      → q.waiting ≡ task ∷ rest
      → r ≡ take_task task rest q
      → Step q r
  starts :
      (task until : ℕ) → q.phase ≡ sleeping task until → until ≤ q.now → r ≡ start task q → Step q r
  settles : (task : ℕ) → q.phase ≡ running task → r ≡ settle task q → Step q r

pub data Reach (q : PatchQueue) : PatchQueue → Type 0 where
  here : Reach q q
  next : {r t : PatchQueue} → Reach q r → Step r t → Reach q t
