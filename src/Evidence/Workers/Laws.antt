-- ===== src/Evidence/Workers/Laws.antt =====
-- packages/evidence/src/collect.ts: what a turn of a worker keeps.
use zegel.Common.{
  ℕ, zero, suc, ◌+◌, ◌<◌, ◌≡◌, refl, ap, Bool, true, false, some, List, [], ◌∷◌, get_elem?, any,
  min, ltb, ◌==◌, ◌⊎◌, inl, inr, Bool-cases, some-inj, arith,
}
use zegel.Evidence.Workers.{Worker, idle, busy, ended, Pool, set_worker, store_result, turn_of}

abbrev pub is_at : ℕ → Worker → Bool
is_at j (busy slot) = slot == j
is_at j idle = false
is_at j ended = false

abbrev pub is_ended : Worker → Bool
is_ended ended = true
is_ended idle = false
is_ended (busy slot) = false

abbrev pub busy_of : Worker → ℕ
busy_of (busy slot) = 1
busy_of idle = 0
busy_of ended = 0

-- The turns that a worker has before it, but for the slots that it will take.
abbrev pub turns_of : Worker → ℕ
turns_of idle = 1
turns_of (busy slot) = 2
turns_of ended = 0

abbrev pub total : (Worker → ℕ) → List Worker → ℕ
total f [] = 0
total f (w ∷ ws) = f w + total f ws

pub total-set_worker :
    (f : Worker → ℕ) (ws : List Worker) (i : ℕ) (v w : Worker)
    → get_elem? ws i ≡ some v
    → total f (set_worker ws i w) + f v ≡ total f ws + f w
unfolding set_worker
total-set_worker f [] i v w h = absurd cc
total-set_worker f (u ∷ ws) zero v w h = let e : f u ≡ f v = ap f (some-inj u v h) in omega arith
total-set_worker f (u ∷ ws) (suc i) v w h = omega (arith, total-set_worker f ws i v w h)

-- Some other worker keeps what it has.
any-set_other :
    (q : Worker → Bool) (ws : List Worker) (i : ℕ) (v w : Worker)
    → get_elem? ws i ≡ some v
    → q v ≡ false
    → any q ws ≡ true
    → any q (set_worker ws i w) ≡ true
unfolding set_worker
any-set_other q [] i v w h f t = absurd cc
any-set_other q (u ∷ ws) zero v w h f t = let e : q u ≡ q v = ap q (some-inj u v h) in ground arith
any-set_other q (u ∷ ws) (suc i) v w h f t = ground (arith, any-set_other q ws i v w h f)

any-set_new :
    (q : Worker → Bool) (ws : List Worker) (i : ℕ) (v w : Worker)
    → get_elem? ws i ≡ some v
    → q w ≡ true
    → any q (set_worker ws i w) ≡ true
unfolding set_worker
any-set_new q [] i v w h t = absurd cc
any-set_new q (u ∷ ws) zero v w h t = ground arith
any-set_new q (u ∷ ws) (suc i) v w h t = ground (arith, any-set_new q ws i v w h t)

any-set_back :
    (q : Worker → Bool) (ws : List Worker) (i : ℕ) (w : Worker)
    → q w ≡ false
    → any q (set_worker ws i w) ≡ true
    → any q ws ≡ true
unfolding set_worker
any-set_back q [] i w f t = t
any-set_back q (u ∷ ws) zero w f t = ground arith
any-set_back q (u ∷ ws) (suc i) w f t = ground (arith, any-set_back q ws i w f)

-- What holds between two turns.
pub record IsPool {R : Type 0} (n : ℕ) (outcome : ℕ → R) (p : Pool R) : Type 0 where
  pub taken :
      (j : ℕ)
      → j < p.next
      → j < n
      → (p.results j ≡ some (outcome j)) ⊎ (any (is_at j) p.workers ≡ true)
  pub counted : p.done + total busy_of p.workers ≡ min p.next n
  pub ended : any is_ended p.workers ≡ true → n < p.next

module _ {R : Type 0} (n : ℕ) (outcome : ℕ → R) where
  -- A slot below the next one, when the worker at `i` was idle.
  taken_next :
      (p : Pool R) (i j : ℕ) (w : Worker)
      → IsPool n outcome p
      → get_elem? p.workers i ≡ some idle
      → ((j ≡ p.next) → is_at j w ≡ true)
      → j < p.next + 1
      → j < n
      → (p.results j ≡ some (outcome j)) ⊎ (any (is_at j) (set_worker p.workers i w) ≡ true)
  taken_next p i j w h e new lt lt' = elim (Bool-cases (j == p.next)) [
    | inl same ↦ inr (any-set_new (is_at j) p.workers i idle w e (new (ground arith)))
    | inr other ↦ (elim (h.taken j (ground arith) lt') [
      | inl kept ↦ inl kept
      | inr at ↦ inr (any-set_other (is_at j) p.workers i idle w e refl at)
    ])
  ]

  ended_next :
      (p : Pool R) (i : ℕ) (w : Worker)
      → IsPool n outcome p
      → (is_ended w ≡ true → n < p.next + 1)
      → any is_ended (set_worker p.workers i w) ≡ true
      → n < p.next + 1
  ended_next p i w h end t = elim (Bool-cases (is_ended w)) [
    | inl e ↦ end e
    | inr e ↦ omega (arith, h.ended (any-set_back is_ended p.workers i w e t))
  ]

  take-IsPool :
      (p : Pool R) (i : ℕ) (w : Worker)
      → IsPool n outcome p
      → get_elem? p.workers i ≡ some idle
      → ((j : ℕ) → j ≡ p.next → j < n → is_at j w ≡ true)
      → min p.next n + busy_of w ≡ min (p.next + 1) n
      → (is_ended w ≡ true → n < p.next + 1)
      → IsPool n outcome (record p { next = p.next + 1; workers = set_worker p.workers i w })
  take-IsPool p i w h e new count end = record {
    taken = λ j lt lt'. taken_next p i j w h e (λ same. new j same lt') lt lt';
    counted = omega (arith, total-set_worker busy_of p.workers i idle w e, h.counted);
    ended = λ t. ended_next p i w h end t;
  }

  pub taken-IsPool :
      (p : Pool R) (i : ℕ)
      → IsPool n outcome p
      → get_elem? p.workers i ≡ some idle
      → IsPool n outcome (turn_of n outcome i (some idle) p)
  unfolding turn_of
  taken-IsPool p i h e = elim (Bool-cases (ltb p.next n)) [
    | inl more ↦ rw more (
        take-IsPool p i (busy p.next) h e (λ j same lt. ground arith) (ground arith)
          (λ t. absurd cc))
    | inr none_left ↦ rw none_left (
        take-IsPool p i ended h e (λ j same lt. absurd (ground arith)) (ground arith)
          (λ t. ground arith))
  ]

  stored_taken :
      (p : Pool R) (i slot j : ℕ)
      → get_elem? p.workers i ≡ some (busy slot)
      → (p.results j ≡ some (outcome j)) ⊎ (any (is_at j) p.workers ≡ true)
      → (store_result slot (outcome slot) p.results j ≡ some (outcome j))
        ⊎ (any (is_at j) (set_worker p.workers i idle) ≡ true)
  unfolding store_result
  stored_taken p i slot j e t = elim (Bool-cases (slot == j)) [
    | inl same ↦
        (let eq : slot ≡ j = ground arith in inl (rw (same) (ap (λ k. some (outcome k)) eq)))
    | inr other ↦ rw other (elim t [
      | inl kept ↦ inl kept
      | inr at ↦ inr (any-set_other (is_at j) p.workers i (busy slot) idle e other at)
    ])
  ]

  pub stored-IsPool :
      (p : Pool R) (i slot : ℕ)
      → IsPool n outcome p
      → get_elem? p.workers i ≡ some (busy slot)
      → IsPool n outcome (turn_of n outcome i (some (busy slot)) p)
  unfolding turn_of
  stored-IsPool p i slot h e = record {
    taken = λ j lt lt'. stored_taken p i slot j e (h.taken j lt lt');
    counted = omega (arith, total-set_worker busy_of p.workers i (busy slot) idle e, h.counted);
    ended = λ t. h.ended (any-set_back is_ended p.workers i idle refl t);
  }
