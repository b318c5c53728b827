-- ===== src/Seal/Postage/Waiting.antt =====
-- packages/seal/src/postage.ts, `waitForUsableBatch`: the loop and its end.
use zegel.Common.{
  ℕ, zero, suc, ◌+◌, ◌*◌, ◌/◌, ◌≡◌, refl, subst, ◌≢◌, ◌⊎◌, inl, inr, ◌≤◌, ◌<◌, none, some, arith,
}
use native.Mathlib.Nat.{div-add-mod, mod-lt}
use zegel.Common.Text.{Text}
use zegel.Common.Result.{ok}
use zegel.Seal.Postage.{
  BatchRead, BeeNode, WaitOptions, Attempt, done, failed, again, attempt_of, wait_from,
  enough_attempts, wait_for_usable_batch,
}

Attempt-cases : (a : Attempt) → (a ≡ done) ⊎ ((a ≡ failed) ⊎ (a ≡ again))
Attempt-cases done = inl refl
Attempt-cases failed = inr (inl refl)
Attempt-cases again = inr (inr refl)

-- Once the clock has come to the deadline by the last attempt, the fuel suffices.
wait_from-ne-none :
    (poll : ℕ → BatchRead) (clock : ℕ → ℕ) (deadline fuel k : ℕ)
    → deadline ≤ clock (k + fuel)
    → wait_from poll clock deadline (suc fuel) k ≢ none
unfolding wait_from
wait_from-ne-none poll clock deadline zero k late =
    let here : deadline ≤ clock k = subst (λ n. deadline ≤ clock n) (omega arith) late in
    ground arith
wait_from-ne-none poll clock deadline (suc fuel) k late =
    let later : deadline ≤ clock (k + 1 + fuel) =
      subst (λ n. deadline ≤ clock n) (omega arith) late in
    let ih = wait_from-ne-none poll clock deadline fuel (k + 1) later in ground arith

div_add_one_mul : (n m : ℕ) → 0 < m → n ≤ (n / m + 1) * m
div_add_one_mul n m h =
    let whole = div-add-mod n m in
    let part = mod-lt n h in
    let split : (n / m + 1) * m ≡ m * (n / m) + m = omega arith in omega arith

-- From attempt `k` on, `n` attempts told nothing and ended before the deadline.
abbrev pub Pending : (ℕ → BatchRead) → (ℕ → ℕ) → ℕ → ℕ → ℕ → Type 0
Pending poll clock deadline zero k = Unit {0}
Pending poll clock deadline (suc n) k =
    (attempt_of (poll k) ≡ again) × (clock k < deadline) × Pending poll clock deadline n (k + 1)

wait_from-eq-ok :
    (poll : ℕ → BatchRead) (clock : ℕ → ℕ) (deadline fuel k : ℕ)
    → wait_from poll clock deadline fuel k ≡ some (ok tt)
    → (n : ℕ) × Pending poll clock deadline n k × (attempt_of (poll (k + n)) ≡ done)
unfolding wait_from
wait_from-eq-ok poll clock deadline zero k h = absurd (ground arith)
wait_from-eq-ok poll clock deadline (suc fuel) k h = elim (Attempt-cases (attempt_of (poll k))) [
  | inl e ↦ (0, tt, subst (λ i. attempt_of (poll i) ≡ done) (omega arith) e)
  | inr (inl e) ↦ absurd (ground arith)
  | inr (inr e) ↦
      let early : clock k < deadline = ground arith in
      let (n, before, usable) = wait_from-eq-ok poll clock deadline fuel (k + 1) (ground arith) in
      (suc n, (e, early, before), subst (λ i. attempt_of (poll i) ≡ done) (omega arith) usable)
]

module _ (bee : BeeNode) (id : Text) (w : WaitOptions) where
  -- If the pause between attempts is not 0 and the clock has advanced by at least k pauses after
  -- attempt k + 1, for every k, the wait for a batch ends.
  pub wait_for_usable_batch-ne-none :
      (pause : 0 < w.poll_ms)
      → ((k : ℕ) → w.started + k * w.poll_ms ≤ bee.clock (k + 1))
      → wait_for_usable_batch bee id w ≢ none
  unfolding wait_for_usable_batch
  wait_for_usable_batch-ne-none pause slow =
      wait_from-ne-none (bee.poll id) bee.clock (w.started + w.timeout) (w.timeout / w.poll_ms + 1)
        1 (subst (λ n. w.started + w.timeout ≤ bee.clock n) (omega arith) late)
    where
      rounds : w.timeout ≤ (w.timeout / w.poll_ms + 1) * w.poll_ms
      rounds = div_add_one_mul w.timeout w.poll_ms pause

      late : w.started + w.timeout ≤ bee.clock (w.timeout / w.poll_ms + 1 + 1)
      late = omega (arith, rounds, slow (w.timeout / w.poll_ms + 1))

  -- A wait that succeeds ended at an attempt that found the batch usable, and every attempt
  -- before it found it missing or not usable yet and ended before the deadline.
  pub wait_for_usable_batch-eq-ok :
      wait_for_usable_batch bee id w ≡ some (ok tt)
      → (n : ℕ) × Pending (bee.poll id) bee.clock (w.started + w.timeout) n 1
        × (attempt_of (bee.poll id (1 + n)) ≡ done)
  unfolding wait_for_usable_batch
  wait_for_usable_batch-eq-ok h =
      wait_from-eq-ok (bee.poll id) bee.clock (w.started + w.timeout) (enough_attempts w) 1 h
