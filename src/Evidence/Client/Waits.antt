-- ===== src/Evidence/Client/Waits.antt =====
-- packages/evidence/src/client.ts: how long the client waits before each attempt, and what its observer
-- has seen.
use zegel.Common.{
  ℕ, min, ◌*◌, zero, suc, ◌+◌, ◌-◌, ◌≤◌, ◌<◌, ◌^◌, ◌≡◌, refl, sym, ap, subst, ◌∙◌, Option, none,
  some, List, [], ◌∷◌, ◌++◌, length, ◌⊎◌, inl, inr, arith,
}
use zegel.Common.Text.{Text}
use zegel.Common.Result.{Result}
use zegel.Evidence.Numbers.{Double, Arithmetic}
use zegel.Evidence.RateLimit.{Snapshot, Observer, record_snapshot}
use zegel.Evidence.RateLimit.Laws.{record_all}
use zegel.Evidence.Client.{
  Round, over, again, snapshot_at, after_reply, attempts_loop, request, sleep_before,
}
use zegel.Evidence.Client.Replies.{
  MobulaOk, MobulaError, Thrown, World, Reply, failed, replied, GetCall, Trace, Wait, backed_off,
  server_asked, ceiling_of, backoff_delay,
}
use zegel.Evidence.Client.Settings.{QueryParams, RetryPolicy, MobulaClient}
use zegel.Evidence.Client.Laws.{sending, run, run-over, run-again}
use zegel.Evidence.Client.Decided.{start_with, call_of}

-- The snapshot of an attempt that a response came to.
abbrev pub seen : Arithmetic → World → GetCall → ℕ → Reply → List Snapshot
seen a w c k (failed cause) = []
seen a w c k (replied r) = snapshot_at a w c k r ∷ []

-- The snapshots of the first `n` attempts.
abbrev pub seen_before : Arithmetic → World → GetCall → ℕ → List Snapshot
seen_before a w c zero = []
seen_before a w c (suc n) = seen_before a w c n ++ seen a w c n (w.reply n)

-- The wait before attempt `k + 1`: the client's own delay is below the ceiling for `k`.
abbrev pub IsShort : RetryPolicy → ℕ → Wait → Type 0
IsShort p k (server_asked d) = Unit {0}
IsShort p k (backed_off ms) = ms ≤ ceiling_of p k

abbrev pub AreShort : RetryPolicy → List Wait → Type 0
AreShort p [] = Unit {0}
AreShort p (x ∷ xs) = IsShort p (length xs) x × AreShort p xs

abbrev trace_of : Round → Trace
trace_of (over t r) = t
trace_of (again t e d) = t

after_reply-trace :
    (a : Arithmetic) (w : World) (c : GetCall) (k : ℕ) (r : Reply) (t : Trace)
    → trace_of (after_reply a w c k r t)
      ≡ record t { observer = record_all a t.observer (seen a w c k r) }
unfolding after_reply
after_reply-trace a w c k (failed cause) t = refl
after_reply-trace a w c k (replied r) t = ground arith

record_all-append :
    (a : Arithmetic) (o : Observer) (xs ys : List Snapshot)
    → record_all a o (xs ++ ys) ≡ record_all a (record_all a o xs) ys
record_all-append a o [] ys = refl
record_all-append a o (x ∷ xs) ys = record_all-append a (record_snapshot a o x) xs ys

-- What holds of the trace before attempt `k`, and of that of a call which made `k` attempts.
record IsRun (a : Arithmetic) (m : MobulaClient) (w : World) (c : GetCall) (o : Observer) (k : ℕ)
    (t : Trace) : Type 0 where
  sent : length t.sent ≡ k
  waits : length t.waits ≡ k - 1
  short : AreShort m.policy t.waits
  observed : t.observer ≡ record_all a o (seen_before a w c k)

Round-cases :
    (r : Round)
    → ((t : Trace) × (x : Result Thrown MobulaOk) × (r ≡ over t x))
      ⊎ ((t : Trace) × (e : MobulaError) × (d : Option Double) × (r ≡ again t e d))
Round-cases (over t x) = inl (t, x, refl)
Round-cases (again t e d) = inr (t, e, d, refl)

min-lt : (x y : ℕ) → x < 2 ^ 53 → min x y < 2 ^ 53
min-lt x y h = ground arith

suc-eq : (k : ℕ) → suc k ≡ k + 1
suc-eq k = omega arith

module _ (a : Arithmetic) (m : MobulaClient) (w : World) (c : GetCall) (o : Observer)
    (small : m.policy.max_delay_ms < 2 ^ 53)
    (share-le : (k n : ℕ) → n < 2 ^ 53 → a.round_share (w.random k) n ≤ n) where
  ceiling_of-lt : (k : ℕ) → ceiling_of m.policy k < 2 ^ 53
  ceiling_of-lt k = let d = m.policy.base_delay_ms * 2 ^ k in min-lt m.policy.max_delay_ms d small

  sleep_before-AreShort :
      (k : ℕ) (d : Option Double) (ws : List Wait)
      → length ws ≡ k - 1
      → AreShort m.policy ws
      → AreShort m.policy (sleep_before a m.policy w k d ws)
        × (length (sleep_before a m.policy w k d ws) ≡ k)
  unfolding sleep_before backoff_delay
  sleep_before-AreShort zero d [] e h = (tt, refl)
  sleep_before-AreShort zero d (x ∷ ws) e h = absurd (omega arith)
  sleep_before-AreShort (suc k) none ws e h =
      let e' : k ≡ length ws = omega arith in
      (
        (
          subst (λ n. a.round_share (w.random k) (ceiling_of m.policy k) ≤ ceiling_of m.policy n) e'
              (share-le k (ceiling_of m.policy k) (ceiling_of-lt k)),
          h,
        ),
        omega arith,
      )
  sleep_before-AreShort (suc k) (some ms) ws e h = ((tt, h), omega arith)

  round-IsRun :
      (k : ℕ) (d : Option Double) (t : Trace)
      → IsRun a m w c o k t
      → IsRun a m w c o (suc k) (trace_of (after_reply a w c k (w.reply k) (sending a m w c k d t)))
  round-IsRun k d t h =
      let (short, count) = sleep_before-AreShort k d t.waits h.waits h.short in
      rw (after_reply-trace a w c k (w.reply k) (sending a m w c k d t)) (record {
        sent = omega (arith, h.sent);
        waits = omega (arith, count);
        short = short;
        observed =
            ap (λ x. record_all a x (seen a w c k (w.reply k))) h.observed
            ∙ sym (record_all-append a o (seen_before a w c k) (seen a w c k (w.reply k)));
      })

  run-IsRun :
      (left k : ℕ) (last : Option MobulaError) (d : Option Double) (t : Trace)
      → IsRun a m w c o k t
      → (n : ℕ) × IsRun a m w c o n (run a m w c left k last d t).0
  unfolding attempts_loop
  run-IsRun zero k last d t h = (k, h)
  run-IsRun (suc left) k last d t h =
      let kept = round-IsRun k d t h in
      elim (Round-cases (after_reply a w c k (w.reply k) (sending a m w c k d t))) [
        | inl (t', r, e) ↦ (
          suc k,
          subst (λ x. IsRun a m w c o (suc k) x.0) (sym (run-over a m w c left k last d t t' r e))
              (subst (λ x. IsRun a m w c o (suc k) (trace_of x)) e kept),
        )
        | inr (t', x, d', e) ↦
            (let (n, whole) = run-IsRun left (k + 1) (some x) d' t' (
                subst (λ j. IsRun a m w c o j t') (suc-eq k)
                  (subst (λ y. IsRun a m w c o (suc k) (trace_of y)) e kept)) in
              (
                n,
                subst (λ y. IsRun a m w c o n y.0)
                    (sym (run-again a m w c left k last d d' t t' x e)) whole,
              ))
      ]

-- In any call, if the longest delay of the policy is below 2 to the 53 and for each random number
-- drawn the rounded product with a number below that bound is at most this number, each of the
-- client's own delays is at most the ceiling for its attempt, no wait follows the last request,
-- there is one between any two, and the observer has recorded the snapshots of the responses, in
-- their order.
pub request-waits :
    (a : Arithmetic) (m : MobulaClient) (w : World) (o : Observer) (path : Text)
    (params : QueryParams)
    → m.policy.max_delay_ms < 2 ^ 53
    → ((k n : ℕ) → n < 2 ^ 53 → a.round_share (w.random k) n ≤ n)
    → AreShort m.policy (request a m w o path params).0.waits
      × (length (request a m w o path params).0.waits
          ≡ length (request a m w o path params).0.sent - 1)
      × ((request a m w o path params).0.observer
          ≡ record_all a o
              (seen_before a w (call_of path params) (length (request a m w o path params).0.sent)))
unfolding request
request-waits a m w o path params small h =
    let c = call_of path params in
    let start : IsRun a m w (call_of path params) o 0 (start_with o) = record {
      sent = refl;
      waits = refl;
      short = tt;
      observed = refl;
    } in
    let (n, r) =
      run-IsRun a m w (call_of path params) o small h m.policy.max_attempts 0 none none
        (start_with o) start in
    (
      r.short,
      omega (arith, r.sent, r.waits),
      r.observed ∙ ap (λ k. record_all a o (seen_before a w c k)) (sym r.sent),
    )
