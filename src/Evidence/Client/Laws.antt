-- ===== src/Evidence/Client/Laws.antt =====
-- packages/evidence/src/client.ts: the rounds of the loop.
use zegel.Common.{
  ℕ, zero, suc, ◌+◌, ◌<◌, ◌≡◌, refl, sym, ap, ◌∙◌, Bool, true, false, not, ◌&&◌, Option, none, some,
  List, ◌∷◌, length, if◌then◌else◌, arith,
}
use zegel.Common.Result.{Result, err}
use zegel.Evidence.Numbers.{Double, Arithmetic}
use zegel.Evidence.RateLimit.{record_snapshot}
use zegel.Evidence.Client.{
  over, again, read_ok, snapshot_at, after_reply, attempt_once, attempts_loop, sent_by,
  sleep_before,
}
use zegel.Evidence.Client.Replies.{
  MobulaOk, MobulaError, Thrown, mobula, World, Reply, failed, replied, GetCall, Trace, is_ok,
  is_retryable_status, http_error, network_error, Sent, parse_retry_after,
}
use zegel.Evidence.Client.Settings.{MobulaClient}

-- A reply after which another attempt may succeed.
abbrev pub is_transient : Reply → Bool
is_transient (failed cause) = true
is_transient (replied r) = not (is_ok r) && is_retryable_status r.status

-- The error of the attempt that such a reply leaves.
abbrev pub reply_error : World → GetCall → ℕ → Reply → MobulaError
reply_error w c k (failed cause) = network_error c k cause
reply_error w c k (replied r) = http_error w c k r

-- What a reply means to the caller when it is the last one.
abbrev pub final_answer : Arithmetic → World → GetCall → ℕ → Reply → Result Thrown MobulaOk
final_answer a w c k (failed cause) = err (mobula (network_error c k cause))
final_answer a w c k (replied r) =
    if is_ok r then read_ok a w c k r else err (mobula (http_error w c k r))

-- A reply that is not transient ends the call with its answer.
after_reply-settled :
    (a : Arithmetic) (w : World) (c : GetCall) (k : ℕ) (r : Reply) (t : Trace)
    → is_transient r ≡ false
    → (t' : Trace) × (after_reply a w c k r t ≡ over t' (final_answer a w c k r))
      × (t'.sent ≡ t.sent)
unfolding after_reply
after_reply-settled a w c k (failed cause) t h = absurd cc
after_reply-settled a w c k (replied r) t h = (
  record t { observer = record_snapshot a t.observer (snapshot_at a w c k r) },
  ground arith,
  refl,
)

-- A transient one leads to another round, with the error of this one.
after_reply-transient :
    (a : Arithmetic) (w : World) (c : GetCall) (k : ℕ) (r : Reply) (t : Trace)
    → is_transient r ≡ true
    → (t' : Trace) × (d : Option Double) × (after_reply a w c k r t
        ≡ again t' (reply_error w c k r) d)
      × (t'.sent ≡ t.sent)
unfolding after_reply
after_reply-transient a w c k (failed cause) t h = (t, none, refl, refl)
after_reply-transient a w c k (replied r) t h = (
  record t { observer = record_snapshot a t.observer (snapshot_at a w c k r) },
  parse_retry_after a r.headers,
  ground arith,
  refl,
)

one_later : (k i : ℕ) → k + suc i ≡ k + 1 + i
one_later k i = omega arith

module _ (a : Arithmetic) (m : MobulaClient) (w : World) (c : GetCall) where
  -- The trace with which the reply to an attempt is met.
  abbrev pub sending : ℕ → Option Double → Trace → Trace
  sending k d t = record t {
    waits = sleep_before a m.policy w k d t.waits;
    sent = sent_by m c ∷ t.sent;
  }

  abbrev pub run :
      ℕ → ℕ → Option MobulaError → Option Double → Trace → Trace × Result Thrown MobulaOk
  run = attempts_loop a m w c

  pub run-over :
      (left k : ℕ) (last : Option MobulaError) (d : Option Double) (t t' : Trace)
      (r : Result Thrown MobulaOk)
      → after_reply a w c k (w.reply k) (sending k d t) ≡ over t' r
      → run (suc left) k last d t ≡ (t', r)
  unfolding attempts_loop attempt_once
  run-over left k last d t t' r e = rw (e, attempts_loop) refl

  pub run-again :
      (left k : ℕ) (last : Option MobulaError) (d d' : Option Double) (t t' : Trace)
      (e : MobulaError)
      → after_reply a w c k (w.reply k) (sending k d t) ≡ again t' e d'
      → run (suc left) k last d t ≡ run left (k + 1) (some e) d' t'
  unfolding attempts_loop attempt_once
  run-again left k last d d' t t' e h = rw (h, attempts_loop) refl

  run-settled :
      (left k : ℕ) (last : Option MobulaError) (d : Option Double) (t : Trace)
      → is_transient (w.reply k) ≡ false
      → ((run (suc left) k last d t).1 ≡ final_answer a w c k (w.reply k))
        × (length (run (suc left) k last d t).0.sent ≡ length t.sent + 1)
  run-settled left k last d t h =
      let (t', e, same) = after_reply-settled a w c k (w.reply k) (sending k d t) h in
      let whole = run-over left k last d t t' (final_answer a w c k (w.reply k)) e in
      (
        ap (λ o. o.1) whole,
        ap (λ o. length o.0.sent) whole ∙ omega (arith, ap (λ (l : List Sent). length l) same),
      )

  -- The rest of a run whose next reply is transient.
  run-transient :
      (left k : ℕ) (last : Option MobulaError) (d : Option Double) (t : Trace)
      → is_transient (w.reply k) ≡ true
      → (t' : Trace) × (d' : Option Double) × (run (suc left) k last d t
          ≡ run left (k + 1) (some (reply_error w c k (w.reply k))) d' t')
        × (length t'.sent ≡ length t.sent + 1)
  run-transient left k last d t h =
      let (t', d', e, same) = after_reply-transient a w c k (w.reply k) (sending k d t) h in
      (
        t',
        d',
        run-again left k last d d' t t' (reply_error w c k (w.reply k)) e,
        omega (arith, ap (λ (l : List Sent). length l) same),
      )

  -- The reply that decides is the `n`th from here on.
  pub run_settled_at :
      (n left k : ℕ) (last : Option MobulaError) (d : Option Double) (t : Trace)
      → n < left
      → ((i : ℕ) → i < n → is_transient (w.reply (k + i)) ≡ true)
      → is_transient (w.reply (k + n)) ≡ false
      → ((run left k last d t).1 ≡ final_answer a w c (k + n) (w.reply (k + n)))
        × (length (run left k last d t).0.sent ≡ length t.sent + n + 1)
  run_settled_at n zero k last d t h before at = absurd (omega arith)
  run_settled_at zero (suc left) k last d t h before at =
      let e : k + 0 ≡ k = omega arith in
      let (r, l) = run-settled left k last d t (rw (← e) at) in
      (r ∙ ap (λ j. final_answer a w c j (w.reply j)) (sym e), omega (arith, l))
  run_settled_at (suc n) (suc left) k last d t h before at =
      let e : k + 0 ≡ k = omega arith in
      let f : k + suc n ≡ k + 1 + n = omega arith in
      let (t', d', whole, more) =
        run-transient left k last d t (rw (← e) (before 0 (omega arith))) in
      let (r, l) =
        run_settled_at n left (k + 1) (some (reply_error w c k (w.reply k))) d' t' (omega arith)
          (λ i lt. rw (← (one_later k i)) (before (suc i) (omega arith))) (rw (← f) at) in
      (
        ap (λ o. o.1) whole ∙ r ∙ ap (λ j. final_answer a w c j (w.reply j)) (sym f),
        ap (λ o. length o.0.sent) whole ∙ omega (arith, l, more),
      )

  run-none_left :
      (k : ℕ) (e : MobulaError) (d : Option Double) (t : Trace)
      → run zero k (some e) d t ≡ (t, err (mobula e))
  unfolding attempts_loop
  run-none_left k e d t = refl

  pub run-exhausted :
      (n k : ℕ) (last : Option MobulaError) (d : Option Double) (t : Trace)
      → ((i : ℕ) → i < suc n → is_transient (w.reply (k + i)) ≡ true)
      → ((run (suc n) k last d t).1 ≡ err (mobula (reply_error w c (k + n) (w.reply (k + n)))))
        × (length (run (suc n) k last d t).0.sent ≡ length t.sent + suc n)
  run-exhausted zero k last d t before =
      let e : k + 0 ≡ k = omega arith in
      let (t', d', whole, more) =
        run-transient zero k last d t (rw (← e) (before 0 (omega arith))) in
      let done = run-none_left (k + 1) (reply_error w c k (w.reply k)) d' t' in
      (
        ap (λ o. o.1) (whole ∙ done)
            ∙ ap (λ j. err (mobula (reply_error w c j (w.reply j)))) (sym e),
        ap (λ o. length o.0.sent) (whole ∙ done) ∙ omega (arith, more),
      )
  run-exhausted (suc n) k last d t before =
      let e : k + 0 ≡ k = omega arith in
      let f : k + suc n ≡ k + 1 + n = omega arith in
      let (t', d', whole, more) =
        run-transient (suc n) k last d t (rw (← e) (before 0 (omega arith))) in
      let (r, l) =
        run-exhausted n (k + 1) (some (reply_error w c k (w.reply k))) d' t'
          (λ i lt. rw (← (one_later k i)) (before (suc i) (omega arith))) in
      (
        ap (λ o. o.1) whole ∙ r ∙ ap (λ j. err (mobula (reply_error w c j (w.reply j)))) (sym f),
        ap (λ o. length o.0.sent) whole ∙ omega (arith, l, more),
      )
