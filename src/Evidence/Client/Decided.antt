-- ===== src/Evidence/Client/Decided.antt =====
-- packages/evidence/src/client.ts: which attempt decides a call, and how many requests are sent.
use native.Mathlib.Nat.{zero-add}
use zegel.Common.{ℕ, suc, ◌+◌, ◌<◌, ◌≡◌, ap, ◌∙◌, true, false, none, [], length, arith}
use zegel.Common.Text.{Text}
use zegel.Common.Result.{Result, err}
use zegel.Evidence.Numbers.{Arithmetic}
use zegel.Evidence.RateLimit.{Observer}
use zegel.Evidence.Client.{attempts_loop, request}
use zegel.Evidence.Client.Replies.{MobulaOk, Thrown, mobula, World, GetCall, Trace}
use zegel.Evidence.Client.Settings.{QueryParams, MobulaClient, clean_params}
use zegel.Evidence.Client.Laws.{
  is_transient, reply_error, final_answer, run_settled_at, run-exhausted,
}

abbrev pub start_with : Observer → Trace
start_with o = record { observer = o; waits = []; sent = [] }

abbrev pub call_of : Text → QueryParams → GetCall
call_of path params = record { path = path; clean = clean_params params }

module _ (a : Arithmetic) (m : MobulaClient) (w : World) (o : Observer) (path : Text)
    (params : QueryParams) where
  -- A call is decided by its first reply that is no network failure, 408, 429 or status of 500 or
  -- more, if that comes within the attempts of the policy: its answer is the result, and no
  -- request follows it.
  pub request-settled :
      (n : ℕ)
      → n < m.policy.max_attempts
      → ((i : ℕ) → i < n → is_transient (w.reply i) ≡ true)
      → is_transient (w.reply n) ≡ false
      → ((request a m w o path params).1 ≡ final_answer a w (call_of path params) n (w.reply n))
        × (length (request a m w o path params).0.sent ≡ n + 1)
  unfolding request
  request-settled n h before at =
      let e : 0 + n ≡ n = omega arith in
      let (r, l) =
        run_settled_at a m w (call_of path params) n m.policy.max_attempts 0 none none
          (start_with o) h (λ i lt. rw (zero-add i) (before i lt)) (rw e at) in
      (r ∙ ap (λ j. final_answer a w (call_of path params) j (w.reply j)) e, omega (arith, l))

  -- If no reply within the attempts of the policy, of which there is at least one, decides the
  -- call, every attempt is made, and the result is the error that the last reply leaves.
  pub request-exhausted :
      (n : ℕ)
      → m.policy.max_attempts ≡ suc n
      → ((i : ℕ) → i < suc n → is_transient (w.reply i) ≡ true)
      → ((request a m w o path params).1
          ≡ err (mobula (reply_error w (call_of path params) n (w.reply n))))
        × (length (request a m w o path params).0.sent ≡ m.policy.max_attempts)
  unfolding request
  request-exhausted n h before =
      let e : 0 + n ≡ n = omega arith in
      let c = call_of path params in
      let (r, l) =
        run-exhausted a m w (call_of path params) n 0 none none (start_with o)
          (λ i lt. rw (zero-add i) (before i lt)) in
      let whole : request a m w o path params
          ≡ attempts_loop a m w c (suc n) 0 none none (start_with o) =
        ap (λ k. attempts_loop a m w c k 0 none none (start_with o)) h in
      (
        ap (λ (x : Trace × Result Thrown MobulaOk). x.1) whole
            ∙ r
            ∙ ap (λ j. err (mobula (reply_error w (call_of path params) j (w.reply j)))) e,
        ap (λ (x : Trace × Result Thrown MobulaOk). length x.0.sent) whole ∙ omega (arith, l, h),
      )
