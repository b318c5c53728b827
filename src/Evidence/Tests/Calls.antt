-- ===== src/Evidence/Tests/Calls.antt =====
-- packages/evidence/src/client.ts, ratelimit.ts and collect.ts: calls at concrete replies.
use zegel.Common.{
  ℕ, zero, suc, ◌+◌, ◌-◌, ◌^◌, ◌<◌, ◌≤◌, ◌≡◌, refl, true, none, some, List, [], ◌∷◌, length, all,
  arith,
}
use zegel.Common.Text.{codes}
use zegel.Common.Result.{err}
use zegel.Sdk.Canonical.{null}
use zegel.Evidence.RateLimit.{Snapshot, Observer}
use zegel.Evidence.RateLimit.Laws.{record_all}
use zegel.Evidence.Client.{request}
use zegel.Evidence.Client.Replies.{
  World, Reply, failed, replied, Response, mobula, is_retryable_status,
}
use zegel.Evidence.Client.Settings.{MobulaClient, default_retry}
use zegel.Evidence.Client.Laws.{is_transient, final_answer, reply_error}
use zegel.Evidence.Client.Decided.{call_of, request-settled, request-exhausted}
use zegel.Evidence.Client.Waits.{AreShort, seen_before, request-waits}
use zegel.Evidence.Workers.{
  run_turns, new_pool, results_from, turn, turn_of, set_worker, idle, busy,
}
use zegel.Evidence.Workers.Complete.{run_turns_complete}
use zegel.Evidence.Workers.Laws.{is_ended}
use zegel.Evidence.Tests.{whole_numbers}

abbrev answered : ℕ → Response
answered status = record { status = status; headers = λ name. none; json = some null; text = none }

-- The first attempt fails on the way, the second one succeeds.
abbrev second_succeeds : ℕ → Reply
second_succeeds zero = failed (codes "reset")
second_succeeds (suc n) = replied (answered 200)

abbrev world_of : (ℕ → Reply) → World
world_of reply = record {
  reply = reply;
  clock = λ n. codes "now";
  random = λ n. n;
  json_parse = λ t. none;
}

abbrev two_attempts : MobulaClient
two_attempts = record {
  base_url = codes "https://api";
  graphql_url = codes "https://gql";
  api_key = none;
  policy = record default_retry { max_attempts = 2 };
}

abbrev observer : Observer
observer = record { history_limit = 1; latest = none; spent = 0; history = [] }

first_fails : (i : ℕ) → i < 1 → is_transient (second_succeeds i) ≡ true
first_fails zero lt = refl
first_fails (suc i) lt = absurd (omega arith)

request-settled_example :
    ((request whole_numbers two_attempts (world_of second_succeeds) observer (codes "/p") []).1
      ≡ final_answer whole_numbers
          (world_of second_succeeds)
          (call_of (codes "/p") [])
          1
          (second_succeeds 1))
    × (length
          (request whole_numbers two_attempts
            (world_of second_succeeds)
            observer
            (codes "/p")
            []).0.sent
        ≡ 2)
request-settled_example =
    request-settled whole_numbers two_attempts (world_of second_succeeds) observer (codes "/p") [] 1
      (omega arith) first_fails refl

abbrev always_busy : ℕ → Reply
always_busy n = replied (answered 503)

all_busy : (i : ℕ) → i < 2 → is_transient (always_busy i) ≡ true
unfolding is_retryable_status
all_busy i lt = refl

request-exhausted_example :
    ((request whole_numbers two_attempts (world_of always_busy) observer (codes "/p") []).1
      ≡ err
          (mobula (reply_error (world_of always_busy) (call_of (codes "/p") []) 1 (always_busy 1))))
    × (length
          (request whole_numbers two_attempts
            (world_of always_busy)
            observer
            (codes "/p")
            []).0.sent
        ≡ 2)
request-exhausted_example =
    request-exhausted whole_numbers two_attempts (world_of always_busy) observer (codes "/p") [] 1
      refl all_busy

half_le : (k n : ℕ) → n < 2 ^ 53 → whole_numbers.round_share ((world_of always_busy).random k) n ≤ n
half_le k n small = omega arith

request-waits_example :
    AreShort two_attempts.policy
      (request whole_numbers two_attempts (world_of always_busy) observer (codes "/p") []).0.waits
    × (length
          (request whole_numbers two_attempts
            (world_of always_busy)
            observer
            (codes "/p")
            []).0.waits
        ≡ length
            (request whole_numbers two_attempts
              (world_of always_busy)
              observer
              (codes "/p")
              []).0.sent
          - 1)
    × ((request whole_numbers two_attempts
          (world_of always_busy)
          observer
          (codes "/p")
          []).0.observer
        ≡ record_all whole_numbers observer (
            seen_before whole_numbers (world_of always_busy) (call_of (codes "/p") []) (
              length
                (request whole_numbers two_attempts
                  (world_of always_busy)
                  observer
                  (codes "/p")
                  []).0.sent)))
request-waits_example =
    request-waits whole_numbers two_attempts (world_of always_busy) observer (codes "/p") []
      (omega arith) half_le

abbrev costing : ℕ → Snapshot
costing n = record {
  cost = some n;
  limit = none;
  remaining = none;
  endpoint = codes "GET /p";
  at = codes "now";
  pod = none;
  upstream_ms = none;
}

-- Two workers, who finish in the other order.
abbrev schedule : List ℕ
schedule = 0 ∷ 1 ∷ 1 ∷ 0 ∷ 0 ∷ 1 ∷ []

run_turns_complete_example :
    (all is_ended (run_turns 2 (λ n. n + 5) schedule (new_pool 2 3)).workers ≡ true)
    × (results_from 2 0 (run_turns 2 (λ n. n + 5) schedule (new_pool 2 3)).results ≡ 5 ∷ 6 ∷ [])
    × ((run_turns 2 (λ n. n + 5) schedule (new_pool 2 3)).done ≡ 2)
unfolding new_pool turn turn_of set_worker
run_turns_complete_example =
    run_turns_complete 2 (λ n. n + 5) 3 schedule (omega arith)
      (
        (idle, refl, refl),
        (
          (idle, refl, refl),
          (
            (busy 1, refl, refl),
            ((busy 0, refl, refl), ((idle, refl, refl), ((idle, refl, refl), tt))),
          ),
        ),
      )
      refl
