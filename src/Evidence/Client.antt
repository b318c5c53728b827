-- ===== src/Evidence/Client.antt =====
-- packages/evidence/src/client.ts: the client of the data service, with its retries.
pub mod Settings
pub mod Replies
pub mod Laws
pub mod Decided
pub mod Waits
use zegel.Common.{
  ℕ, zero, suc, ◌+◌, ◌*◌, ◌^◌, min, Bool, true, false, not, Option, none, some, List, [], ◌∷◌, ◌++◌,
  length, take, leb, ltb, ◌==◌, ◌&&◌, ◌||◌, if◌then◌else◌,
}
use mathlib.Core.List.{reverse}
use zegel.Common.Text.{Text, codes}
use zegel.Common.Result.{Result, ok, err}
use zegel.Sdk.Canonical.{Value, text_ltb}
use zegel.Evidence.Numbers.{Double, Arithmetic}
use zegel.Evidence.RateLimit.{Headers, Snapshot, Observer, snapshot_from_headers, record_snapshot}
use zegel.Evidence.Client.Settings.{
  MobulaClient, Param, QueryParams, RetryPolicy, clean_params, or_value,
}
use zegel.Evidence.Client.Replies.{
  ErrorBody, ErrorMessage, GetCall, MobulaAttempt, MobulaError, MobulaOk, Reply, Response, Sent,
  Thrown, Trace, Wait, World, backed_off, backoff_delay, exhausted_retries, failed, get_endpoint,
  graphql_errors, http, http_error, is_ok, is_retryable_status, mobula, network_error, no_body,
  not_json, not_sent, parse_retry_after, parsed, refused, replied, server_asked, succeeded,
}

-- How one round of the loop ends: the call is over, or the error is kept and the loop goes on.
pub data Round : Type 0 where
  over : Trace → Result Thrown MobulaOk → Round
  again : Trace → MobulaError → Option Double → Round

abbrev pub snapshot_at : Arithmetic → World → GetCall → ℕ → Response → Snapshot
snapshot_at a w c attempt r = snapshot_from_headers a r.headers (get_endpoint c) (w.clock attempt)

abbrev pub read_ok : Arithmetic → World → GetCall → ℕ → Response → Result Thrown MobulaOk
read_ok a w c attempt r = elim r.json [
  | none ↦ err not_json
  | some v ↦ ok (record {
    endpoint = get_endpoint c;
    params = c.clean;
    status = r.status;
    body = v;
    fetched_at = w.clock attempt;
    rate_limit = snapshot_at a w c attempt r;
    attempts = attempt + 1;
  })
]

-- The part of the round after `fetch`.
unfoldable pub after_reply : Arithmetic → World → GetCall → ℕ → Reply → Trace → Round
after_reply a w c attempt (failed cause) t = again t (network_error c attempt cause) none
after_reply a w c attempt (replied r) t =
    let t' = record t { observer = record_snapshot a t.observer (snapshot_at a w c attempt r) } in
    if is_ok r
    then over t' (read_ok a w c attempt r)
    else if is_retryable_status r.status
    then again t' (http_error w c attempt r) (parse_retry_after a r.headers)
    else over t' (err (mobula (http_error w c attempt r)))

abbrev wait_for : Arithmetic → RetryPolicy → World → ℕ → Option Double → Wait
wait_for a p w attempt none = backed_off (backoff_delay a attempt p (w.random attempt))
wait_for a p w attempt (some ms) = server_asked ms

-- `if (attempt > 0) await sleep(…)`
unfoldable pub sleep_before :
    Arithmetic → RetryPolicy → World → ℕ → Option Double → List Wait → List Wait
sleep_before a p w zero after waits = waits
sleep_before a p w (suc attempt) after waits = wait_for a p w attempt after ∷ waits

abbrev pub sent_by : MobulaClient → GetCall → Sent
sent_by m c = record {
  url = m.base_url ++ codes "/api" ++ c.path;
  query = c.clean;
  authorization = m.api_key;
}

unfoldable pub attempt_once :
    Arithmetic → MobulaClient → World → GetCall → ℕ → Option Double → Trace → Round
attempt_once a m w c attempt after t = after_reply a w c attempt (w.reply attempt) (record t {
  waits = sleep_before a m.policy w attempt after t.waits;
  sent = sent_by m c ∷ t.sent;
})

-- `throw (lastError ?? new MobulaError(…))`
abbrev pub last_error : MobulaClient → GetCall → Option MobulaError → MobulaError
last_error m c (some e) = e
last_error m c none = record {
  message = exhausted_retries;
  endpoint = get_endpoint c;
  status = none;
  retryable = true;
  attempts = m.policy.max_attempts;
  body = no_body;
}

-- The loop, with the attempts that are left, the number of this one, and `serverRetryAfterMs`.
unfoldable pub attempts_loop :
    Arithmetic
    → MobulaClient
    → World
    → GetCall
    → ℕ
    → ℕ
    → Option MobulaError
    → Option Double
    → Trace
    → Trace × Result Thrown MobulaOk
attempts_loop a m w c zero attempt last after t = (t, err (mobula (last_error m c last)))
attempts_loop a m w c (suc left) attempt last after t =
    elim (attempt_once a m w c attempt after t) [
      | over t' r ↦ (t', r)
      | again t' e after' ↦ attempts_loop a m w c left (attempt + 1) (some e) after' t'
    ]

unfoldable pub request :
    Arithmetic
    → MobulaClient
    → World
    → Observer
    → Text
    → QueryParams
    → Trace × Result Thrown MobulaOk
request a m w o path params =
    attempts_loop a m w (record { path = path; clean = clean_params params }) m.policy.max_attempts
      0 none none (record { observer = o; waits = []; sent = [] })

-- The payload of the GraphQL endpoint at its declared type: its data, and the messages of its errors.
pub record Payload : Type 0 where
  pub content : Value
  pub errors : Option (List Value)

abbrev graphql_error : ErrorMessage → ℕ → Bool → ErrorBody → MobulaError
graphql_error message status retryable body = record {
  message = message;
  endpoint = codes "POST /graphql";
  status = some status;
  retryable = retryable;
  attempts = 1;
  body = body;
}

abbrev payload_result : ℕ → Value → Value → Option (List Value) → Result Thrown Value
payload_result status v content (some (e ∷ es)) =
    err (mobula (graphql_error (graphql_errors (e ∷ es)) status false (parsed v)))
payload_result status v content (some []) = ok content
payload_result status v content none = ok content

abbrev graphql_answer : (Value → Payload) → Response → Result Thrown Value
graphql_answer read r =
    if is_ok r
    then (elim r.json [
      | none ↦ err not_json
      | some v ↦ payload_result r.status v (read v).content (read v).errors
    ])
    else err
        (mobula (graphql_error (http r.status []) r.status (is_retryable_status r.status) no_body))

-- One request with no retry; the last argument reads a payload.
unfoldable pub graphql :
    Arithmetic → World → Observer → (Value → Payload) → Observer × Result Thrown Value
graphql a w o read = elim (w.reply 0) [
  | failed cause ↦ (o, err (not_sent cause))
  | replied r ↦ (
    record_snapshot a o (snapshot_from_headers a r.headers (codes "POST /graphql") (w.clock 0)),
    graphql_answer read r,
  )
]

unfoldable pub try_get : Result Thrown MobulaOk → Result Thrown MobulaAttempt
try_get (ok v) = ok (succeeded v)
try_get (err (mobula e)) = ok (refused e)
try_get (err e) = err e
