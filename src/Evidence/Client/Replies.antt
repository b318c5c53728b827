-- ===== src/Evidence/Client/Replies.antt =====
-- packages/evidence/src/client.ts: what a call meets and what it leaves behind.
use zegel.Common.{
  ℕ, ◌+◌, ◌*◌, ◌^◌, min, Bool, true, Option, none, some, List, [], ◌++◌, length, take, leb, ltb,
  ◌==◌, ◌&&◌, ◌||◌, if◌then◌else◌,
}
use zegel.Common.Text.{Text, codes}
use zegel.Sdk.Canonical.{Value}
use zegel.Evidence.Numbers.{Double, Arithmetic}
use zegel.Evidence.RateLimit.{Headers, Snapshot, Observer}
use zegel.Evidence.Client.Settings.{Param, RetryPolicy, or_value}

unfoldable pub is_retryable_status : ℕ → Bool
is_retryable_status status = status == 429 || status == 408 || leb 500 status

-- `Math.min(policy.maxDelayMs, policy.baseDelayMs * 2 ** attempt)`
abbrev pub ceiling_of : RetryPolicy → ℕ → ℕ
ceiling_of p attempt = min p.max_delay_ms (p.base_delay_ms * 2 ^ attempt)

unfoldable pub backoff_delay : Arithmetic → ℕ → RetryPolicy → Double → ℕ
backoff_delay a attempt p rand = a.round_share rand (ceiling_of p attempt)

-- What one call of `fetch` brings: a response, or the message of its failure. `json` is what
-- `response.json()` reads, and `text` what `response.text()` reads, with `none` where it throws.
pub record Response : Type 0 where
  pub status : ℕ
  pub headers : Headers
  pub json : Option Value
  pub text : Option Text

pub data Reply : Type 0 where
  failed : Text → Reply
  replied : Response → Reply

-- Status 200 to 299.
abbrev pub is_ok : Response → Bool
is_ok r = leb 200 r.status && leb r.status 299

-- A text of the source is the constructor that stands for it.
pub data ErrorMessage : Type 0 where
  network_failure : Text → ErrorMessage
  http : ℕ → Text → ErrorMessage
  exhausted_retries : ErrorMessage
  graphql_errors : List Value → ErrorMessage

pub data ErrorBody : Type 0 where
  no_body : ErrorBody
  unparsed : Text → ErrorBody
  parsed : Value → ErrorBody

pub record MobulaError : Type 0 where
  pub message : ErrorMessage
  pub endpoint : Text
  pub status : Option ℕ
  pub retryable : Bool
  pub attempts : ℕ
  pub body : ErrorBody

-- `not_json` is the error of `response.json()`, `not_sent` that of `fetch`.
pub data Thrown : Type 0 where
  mobula : MobulaError → Thrown
  not_json : Thrown
  not_sent : Text → Thrown

pub record MobulaOk : Type 0 where
  pub endpoint : Text
  pub params : List (Text × Param)
  pub status : ℕ
  pub body : Value
  pub fetched_at : Text
  pub rate_limit : Snapshot
  pub attempts : ℕ

-- How long the client waits before an attempt: what the server asked for, or its own delay.
pub data Wait : Type 0 where
  server_asked : Double → Wait
  backed_off : ℕ → Wait

pub record Sent : Type 0 where
  pub url : Text
  pub query : List (Text × Param)
  pub authorization : Option Text

-- What happens around one call: the reply to each attempt, the instant of it, and the numbers drawn.
pub record World : Type 0 where
  pub reply : ℕ → Reply
  pub clock : ℕ → Text
  pub random : ℕ → Double
  pub json_parse : Text → Option Value

-- What the call leaves behind: the observer, the waits and the requests sent, the last one first.
pub record Trace : Type 0 where
  pub observer : Observer
  pub waits : List Wait
  pub sent : List Sent

unfoldable pub truncate : Text → Text
truncate text = if ltb 300 (length text) then take 300 text ++ codes "..." else text

abbrev parse_maybe_json : World → Text → ErrorBody
parse_maybe_json w text = elim (w.json_parse text) [ none ↦ unparsed text | some v ↦ parsed v ]

abbrev seconds_to_wait : Arithmetic → Option Double → Option Double
seconds_to_wait a none = none
seconds_to_wait a (some s) = if a.le (a.of_nat 0) s then some (a.mul s (a.of_nat 1000)) else none

abbrev retry_after_of : Arithmetic → Option Text → Option Double
retry_after_of a none = none
retry_after_of a (some raw) = seconds_to_wait a (a.number_of raw)

unfoldable pub parse_retry_after : Arithmetic → Headers → Option Double
parse_retry_after a headers = retry_after_of a (headers (codes "retry-after"))

-- One call of `request`: its path and its parameters, cleaned.
pub record GetCall : Type 0 where
  pub path : Text
  pub clean : List (Text × Param)

abbrev pub get_endpoint : GetCall → Text
get_endpoint c = codes "GET " ++ c.path

abbrev pub network_error : GetCall → ℕ → Text → MobulaError
network_error c attempt cause = record {
  message = network_failure cause;
  endpoint = get_endpoint c;
  status = none;
  retryable = true;
  attempts = attempt + 1;
  body = no_body;
}

abbrev pub http_error : World → GetCall → ℕ → Response → MobulaError
http_error w c attempt r =
    let text = or_value r.text [] in
    record {
      message = http r.status (truncate text);
      endpoint = get_endpoint c;
      status = some r.status;
      retryable = is_retryable_status r.status;
      attempts = attempt + 1;
      body = parse_maybe_json w text;
    }

-- `tryGet`: an error of the service is a value, any other is thrown.
pub data MobulaAttempt : Type 0 where
  succeeded : MobulaOk → MobulaAttempt
  refused : MobulaError → MobulaAttempt
