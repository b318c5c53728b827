-- ===== src/Evidence/RateLimit.antt =====
-- packages/evidence/src/ratelimit.ts: the credits that the client has spent. A listener whose errors
-- are dropped changes nothing here, and is left out.
pub mod Laws
use zegel.Common.{ℕ, ◌-◌, Option, none, some, List, [], ◌∷◌, ◌++◌, length, drop, ltb, if◌then◌else◌}
use zegel.Common.Text.{Text, codes}
use zegel.Evidence.Numbers.{Double, Arithmetic}

abbrev pub Headers : Type 0
Headers = Text → Option Text

pub record Snapshot : Type 0 where
  pub cost : Option Double
  pub limit : Option Double
  pub remaining : Option Double
  pub endpoint : Text
  pub at : Text
  pub pod : Option Text
  pub upstream_ms : Option Double

unfoldable pub parse_int_or_null : Arithmetic → Option Text → Option Double
parse_int_or_null a none = none
parse_int_or_null a (some v) = a.number_of v

unfoldable pub snapshot_from_headers : Arithmetic → Headers → Text → Text → Snapshot
snapshot_from_headers a headers endpoint at = record {
  cost = parse_int_or_null a (headers (codes "x-ratelimit-cost"));
  limit = parse_int_or_null a (headers (codes "x-ratelimit-limit"));
  remaining = parse_int_or_null a (headers (codes "x-ratelimit-remaining"));
  endpoint = endpoint;
  at = at;
  pod = headers (codes "x-pod-name");
  upstream_ms = parse_int_or_null a (headers (codes "x-envoy-upstream-service-time"));
}

pub record Observer : Type 0 where
  pub history_limit : ℕ
  pub latest : Option Snapshot
  pub spent : Double
  pub history : List Snapshot

unfoldable pub create_rate_limit_observer : Arithmetic → ℕ → Observer
create_rate_limit_observer a history_limit = record {
  history_limit = history_limit;
  latest = none;
  spent = (a.of_nat 0);
  history = [];
}

-- `snapshot.cost ?? 0`
abbrev pub cost_of : Arithmetic → Option Double → Double
cost_of a none = (a.of_nat 0)
cost_of a (some c) = c

-- `if (history.length > historyLimit) history.splice(0, history.length - historyLimit)`
abbrev pub capped : ℕ → List Snapshot → List Snapshot
capped n h = if ltb n (length h) then drop (length h - n) h else h

unfoldable pub record_snapshot : Arithmetic → Observer → Snapshot → Observer
record_snapshot a o s = record o {
  latest = some s;
  spent = a.add o.spent (cost_of a s.cost);
  history = capped o.history_limit (o.history ++ s ∷ []);
}
