-- ===== src/Evidence/Client/Settings.antt =====
-- packages/evidence/src/client.ts: the settings of the client and the parameters of a call.
use zegel.Common.{ℕ, Bool, Option, none, some, List, [], ◌∷◌, ◌==◌, if◌then◌else◌}
use mathlib.Core.List.{reverse}
use zegel.Common.Text.{Text, codes}
use zegel.Sdk.Canonical.{text_ltb}
use zegel.Evidence.Numbers.{Double}

abbrev demo_base_url : Text
demo_base_url = codes "https://demo-api.mobula.io"

abbrev prod_base_url : Text
prod_base_url = codes "https://api.mobula.io"

abbrev graphql_url : Text
graphql_url = codes "https://graphql.mobula.io/graphql"

pub data Param : Type 0 where
  text_param : Text → Param
  number_param : Double → Param
  boolean_param : Bool → Param

-- `none` is a parameter that is `undefined`; the names are distinct.
abbrev pub QueryParams : Type 0
QueryParams = List (Text × Option Param)

pub record RetryPolicy : Type 0 where
  pub max_attempts : ℕ
  pub base_delay_ms : ℕ
  pub max_delay_ms : ℕ
  pub timeout_ms : ℕ

abbrev pub default_retry : RetryPolicy
default_retry = record {
  max_attempts = 5;
  base_delay_ms = 500;
  max_delay_ms = 8000;
  timeout_ms = 30000;
}

-- `Partial<RetryPolicy>`, with `none` for a field that is left out.
pub record RetryOptions : Type 0 where
  pub max_attempts : Option ℕ
  pub base_delay_ms : Option ℕ
  pub max_delay_ms : Option ℕ
  pub timeout_ms : Option ℕ

-- The options but for `fetch`, `random` and `sleep`, which stand in `World`.
pub record ClientOptions : Type 0 where
  pub api_key : Option Text
  pub base_url : Option Text
  pub graphql_url : Option Text
  pub retry : RetryOptions

pub record MobulaClient : Type 0 where
  pub base_url : Text
  pub graphql_url : Text
  pub api_key : Option Text
  pub policy : RetryPolicy

-- `env[name]`, which the empty text does not set.
abbrev read_env : Option Text → Option Text
read_env (some []) = none
read_env v = v

abbrev pub or_else {ℓ} : {A : Type ℓ} → Option A → Option A → Option A
or_else none d = d
or_else (some a) d = some a

abbrev pub or_value {ℓ} : {A : Type ℓ} → Option A → A → A
or_value none d = d
or_value (some a) d = a

-- `{ ...DEFAULT_RETRY, ...options.retry }`
abbrev merged_retry : RetryOptions → RetryPolicy
merged_retry o = record {
  max_attempts = or_value o.max_attempts default_retry.max_attempts;
  base_delay_ms = or_value o.base_delay_ms default_retry.base_delay_ms;
  max_delay_ms = or_value o.max_delay_ms default_retry.max_delay_ms;
  timeout_ms = or_value o.timeout_ms default_retry.timeout_ms;
}

drop_slashes : Text → Text
drop_slashes [] = []
drop_slashes (c ∷ s) = let rest = drop_slashes s in if c == b'/' then rest else c ∷ s

-- `replace(/\/+$/, '')`
unfoldable pub strip_slashes : Text → Text
unfolding drop_slashes
strip_slashes s = reverse (drop_slashes (reverse s))

-- The host that goes with a key, or with none.
abbrev host_for : Option Text → Text
host_for none = demo_base_url
host_for (some k) = prod_base_url

-- The second argument is the variable `MOBULA_API_KEY` of the environment.
unfoldable pub create_mobula_client : ClientOptions → Option Text → MobulaClient
create_mobula_client o env =
    let key = or_else o.api_key (read_env env) in
    record {
      base_url = strip_slashes (or_value o.base_url (host_for key));
      graphql_url = or_value o.graphql_url graphql_url;
      api_key = key;
      policy = merged_retry o.retry;
    }

unfoldable pub insert_param : Text × Option Param → QueryParams → QueryParams
insert_param x [] = x ∷ []
insert_param x (y ∷ ys) =
    let rest = insert_param x ys in if text_ltb y.0 x.0 then y ∷ rest else x ∷ y ∷ ys

-- `Object.keys(params).sort()`
unfoldable pub sort_params : QueryParams → QueryParams
sort_params [] = []
sort_params (x ∷ xs) = insert_param x (sort_params xs)

unfoldable pub defined_params : QueryParams → List (Text × Param)
defined_params [] = []
defined_params ((k, none) ∷ ps) = defined_params ps
defined_params ((k, some v) ∷ ps) = (k, v) ∷ defined_params ps

unfoldable pub clean_params : QueryParams → List (Text × Param)
clean_params params = defined_params (sort_params params)
