-- ===== src/Gateway/Store.antt =====
-- gateway/src/store/types.ts and memory.ts: where published envelopes live.
pub mod Laws
use zegel.Common.{ℕ, Bool, true, Option, none, some, List, [], ◌∷◌, ltb, if◌then◌else◌}
use zegel.Common.JsMap
use zegel.Common.Text.{Text, to_lower_case}
use zegel.Common.Result.{Result, ok}
use zegel.Gateway.Failure.{Failure}
use zegel.Gateway.Envelope.{StoredEnvelope}

pub record EnvelopeRecord : Type 0 where
  pub node : Text
  pub name : Option Text
  pub envelope : StoredEnvelope
  pub published_at : ℕ
  pub publisher : Text
  pub nonce : ℕ

-- The interface of a store whose state is `S`. A read may change the state (a cache); one that
-- rejects is not modelled.
pub record EnvelopeStore (S : Type 0) : Type 0 where
  pub writable : Bool
  pub get : Text → S → Option EnvelopeRecord × S
  pub put : EnvelopeRecord → S → Result Failure (Unit {0}) × S
  pub last_nonce : Text → S → ℕ × S

pub record MemoryEnvelopeStore : Type 0 where
  pub records : List (Text × EnvelopeRecord)
  pub nonces : List (Text × ℕ)

abbrev pub key : Text → Text
key node = to_lower_case node

abbrev pub or_zero : Option ℕ → ℕ
or_zero none = 0
or_zero (some n) = n

abbrev pub empty : MemoryEnvelopeStore
empty = record { records = []; nonces = [] }

unfoldable pub get : Text → MemoryEnvelopeStore → Option EnvelopeRecord
get node s = JsMap.get (key node) s.records

unfoldable pub last_nonce : Text → MemoryEnvelopeStore → ℕ
last_nonce node s = or_zero (JsMap.get (key node) s.nonces)

-- `#write`, which `put` calls
unfoldable pub write : EnvelopeRecord → MemoryEnvelopeStore → MemoryEnvelopeStore
write r s = record {
  records = JsMap.set (key r.node) r s.records;
  nonces =
      let seen = or_zero (JsMap.get (key r.node) s.nonces) in
      if ltb seen r.nonce then JsMap.set (key r.node) r.nonce s.nonces else s.nonces;
}

unfoldable pub list : MemoryEnvelopeStore → List EnvelopeRecord
list s = JsMap.values s.records

-- `new MemoryEnvelopeStore(seed)`
unfoldable pub seeded : List EnvelopeRecord → MemoryEnvelopeStore → MemoryEnvelopeStore
seeded [] s = s
seeded (r ∷ rs) s = seeded rs (write r s)

unfoldable pub memory_store : EnvelopeStore MemoryEnvelopeStore
memory_store = record {
  writable = true;
  get = λ node s. (get node s, s);
  put = λ r s. (ok tt, write r s);
  last_nonce = λ node s. (last_nonce node s, s);
}
