-- ===== src/Gateway/Store/Laws.antt =====
-- gateway/src/store/types.ts and memory.ts: what a store owes to its clients, and the memory store.
use zegel.Common.{◌≡◌, refl, ◌≤◌, max, some, arith, if◌then◌else◌}
use zegel.Common.JsMap
use zegel.Common.Text.{Text, text_eq, text_eq_iff, to_lower_case, to_lower_case_idem}
use zegel.Common.Result.{ok, err}
use zegel.Gateway.Failure.{Failure}
use zegel.Gateway.Store.{
  EnvelopeRecord, EnvelopeStore, MemoryEnvelopeStore, key, get, last_nonce, write, memory_store,
}

-- The nonces of a store only rise: an accepted record raises the nonce of its node to its own, a
-- record of another node changes nothing, and reading a nonce leaves every nonce as it was.
pub record IsNonceSafe {S : Type 0} (store : EnvelopeStore S) : Type 0 where
  pub put_raises :
      (r : EnvelopeRecord) (node : Text) (s s' : S)
      → store.put r s ≡ (ok tt, s')
      → (store.last_nonce node s').0 ≡ (
          if text_eq (key r.node) (key node)
          then max (store.last_nonce node s).0 r.nonce
          else (store.last_nonce node s).0)
  -- A write that fails may have raised a nonce, and has lowered none.
  pub put_fails :
      (r : EnvelopeRecord) (node : Text) (s s' : S) (e : Failure)
      → store.put r s ≡ (err e, s')
      → (store.last_nonce node s).0 ≤ (store.last_nonce node s').0
  pub reads_by_key :
      (node : Text) (s : S)
      → (store.last_nonce (to_lower_case node) s).0 ≡ (store.last_nonce node s).0
  pub read_keeps :
      (read node : Text) (s : S)
      → (store.last_nonce node (store.last_nonce read s).1).0 ≡ (store.last_nonce node s).0

pub get-write :
    (r : EnvelopeRecord) (node : Text) (s : MemoryEnvelopeStore)
    → get node (write r s) ≡ (if text_eq (key r.node) (key node) then some r else get node s)
unfolding get write
get-write r node s = JsMap.get-set (key node) (key r.node) r s.records

pub last_nonce-write :
    (r : EnvelopeRecord) (node : Text) (s : MemoryEnvelopeStore)
    → last_nonce node (write r s) ≡ (
        if text_eq (key r.node) (key node)
        then max (last_nonce node s) r.nonce
        else last_nonce node s)
unfolding last_nonce write
last_nonce-write r node s = ground (
  arith,
  JsMap.get-set (key node) (key r.node) r.nonce s.nonces,
  text_eq_iff (key r.node) (key node),
)

last_nonce-key :
    (node : Text) (s : MemoryEnvelopeStore) → last_nonce (to_lower_case node) s ≡ last_nonce node s
unfolding last_nonce
last_nonce-key node s = rw (to_lower_case_idem node)

pub memory_store-IsNonceSafe : IsNonceSafe memory_store
unfolding memory_store
memory_store-IsNonceSafe = record {
  put_raises = λ r node s s' e. ground (arith, last_nonce-write r node s);
  put_fails = λ r node s s' f e. ground arith;
  reads_by_key = last_nonce-key;
  read_keeps = λ read node s. refl;
}

-- A record that is held carries the highest nonce accepted for its node.
abbrev pub IsCurrent : MemoryEnvelopeStore → Type 0
IsCurrent s = (node : Text) (r : EnvelopeRecord) → get node s ≡ some r → r.nonce ≡ last_nonce node s

pub write-IsCurrent :
    (r : EnvelopeRecord) (s : MemoryEnvelopeStore)
    → IsCurrent s
    → last_nonce r.node s ≤ r.nonce
    → IsCurrent (write r s)
unfolding last_nonce
write-IsCurrent r s h above node q e = ground (
  arith,
  get-write r node s,
  last_nonce-write r node s,
  text_eq_iff (key r.node) (key node),
  h node q,
)
