-- ===== src/Gateway/Publish/History.antt =====
-- gateway/src/admin.ts: sequences of publishes, each finished before the next begins.
use zegel.Common.{
  ℕ, max, ◌≡◌, refl, ◌≢◌, ◌≤◌, ◌<◌, ◌⊎◌, inl, inr, some, List, [], ◌∷◌, All, arith, if◌then◌else◌,
}
use zegel.Common.JsMap
use zegel.Common.Text.{Text, text_eq, text_eq_iff}
use zegel.Common.Result.{Result, ok, err, Result-cases}
use zegel.Gateway.Failure.{Failure}
use zegel.Gateway.Platform.{Platform}
use zegel.Gateway.Envelope.{parse_envelope}
use zegel.Gateway.Store.{
  EnvelopeRecord, EnvelopeStore, MemoryEnvelopeStore, key, get, last_nonce, write, memory_store,
  empty,
}
use zegel.Gateway.Store.Laws.{IsNonceSafe, IsCurrent, write-IsCurrent, memory_store-IsNonceSafe}
use zegel.Gateway.Publish.{PublishRequest, Config, publish_envelope, check_owner, record_of}
use zegel.Gateway.Publish.Laws.{publish_envelope-IsAdmitted}

-- One call of the handler: the request, the clock's two readings, and the answers of that moment.
pub record Attempt : Type 0 where
  pub config : Config
  pub now : ℕ
  pub later : ℕ
  pub req : PublishRequest

abbrev kept : Result Failure EnvelopeRecord → List EnvelopeRecord → List EnvelopeRecord
kept (ok r) rs = r ∷ rs
kept (err e) rs = rs

module _ {S : Type 0} (v : Platform) (store : EnvelopeStore S) where
  abbrev pub attempt : Attempt → S → Result Failure EnvelopeRecord × S
  attempt a s = publish_envelope v a.config store a.now a.later a.req s

  -- The records that a sequence of calls gets accepted, in order, and the store after it.
  unfoldable pub run : List Attempt → S → List EnvelopeRecord × S
  run [] s = ([], s)
  run (a ∷ more) s =
      let (result, s') = attempt a s in let (rs, t) = run more s' in (kept result rs, t)

-- Of two records of one node the later has the higher nonce.
abbrev pub Increasing : List EnvelopeRecord → Type 0
Increasing [] = Unit {0}
Increasing (r ∷ rs) = All (λ q. (key r.node ≢ key q.node) ⊎ (r.nonce < q.nonce)) rs × Increasing rs

All-map {ℓ κ} :
    {A : Type ℓ} (P Q : A → Type κ) → ((a : A) → P a → Q a) → (xs : List A) → All P xs → All Q xs
All-map P Q f [] h = tt
All-map P Q f (x ∷ xs) h = (f x h.0, All-map P Q f xs h.1)

module _ {S : Type 0} (v : Platform) (store : EnvelopeStore S) (laws : IsNonceSafe store) where
  -- A call that fails lowers no nonce.
  failed_attempt-le :
      (a : Attempt) (node : Text) (s s' : S) (e : Failure)
      → attempt v store a s ≡ (err e, s')
      → (store.last_nonce node s).0 ≤ (store.last_nonce node s').0
  unfolding publish_envelope
  failed_attempt-le a node s s' e h = elim (Result-cases (parse_envelope v a.req.envelope)) [
    | inr (e, p) ↦ ground (arith, laws.read_keeps a.req.node node s)
    | inl (env, p) ↦ elim (Result-cases (check_owner v a.config a.req env)) [
      | inr (f, q) ↦ ground (arith, laws.read_keeps a.req.node node s)
      | inl (owner, q) ↦ ground (
        arith,
        laws.read_keeps a.req.node node s,
        laws.put_fails (record_of a.req env owner a.later) node (store.last_nonce a.req.node s).1 s'
            e,
      )
    ]
  ]

  -- An accepted record has a nonce above the one read, and raises the nonces of its node to it.
  accepted-lt :
      (a : Attempt) (s s' : S) (r : EnvelopeRecord)
      → attempt v store a s ≡ (ok r, s')
      → (store.last_nonce r.node s).0 < r.nonce
  accepted-lt a s s' r h =
      let c = publish_envelope-IsAdmitted v a.config store a.now a.later a.req s r s' h in
      let above = c.fresh in ground (arith, c.recorded, laws.reads_by_key a.req.node s)

  accepted-raises :
      (a : Attempt) (node : Text) (s s' : S) (r : EnvelopeRecord)
      → attempt v store a s ≡ (ok r, s')
      → (store.last_nonce node s').0 ≡ (
          if text_eq (key r.node) (key node)
          then max (store.last_nonce node s).0 r.nonce
          else (store.last_nonce node s).0)
  accepted-raises a node s s' r h =
      let c = publish_envelope-IsAdmitted v a.config store a.now a.later a.req s r s' h in
      cc (
        laws.put_raises r node (store.last_nonce a.req.node s).1 s' c.stored,
        laws.read_keeps a.req.node node s,
      )

  -- No call lowers a nonce.
  attempt-le :
      (a : Attempt) (node : Text) (s : S)
      → (store.last_nonce node s).0 ≤ (store.last_nonce node (attempt v store a s).1).0
  attempt-le a node s = go (attempt v store a s) refl
    where
      go :
          (o : Result Failure EnvelopeRecord × S)
          → attempt v store a s ≡ o
          → (store.last_nonce node s).0 ≤ (store.last_nonce node o.1).0
      go (ok r, s') h = ground (arith, accepted-raises a node s s' r h)
      go (err e, s') h = failed_attempt-le a node s s' e h

  -- Every record accepted later has a nonce above the one that the store holds now.
  run-lt :
      (more : List Attempt) (s : S)
      → All (λ r. (store.last_nonce r.node s).0 < r.nonce) (run v store more s).0
  unfolding run
  run-lt [] s = tt
  run-lt (a ∷ more) s = go (attempt v store a s) refl (
      All-map _ _ (λ r h. omega (arith, attempt-le a r.node s)) _
        (run-lt more (attempt v store a s).1))
    where
      go :
          (o : Result Failure EnvelopeRecord × S)
          → attempt v store a s ≡ o
          → All (λ r. (store.last_nonce r.node s).0 < r.nonce) (run v store more o.1).0
          → All (λ r. (store.last_nonce r.node s).0 < r.nonce) (kept o.0 (run v store more o.1).0)
      go (ok r, s') h rest = (accepted-lt a s s' r h, rest)
      go (err e, s') h rest = rest

  -- For every store whose nonces only rise and every sequence of publish calls, each finished
  -- before the next begins, of two accepted records of one node the later has the higher nonce,
  -- and every accepted record has a nonce above the one the store held at the start.
  pub run-Increasing :
      (more : List Attempt) (s : S)
      → Increasing (run v store more s).0
        × All (λ r. (store.last_nonce r.node s).0 < r.nonce) (run v store more s).0
  unfolding run
  run-Increasing [] s = (tt, tt)
  run-Increasing (a ∷ more) s = (
    go (attempt v store a s) refl (run-Increasing more (attempt v store a s).1),
    run-lt (a ∷ more) s,
  )
    where
      go :
          (o : Result Failure EnvelopeRecord × S)
          → attempt v store a s ≡ o
          → Increasing (run v store more o.1).0
            × All (λ r. (store.last_nonce r.node o.1).0 < r.nonce) (run v store more o.1).0
          → Increasing (kept o.0 (run v store more o.1).0)
      go (err e, s') h (inc, lt) = inc
      go (ok r, s') h (inc, lt) = (All-map _ _ later _ lt, inc)
        where
          later :
              (q : EnvelopeRecord)
              → (store.last_nonce q.node s').0 < q.nonce
              → (key r.node ≢ key q.node) ⊎ (r.nonce < q.nonce)
          later q lt =
              ground
                (arith, accepted-raises a q.node s s' r h, text_eq_iff (key r.node) (key q.node))

  run-le :
      (more : List Attempt) (node : Text) (s : S)
      → (store.last_nonce node s).0 ≤ (store.last_nonce node (run v store more s).1).0
  unfolding run
  run-le [] node s = omega arith
  run-le (a ∷ more) node s =
      omega (arith, attempt-le a node s, run-le more node (attempt v store a s).1)

  -- Afterwards no accepted record of a node is above the nonce that the store holds for it.
  run-All_le :
      (more : List Attempt) (node : Text) (s : S)
      → All
          (λ r.
            (key r.node ≢ key node) ⊎ (r.nonce ≤ (store.last_nonce node (run v store more s).1).0))
          (run v store more s).0
  unfolding run
  run-All_le [] node s = tt
  run-All_le (a ∷ more) node s =
      go (attempt v store a s) refl (run-All_le more node (attempt v store a s).1)
    where
      P : Result Failure EnvelopeRecord × S → EnvelopeRecord → Type 0
      P o r =
          (key r.node ≢ key node) ⊎ (r.nonce ≤ (store.last_nonce node (run v store more o.1).1).0)

      go :
          (o : Result Failure EnvelopeRecord × S)
          → attempt v store a s ≡ o
          → All (P o) (run v store more o.1).0
          → All (P o) (kept o.0 (run v store more o.1).0)
      go (err e, s') h rest = rest
      go (ok r, s') h rest = (here, rest)
        where
          here : P (ok r, s') r
          here = ground (
            arith,
            accepted-raises a node s s' r h,
            run-le more node s',
            text_eq_iff (key r.node) (key node),
          )

-- A publish on the memory store that fails leaves the store as it was.
pub failed_attempt_keeps :
    (v : Platform) (a : Attempt) (s s' : MemoryEnvelopeStore) (e : Failure)
    → attempt v memory_store a s ≡ (err e, s')
    → s' ≡ s
unfolding publish_envelope memory_store
failed_attempt_keeps v a s s' e h = ground arith

accepted_write :
    (v : Platform) (a : Attempt) (s s' : MemoryEnvelopeStore) (r : EnvelopeRecord)
    → attempt v memory_store a s ≡ (ok r, s')
    → (s' ≡ write r s) × (last_nonce r.node s ≤ r.nonce)
unfolding memory_store
accepted_write v a s s' r h =
    let c = publish_envelope-IsAdmitted v a.config memory_store a.now a.later a.req s r s' h in
    let stored = c.stored in
    let above = accepted-lt v memory_store memory_store-IsNonceSafe a s s' r h in (cc, omega arith)

run-IsCurrent :
    (v : Platform) (more : List Attempt) (s : MemoryEnvelopeStore)
    → IsCurrent s
    → IsCurrent (run v memory_store more s).1
unfolding run
run-IsCurrent v [] s c = c
run-IsCurrent v (a ∷ more) s c =
    run-IsCurrent v more (attempt v memory_store a s).1 (go (attempt v memory_store a s) refl)
  where
    go :
        (o : Result Failure EnvelopeRecord × MemoryEnvelopeStore)
        → attempt v memory_store a s ≡ o
        → IsCurrent o.1
    go (err e, s') h = rw (failed_attempt_keeps v a s s' e h) c
    go (ok r, s') h =
        let (stored, above) = accepted_write v a s s' r h in rw stored (write-IsCurrent r s c above)

-- After any sequence of publish calls on an empty memory store, each finished before the next
-- begins, a record that it serves for a node has the nonce that it holds for that node, and no
-- record accepted for that node has a higher one.
pub run_serves_highest :
    (v : Platform) (more : List Attempt) (node : Text) (q : EnvelopeRecord)
    → get node (run v memory_store more empty).1 ≡ some q
    → (q.nonce ≡ last_nonce node (run v memory_store more empty).1)
      × All (λ r. (key r.node ≢ key node) ⊎ (r.nonce ≤ q.nonce)) (run v memory_store more empty).0
unfolding get last_nonce JsMap.get memory_store
run_serves_highest v more node q e =
    let same = run-IsCurrent v more empty (λ node r e. cc) node q e in
    (same, rw same (run-All_le v memory_store memory_store-IsNonceSafe more node empty))
