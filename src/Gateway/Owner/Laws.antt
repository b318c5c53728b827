-- ===== src/Gateway/Owner/Laws.antt =====
-- gateway/src/owner.ts: the owner that a lookup gives, and a publish under it.
use zegel.Common.{
  ◌≡◌, ◌≢◌, inl, inr, ℕ, sym, ◌∙◌, ◌↔◌, Option-cases, Bool-cases, if◌then◌else◌, Option, none, some,
  List, [], ◌∷◌, true, arith,
}
use zegel.Common.JsMap
use zegel.Common.Text.{Text, text_eq, text_eq_iff, to_lower_case}
use zegel.Gateway.Platform.{Platform}
use zegel.Common.Result.{ok}
use zegel.Gateway.Store.{EnvelopeRecord, EnvelopeStore}
use zegel.Gateway.Publish.{PublishRequest, Config, publish_envelope}
use zegel.Gateway.Publish.Laws.{publish_envelope-IsAdmitted}
use zegel.Gateway.Owner.{
  zero_address, ChainOptions, add_owners, static_owner_of, behind_wrapper, chain_owner_of,
}

-- Who owns a node: the one whom the registry names, or, where that is the wrapper, the one whom the
-- wrapper names.
pub data Owns (v : Platform) (o : ChainOptions) (node owner : Text) : Type 0 where
  registered :
      (answer : Text)
      → o.registry_owner node ≡ some answer
      → v.is_address answer ≡ true
      → answer ≢ zero_address
      → v.get_address answer ≡ some owner
      → o.name_wrapper ≡ none
      → Owns v o node owner
  not_wrapped :
      (answer wrapper w : Text)
      → o.registry_owner node ≡ some answer
      → v.is_address answer ≡ true
      → answer ≢ zero_address
      → v.get_address answer ≡ some owner
      → o.name_wrapper ≡ some wrapper
      → v.get_address wrapper ≡ some w
      → owner ≢ w
      → Owns v o node owner
  wrapped :
      (answer wrapper w held : Text)
      → o.registry_owner node ≡ some answer
      → v.is_address answer ≡ true
      → answer ≢ zero_address
      → v.get_address answer ≡ some w
      → o.name_wrapper ≡ some wrapper
      → v.get_address wrapper ≡ some w
      → o.wrapped_owner node ≡ some held
      → held ≢ zero_address
      → v.get_address held ≡ some owner
      → Owns v o node owner

module _ (v : Platform) (o : ChainOptions) (node owner : Text) where
  Owns-chain_owner_of : Owns v o node owner → chain_owner_of v o node ≡ some (some owner)
  unfolding chain_owner_of behind_wrapper
  Owns-chain_owner_of (registered a r i z g n) = ground (arith, text_eq_iff a zero_address)
  Owns-chain_owner_of (not_wrapped a p w r i z g n q d) =
      ground (arith, text_eq_iff a zero_address, text_eq_iff owner w)
  Owns-chain_owner_of (wrapped a p w h r i z g n q e d k) =
      ground (arith, text_eq_iff a zero_address, text_eq_iff w w, text_eq_iff h zero_address)

  behind_wrapper-Owns :
      (answer w : Text)
      → o.registry_owner node ≡ some answer
      → v.is_address answer ≡ true
      → answer ≢ zero_address
      → v.get_address answer ≡ some w
      → behind_wrapper v o node w ≡ some (some owner)
      → Owns v o node owner
  unfolding behind_wrapper
  behind_wrapper-Owns answer w r i z g h = elim (Option-cases o.name_wrapper) [
    | inl n ↦ registered answer r i z (ground arith) n
    | inr (wrapper, n) ↦ elim (Option-cases (v.get_address wrapper)) [
      | inl q ↦ absurd (ground arith)
      | inr (x, q) ↦ elim (Bool-cases (text_eq w x)) [
        | inr other ↦
            not_wrapped answer wrapper x r i z (ground arith) n q (ground (arith, text_eq_iff w x))
        | inl same ↦ elim (Option-cases (o.wrapped_owner node)) [
          | inl e ↦ absurd (ground arith)
          | inr (held, e) ↦
              wrapped answer wrapper w held r i z g n (ground (arith, text_eq_iff w x)) e
                (ground (arith, text_eq_iff held zero_address))
                (ground (arith, text_eq_iff held zero_address))
        ]
      ]
    ]
  ]

  chain_owner_of-Owns : chain_owner_of v o node ≡ some (some owner) → Owns v o node owner
  unfolding chain_owner_of
  chain_owner_of-Owns h = elim (Option-cases (o.registry_owner node)) [
    | inl r ↦ absurd (ground arith)
    | inr (answer, r) ↦ elim (Option-cases (v.get_address answer)) [
      | inl g ↦ absurd (ground arith)
      | inr (w, g) ↦
          behind_wrapper-Owns answer w r (ground arith)
            (ground (arith, text_eq_iff answer zero_address)) g (ground arith)
    ]
  ]

  -- The lookup on the chain gives an owner exactly if the registry names them with an address
  -- that is not zero, and that is not the wrapper's, or names the wrapper and that names them
  -- with an address that is not zero.
  pub chain_owner_of_iff : (chain_owner_of v o node ≡ some (some owner)) ↔ Owns v o node owner
  chain_owner_of_iff = (chain_owner_of-Owns, Owns-chain_owner_of)

-- Where the gateway reads owners from the chain, the publisher of every accepted record owns its
-- node: the registry names them, or it names the name wrapper and that names them.
publish_envelope-Owns :
    {S : Type 0} (v : Platform) (config : Config) (o : ChainOptions) (store : EnvelopeStore S)
    (now later : ℕ) (req : PublishRequest) (s s' : S) (r : EnvelopeRecord)
    → ((node : Text) → config.owner_of node ≡ chain_owner_of v o node)
    → publish_envelope v config store now later req s ≡ (ok r, s')
    → Owns v o req.node r.publisher
publish_envelope-Owns v config o store now later req s s' r read h =
    let a = publish_envelope-IsAdmitted v config store now later req s r s' h in
    rw a.recorded (chain_owner_of-Owns v o req.node a.owner (sym (read req.node) ∙ a.owned))

-- The last entry for a node, among those of a list.
abbrev pub last_entry : Text → List (Text × Text) → Option Text
last_entry k [] = none
last_entry k ((node, owner) ∷ es) = elim (last_entry k es) [
  | some later ↦ some later
  | none ↦ if text_eq (to_lower_case node) k then some owner else none
]

abbrev pub owner_at : Platform → Option Text → Option Text → Option Text
owner_at v none otherwise = otherwise
owner_at v (some owner) otherwise = v.get_address owner

add_owners-get :
    (v : Platform) (es owners owners' : List (Text × Text)) (k : Text)
    → add_owners v es owners ≡ some owners'
    → JsMap.get k owners' ≡ owner_at v (last_entry k es) (JsMap.get k owners)
unfolding add_owners
add_owners-get v [] owners owners' k h = ground arith
add_owners-get v ((node, owner) ∷ es) owners owners' k h =
    elim (Option-cases (v.get_address owner)) [
      | inl none_given ↦ absurd (ground arith)
      | inr (a, given) ↦
          let ih =
            add_owners-get v es (JsMap.set (to_lower_case node) a owners) owners' k
              (ground arith) in
          let gs = JsMap.get-set k (to_lower_case node) a owners in ground arith
    ]

-- The configured owner of a node is the address of the last entry for it.
static_owner_of-last_entry :
    (v : Platform) (es owners : List (Text × Text)) (node : Text)
    → add_owners v es [] ≡ some owners
    → static_owner_of owners node ≡ owner_at v (last_entry (to_lower_case node) es) none
unfolding static_owner_of JsMap.get
static_owner_of-last_entry v es owners node h = add_owners-get v es [] owners (to_lower_case node) h
