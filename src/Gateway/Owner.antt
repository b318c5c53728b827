-- ===== src/Gateway/Owner.antt =====
-- gateway/src/owner.ts: who may publish under a node. The health reports are left out.
pub mod Laws
use zegel.Common.{Bool, true, false, Option, none, some, List, [], ◌∷◌, not, ◌||◌, if◌then◌else◌}
use zegel.Common.JsMap
use zegel.Common.Text.{Text, codes, text_eq, to_lower_case}
use zegel.Gateway.Platform.{Platform}

abbrev pub zero_address : Text
zero_address = codes "0x0000000000000000000000000000000000000000"

-- The loop of `staticOwners`; `none` is a call of `getAddress` that throws.
unfoldable pub add_owners :
    Platform → List (Text × Text) → List (Text × Text) → Option (List (Text × Text))
add_owners v [] owners = some owners
add_owners v ((node, owner) ∷ es) owners = elim (v.get_address owner) [
  | none ↦ none
  | some a ↦ add_owners v es (JsMap.set (to_lower_case node) a owners)
]

-- `ownerOf` of `staticOwners`
unfoldable pub static_owner_of : List (Text × Text) → Text → Option Text
static_owner_of owners node = JsMap.get (to_lower_case node) owners

-- The options of `chainOwners`, and what the contracts answer: the registry's `owner(node)` and the
-- wrapper's `ownerOf(id)`. `none` is a call that throws.
pub record ChainOptions : Type 0 where
  pub name_wrapper : Option Text
  pub registry_owner : Text → Option Text
  pub wrapped_owner : Text → Option Text

abbrev unless_zero : Platform → Text → Option (Option Text)
unless_zero v wrapped =
    if text_eq wrapped zero_address
    then some none
    else elim (v.get_address wrapped) [ none ↦ none | some a ↦ some (some a) ]

-- The owner behind a registry owner: the wrapper's answer if that is the wrapper.
unfoldable pub behind_wrapper : Platform → ChainOptions → Text → Text → Option (Option Text)
behind_wrapper v o node owner = elim o.name_wrapper [
  | none ↦ some (some owner)
  | some wrapper ↦ elim (v.get_address wrapper) [
    | none ↦ none
    | some w ↦
        if text_eq owner w
        then elim (o.wrapped_owner node) [ none ↦ none | some wrapped ↦ unless_zero v wrapped ]
        else some (some owner)
  ]
]

-- `ownerOf` of `chainOwners`: it throws, or it finds an owner or none.
unfoldable pub chain_owner_of : Platform → ChainOptions → Text → Option (Option Text)
chain_owner_of v o node = elim (o.registry_owner node) [
  | none ↦ none
  | some answer ↦
      if not (v.is_address answer) || text_eq answer zero_address
      then some none
      else elim (v.get_address answer) [ none ↦ none | some owner ↦ behind_wrapper v o node owner ]
]
