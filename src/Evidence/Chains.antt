-- ===== src/Evidence/Chains.antt =====
-- packages/evidence/src/chains.ts: the spellings of a chain. The case mapping is that of the ASCII
-- letters.
use zegel.Common.{
  ℕ, Bool, false, ◌&&◌, ◌||◌, Option, none, some, List, [], ◌∷◌, ◌++◌, length, take, drop, leb, all,
  if◌then◌else◌,
}
use zegel.Common.Text.{Text, codes, text_eq, to_lower_case, trim}
use zegel.Common.JsMap.{get}

-- What the language answers: `String(Number(digits))`, and `object[name]` for a name that the object
-- inherits, as a text.
pub record Spelling : Type 0 where
  pub decimal : Text → Text
  pub inherited : Text → Option Text

abbrev pub solana : Text
solana = codes "solana"

abbrev pub display_names : List (Text × Text)
display_names =
    (codes "ethereum", codes "evm:1")
    ∷ (codes "ethereum mainnet", codes "evm:1")
    ∷ (codes "base", codes "evm:8453")
    ∷ (codes "solana", codes "solana")
    ∷ (codes "optimism", codes "evm:10")
    ∷ (codes "bnb smart chain", codes "evm:56")
    ∷ (codes "bnb", codes "evm:56")
    ∷ (codes "bsc", codes "evm:56")
    ∷ (codes "polygon", codes "evm:137")
    ∷ (codes "arbitrum", codes "evm:42161")
    ∷ (codes "arbitrum one", codes "evm:42161")
    ∷ (codes "avalanche", codes "evm:43114")
    ∷ (codes "gnosis", codes "evm:100")
    ∷ (codes "xdai", codes "evm:100")
    ∷ []

-- `DISPLAY_NAMES[lower] ?? null`
abbrev display_name : Spelling → Text → Option Text
display_name s lower = elim (get lower display_names) [
  | some chain ↦ some chain
  | none ↦ s.inherited lower
]

abbrev pub is_digit : ℕ → Bool
is_digit c = leb b'0' c && leb c b'9'

-- `/^\d+$/`
unfoldable pub is_digits : Text → Bool
is_digits [] = false
is_digits (c ∷ s) = all is_digit (c ∷ s)

-- `lower.startsWith(prefix)`
unfoldable pub starts_with : Text → Text → Bool
starts_with prefix s = text_eq (take (length prefix) s) prefix

abbrev pub evm : Text → Text
evm id = codes "evm:" ++ id

abbrev numeric_chain : Spelling → Text → Text
numeric_chain s lower = if text_eq lower (codes "1399811149") then solana else evm (s.decimal lower)

-- What follows the trim, of a text in lower case.
unfoldable pub lower_chain : Spelling → Text → Option Text
lower_chain s lower =
    if text_eq lower solana || starts_with (codes "solana:") lower
    then some solana
    else if starts_with (codes "evm:") lower
    then (if is_digits (drop 4 lower) then some (evm (s.decimal (drop 4 lower))) else none)
    else if is_digits lower
    then some (numeric_chain s lower)
    else display_name s lower

abbrev nonempty_chain : Spelling → Text → Option Text
nonempty_chain s [] = none
nonempty_chain s (c ∷ t) = lower_chain s (to_lower_case (c ∷ t))

-- A number is given by its text.
unfoldable pub normalize_chain : Spelling → Option Text → Option Text
normalize_chain s none = none
normalize_chain s (some raw) = nonempty_chain s (trim raw)

unfoldable pub to_query_chain : Text → Text
to_query_chain chain = if text_eq chain solana then solana else chain
