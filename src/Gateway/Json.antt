-- ===== src/Gateway/Json.antt =====
-- The values that `JSON.parse` returns. A number is an integer, or the bit pattern of any other
-- double. The fields of an object have distinct names, as `JSON.parse` makes them.
use zegel.Common.{Bool, Option, none, some, if◌then◌else◌, ℕ, List, [], ◌∷◌}
use zegel.Common.Int.{ℤ}
use zegel.Common.Text.{Text, text_eq}

mutual
  pub data Json : Type 0 where
    null : Json
    boolean : Bool → Json
    integer : ℤ → Json
    other_number : ℕ → Json
    string : Text → Json
    array : Items → Json
    object : Fields → Json

  pub data Items : Type 0 where
    nil : Items
    cons : Json → Items → Items

  pub data Fields : Type 0 where
    end : Fields
    field : Text → Json → Fields → Fields

unfoldable pub items : Items → List Json
items nil = []
items (cons v vs) = v ∷ items vs

-- `candidate[name]`, with `none` for `undefined`.
unfoldable pub member : Text → Fields → Option Json
member name end = none
member name (field k v fs) = if text_eq k name then some v else member name fs
