-- ===== src/Common/JsMap.antt =====
-- A JavaScript `Map` with string keys: its entries in insertion order. `set` on a key that is
-- present keeps its place.
use mathlib.Core.Path.{◌≡◌, refl}
use mathlib.Core.Bool.{Bool, true, not, ◌&&◌}
use mathlib.Core.Option.{Option, none, some}
use mathlib.Core.List.{List, [], ◌∷◌, ◌++◌}
use native.Mathlib.Omega.{arith}
use zegel.Common.Tests.{if◌then◌else◌}
use zegel.Common.Text.{Text, text_eq, text_eq_iff, text_eq_symm}

module _ {ℓ} {V : Type ℓ} where
  unfoldable pub get : Text → List (Text × V) → Option V
  get k [] = none
  get k ((j, v) ∷ m) = if text_eq j k then some v else get k m

  unfoldable pub set : Text → V → List (Text × V) → List (Text × V)
  set k v [] = (k, v) ∷ []
  set k v ((j, w) ∷ m) = if text_eq j k then (j, v) ∷ m else (j, w) ∷ set k v m

  unfoldable pub values : List (Text × V) → List V
  values [] = []
  values ((k, v) ∷ m) = v ∷ values m

  -- Reading any key after a write.
  pub get-set :
      (j k : Text) (v : V) (m : List (Text × V))
      → get j (set k v m) ≡ (if text_eq k j then some v else get j m)
  unfolding get set
  get-set j k v [] = refl
  get-set j k v ((i, w) ∷ m) =
      ground (arith, text_eq_iff k j, text_eq_iff i k, text_eq_iff i j, get-set j k v m)

  -- `!map.has(key)`
  abbrev pub lacks : Text → List (Text × V) → Bool
  lacks k [] = true
  lacks k ((j, v) ∷ m) = not (text_eq j k) && lacks k m

  -- No key stands twice.
  abbrev pub HasDistinctKeys : List (Text × V) → Type 0
  HasDistinctKeys [] = Unit
  HasDistinctKeys ((k, v) ∷ m) = (lacks k m ≡ true) × HasDistinctKeys m

  lacks-set :
      (j k : Text) (v : V) (m : List (Text × V))
      → lacks j (set k v m) ≡ (not (text_eq k j) && lacks j m)
  unfolding set
  lacks-set j k v [] = refl
  lacks-set j k v ((i, w) ∷ m) =
      ground (arith, text_eq_iff k j, text_eq_iff i k, text_eq_iff i j, lacks-set j k v m)

  pub set-HasDistinctKeys :
      (k : Text) (v : V) (m : List (Text × V)) → HasDistinctKeys m → HasDistinctKeys (set k v m)
  unfolding set
  set-HasDistinctKeys k v [] h = (refl, tt)
  set-HasDistinctKeys k v ((i, w) ∷ m) (free, h) =
      ground
        (arith, text_eq_iff i k, text_eq_symm i k, lacks-set i k v m, set-HasDistinctKeys k v m h)

  pub set_fresh :
      (k : Text) (v : V) (m : List (Text × V)) → lacks k m ≡ true → set k v m ≡ m ++ ((k, v) ∷ [])
  unfolding set
  set_fresh k v [] h = refl
  set_fresh k v ((i, w) ∷ m) h = ground (arith, set_fresh k v m)

  pub lacks-append :
      (k : Text) (m n : List (Text × V)) → lacks k (m ++ n) ≡ (lacks k m && lacks k n)
  lacks-append k [] n = refl
  lacks-append k ((i, w) ∷ m) n = ground (arith, lacks-append k m n)

  -- In a map without repetitions no key of the end stands in the beginning.
  pub lacks_prefix :
      (k : Text) (v : V) (m n : List (Text × V))
      → HasDistinctKeys (m ++ (k, v) ∷ n)
      → lacks k m ≡ true
  lacks_prefix k v [] n h = refl
  lacks_prefix k v ((i, w) ∷ m) n (free, h) =
      ground (arith, text_eq_symm i k, lacks-append i m ((k, v) ∷ n), lacks_prefix k v m n h)
