-- ===== src/JsMap.antt =====
-- JavaScript's `Map` with string keys: entries in the order of insertion. Also `Set`, as a list
-- without repetition, and the lookup of `process.env`.
pub mod Laws
use litefunctions.Prelude.{
  Bool, true, false, ◌||◌, List, [], ◌∷◌, ◌++◌, Option, none, some, if◌then◌else◌, map,
}
use litefunctions.Text.{Text, text_eq}

abbrev pub JsMap {ℓ} : Type ℓ → Type ℓ
JsMap V = List (Text × V)

module _ {ℓ} {V : Type ℓ} where
  -- `m.get(k)`
  unfoldable pub get : Text → JsMap V → Option V
  get k [] = none
  get k ((j, v) ∷ m) = if text_eq j k then some v else get k m

  -- `m.has(k)`
  unfoldable pub has : Text → JsMap V → Bool
  has k [] = false
  has k ((j, v) ∷ m) = text_eq j k || has k m

  -- `m.set(k, v)`: a key that is there keeps its place
  unfoldable pub set : Text → V → JsMap V → JsMap V
  set k v [] = (k, v) ∷ []
  set k v ((j, w) ∷ m) = if text_eq j k then (j, v) ∷ m else (j, w) ∷ set k v m

  -- `m.delete(k)`
  unfoldable pub delete : Text → JsMap V → JsMap V
  delete k [] = []
  delete k ((j, w) ∷ m) = if text_eq j k then m else (j, w) ∷ delete k m

  -- `m.keys()`
  unfoldable pub keys : JsMap V → List Text
  keys [] = []
  keys ((j, w) ∷ m) = j ∷ keys m

-- `s.has(k)` of a `Set`
unfoldable pub member : Text → List Text → Bool
member k [] = false
member k (j ∷ s) = text_eq j k || member k s

-- `s.add(k)`
unfoldable pub add : Text → List Text → List Text
unfolding member
add k s = if member k s then s else s ++ k ∷ []

-- `new Set(items)`
unfoldable pub set_of_from : List Text → List Text → List Text
unfolding add
set_of_from s [] = s
set_of_from s (x ∷ xs) = set_of_from (add x s) xs

unfoldable pub set_of : List Text → List Text
unfolding set_of_from
set_of xs = set_of_from [] xs
