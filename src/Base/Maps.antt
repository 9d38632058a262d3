-- ===== src/Base/Maps.antt =====
-- A JavaScript `Map` with text keys as its entries in the order of insertion; a key stands once.
pub mod Laws
use task_calendar.Base.{Bool, not, Option, none, some, List, [], ◌∷◌, map, filter, if◌then◌else◌}
use task_calendar.Base.Text.{Text, text_eq}

module _ {ℓ} {V : Type ℓ} where
  -- `m.get(key)`
  unfoldable pub entry : List (Text × V) → Text → Option V
  entry [] key = none
  entry ((k, v) ∷ m) key = if text_eq k key then some v else entry m key

  -- `m.set(key, value)`: the entry keeps its place, and a new one goes to the end.
  unfoldable pub set_entry : Text → V → List (Text × V) → List (Text × V)
  set_entry key v [] = (key, v) ∷ []
  set_entry key v ((k, w) ∷ m) = if text_eq k key then (k, v) ∷ m else (k, w) ∷ set_entry key v m

  -- `m.delete(key)`
  abbrev pub delete_entry : Text → List (Text × V) → List (Text × V)
  delete_entry key = filter (λ e. not (text_eq e.0 key))

  abbrev pub keys_of : List (Text × V) → List Text
  keys_of = map (λ e. e.0)
