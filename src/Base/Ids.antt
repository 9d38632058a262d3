-- ===== src/Base/Ids.antt =====
-- Lists of identifiers: JavaScript's `includes`, `indexOf`, `Set` and `Map` over texts.
pub mod Laws
use task_calendar.Base.Lists.{filter}
use task_calendar.Base.Tests.{if◌then◌else◌}
use task_calendar.Base.Text.{Text, text_eq}
use Prim.Native.Nat.{ℕ, ◌+◌}
use mathlib.Core.Bool.{Bool, true, false, not, ◌&&◌, ◌||◌}
use mathlib.Core.List.{List, [], ◌∷◌}
use mathlib.Core.Option.{Option, none, some}

-- `xs.includes(x)`, and membership in `new Set(xs)`
unfoldable pub contains : List Text → Text → Bool
contains [] x = false
contains (y ∷ xs) x = text_eq y x || contains xs x

-- No two entries are equal.
unfoldable pub distinct : List Text → Bool
unfolding contains
distinct [] = true
distinct (x ∷ xs) = not (contains xs x) && distinct xs

-- The first index of `x`, counted from `k`; `none` is -1.
unfoldable pub index_from : ℕ → List Text → Text → Option ℕ
index_from k [] x = none
index_from k (y ∷ xs) x = if text_eq y x then some k else index_from (k + 1) xs x

abbrev pub index_of : List Text → Text → Option ℕ
index_of xs x = index_from 0 xs x

-- `xs.filter((y) => y !== x)`
abbrev pub without : Text → List Text → List Text
without x xs = filter (λ y. not (text_eq y x)) xs

-- `new Map(entries).get(key)`: the last entry with the key counts.
module _ {ℓ} {V : Type ℓ} where
  unfoldable pub map_get : List (Text × V) → Text → Option V
  map_get [] key = none
  map_get ((k, v) ∷ m) key = elim (map_get m key) [
    | none ↦ if text_eq k key then some v else none
    | some w ↦ some w
  ]
