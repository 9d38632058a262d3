-- ===== src/Categories/Sorting.antt =====
-- The list of categories keeps the order of the names when one is created or changed.
use mathlib.Core.List.{Perm}
use mathlib.Core.List.Perm
use task_calendar.Base.{Bool, true, false, List, [], ◌∷◌, All, ◌≡◌}
use task_calendar.Categories.{not_after}
use task_calendar.Platform.{Platform}
use task_calendar.Views.{TaskList}

module _ (p : Platform) where
  abbrev pub name_leb : TaskList → TaskList → Bool
  name_leb a b = not_after (p.locale_compare a.name b.name)

  -- `localeCompare` is total and transitive.
  abbrev pub IsOrder : Type 0
  IsOrder =
      ((a b : TaskList) → name_leb a b ≡ false → name_leb b a ≡ true)
      × ((a b c : TaskList) → name_leb a b ≡ true → name_leb b c ≡ true → name_leb a c ≡ true)

  abbrev pub IsSorted : List TaskList → Type 0
  IsSorted [] = Unit
  IsSorted (a ∷ lists) = All (λ b. name_leb a b ≡ true) lists × IsSorted lists
