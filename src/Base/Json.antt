-- ===== src/Base/Json.antt =====
-- JSON values. Numbers are integers, the only ones that the program writes. Reading and writing
-- their texts is the browser's part.
use task_calendar.Base.Int.{ℤ, pos}
use task_calendar.Base.Text.{Text, text_eq}
use task_calendar.Base.Tests.{if◌then◌else◌}
use Prim.Native.Nat.{ℕ}
use mathlib.Core.Bool.{Bool}
use mathlib.Core.List.{List, [], ◌∷◌}
use mathlib.Core.Option.{Option, none, some}

mutual
  pub data Json : Type 0 where
    null : Json
    bool : Bool → Json
    num : ℤ → Json
    str : Text → Json
    arr : Items → Json
    obj : Members → Json

  pub data Items : Type 0 where
    nil : Items
    cons : Json → Items → Items

  pub data Members : Type 0 where
    end : Members
    member : Text → Json → Members → Members

-- `JSON.parse`, where `none` is an exception, and `JSON.stringify`.
pub record JsonText : Type 0 where
  pub parse : Text → Option Json
  pub stringify : Json → Text

abbrev pub count : ℕ → Json
count n = Json.num (pos n)

-- `string | null` as a value.
abbrev pub or_nothing : Option Text → Json
or_nothing none = Json.null
or_nothing (some s) = Json.str s

-- The members of an object with a key that may be missing.
abbrev pub optional {ℓ} : {A : Type ℓ} → Text → (A → Json) → Option A → Members → Members
optional key write none rest = rest
optional key write (some a) rest = Members.member key (write a) rest

abbrev pub texts : List Text → Items
texts [] = Items.nil
texts (s ∷ ss) = Items.cons (Json.str s) (texts ss)

-- `value[key]` of an object, the last of equal keys; `none` is undefined.
unfoldable pub property : Members → Text → Option Json
property Members.end key = none
property (Members.member k v rest) key = elim (property rest key) [
  | some w ↦ some w
  | none ↦ if text_eq k key then some v else none
]
