-- ===== src/Storage.antt =====
-- `window.localStorage` as frontend/src/App.tsx and frontend/src/api/auth.ts use it: a map of texts
-- that the browser may not have, may not allow, or may not let grow.
pub mod Laws
use task_calendar.Base.{Bool, true, false, not, Option, none, some, List, [], ◌∷◌}
use task_calendar.Base.Maps.{entry, set_entry, delete_entry}
use task_calendar.Base.Text.{Text}

-- `missing` is a window without the property, `blocked` one where reading it throws. A `full` store
-- throws when it is written.
pub data LocalStorage : Type 0 where
  missing blocked : LocalStorage
  store : (full : Bool) → List (Text × Text) → LocalStorage

-- `localStorage?.getItem(key)`: it throws, it is undefined, or it is a text or null.
pub data Item : Type 0 where
  throws undefined : Item
  item : Option Text → Item

unfoldable pub get_item : LocalStorage → Text → Item
unfolding entry
get_item LocalStorage.missing key = Item.undefined
get_item LocalStorage.blocked key = Item.throws
get_item (LocalStorage.store full items) key = Item.item (entry items key)

-- `localStorage?.setItem(key, value)` in a `try` that forgets what is thrown.
unfoldable pub set_item : Text → Text → LocalStorage → LocalStorage
unfolding set_entry
set_item key value (LocalStorage.store false items) =
    LocalStorage.store false (set_entry key value items)
set_item key value other = other

-- `localStorage?.removeItem(key)`, again in a `try`.
unfoldable pub remove_item : Text → LocalStorage → LocalStorage
remove_item key (LocalStorage.store full items) = LocalStorage.store full (delete_entry key items)
remove_item key other = other

unfoldable pub remove_items : List Text → LocalStorage → LocalStorage
unfolding remove_item
remove_items [] storage = storage
remove_items (key ∷ keys) storage = remove_items keys (remove_item key storage)
