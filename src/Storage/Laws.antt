-- ===== src/Storage/Laws.antt =====
-- Reading a browser's store after it was written.
use mathlib.Core.Path.{subst}
use task_calendar.Base.Ids.{contains}
use task_calendar.Base.{
  ◌∙◌, sym, true, false, none, some, List, [], ◌∷◌, if◌then◌else◌, ◌≡◌, refl, arith, Bool-cases,
  inl, inr,
}
use task_calendar.Base.Maps.{entry, delete_entry}
use task_calendar.Base.Maps.Laws.{entry-set_entry}
use task_calendar.Base.Text.{Text, text_eq, text_eq_iff}
use task_calendar.Storage.{LocalStorage, Item, get_item, set_item, remove_item, remove_items}

-- The browser has a store and lets it grow.
abbrev pub IsWritable : LocalStorage → Type 0
IsWritable (LocalStorage.store false items) = Unit
IsWritable _ = ⊥

pub set_item-IsWritable :
    (key value : Text) (s : LocalStorage) → IsWritable s → IsWritable (set_item key value s)
unfolding set_item
set_item-IsWritable key value (LocalStorage.store false items) h = tt
set_item-IsWritable key value (LocalStorage.store true items) h = absurd h
set_item-IsWritable key value LocalStorage.missing h = absurd h
set_item-IsWritable key value LocalStorage.blocked h = absurd h

pub get_item-set_item :
    (key value : Text) (s : LocalStorage)
    → IsWritable s
    → get_item (set_item key value s) key ≡ Item.item (some value)
unfolding get_item set_item
get_item-set_item key value (LocalStorage.store false items) h =
    rw (entry-set_entry key value items key, (text_eq_iff key key).1 refl) refl
get_item-set_item key value (LocalStorage.store true items) h = absurd h
get_item-set_item key value LocalStorage.missing h = absurd h
get_item-set_item key value LocalStorage.blocked h = absurd h

pub get_item-set_item_other :
    (key value x : Text) (s : LocalStorage)
    → text_eq key x ≡ false
    → get_item (set_item key value s) x ≡ get_item s x
unfolding get_item set_item
get_item-set_item_other key value x (LocalStorage.store false items) h =
    rw (entry-set_entry key value items x, h) refl
get_item-set_item_other key value x (LocalStorage.store true items) h = refl
get_item-set_item_other key value x LocalStorage.missing h = refl
get_item-set_item_other key value x LocalStorage.blocked h = refl

pub entry-delete_entry :
    (key : Text) (m : List (Text × Text)) (x : Text)
    → entry (delete_entry key m) x ≡ (if text_eq key x then none else entry m x)
unfolding entry
entry-delete_entry key [] x = ground arith
entry-delete_entry key ((k, w) ∷ m) x =
    ground
      (arith, text_eq_iff k key, text_eq_iff k x, text_eq_iff key x, entry-delete_entry key m x)

-- No text was read.
abbrev pub IsGone : Item → Type 0
IsGone (Item.item (some v)) = ⊥
IsGone _ = Unit

get_item-remove_item : (key : Text) (s : LocalStorage) → IsGone (get_item (remove_item key s) key)
unfolding get_item remove_item
get_item-remove_item key (LocalStorage.store full items) =
    subst (λ o. IsGone (Item.item o)) (sym removed) tt
  where
    removed : entry (delete_entry key items) key ≡ none
    removed = rw (entry-delete_entry key items key, (text_eq_iff key key).1 refl) refl
get_item-remove_item key LocalStorage.missing = tt
get_item-remove_item key LocalStorage.blocked = tt

pub get_item-remove_item_other :
    (key x : Text) (s : LocalStorage)
    → text_eq key x ≡ false
    → get_item (remove_item key s) x ≡ get_item s x
unfolding get_item remove_item
get_item-remove_item_other key x (LocalStorage.store full items) h =
    rw (entry-delete_entry key items x, h) refl
get_item-remove_item_other key x LocalStorage.missing h = refl
get_item-remove_item_other key x LocalStorage.blocked h = refl

pub get_item-remove_items_other :
    (keys : List Text) (s : LocalStorage) (x : Text)
    → contains keys x ≡ false
    → get_item (remove_items keys s) x ≡ get_item s x
unfolding remove_items contains
get_item-remove_items_other [] s x h = refl
get_item-remove_items_other (key ∷ keys) s x h =
    get_item-remove_items_other keys (remove_item key s) x (ground arith)
    ∙ get_item-remove_item_other key x s (ground arith)

-- What is removed is gone, and the rest stays.
pub get_item-remove_items :
    (keys : List Text) (s : LocalStorage) (x : Text)
    → contains keys x ≡ true
    → IsGone (get_item (remove_items keys s) x)
unfolding remove_items contains
get_item-remove_items [] s x h = absurd (ground arith)
get_item-remove_items (key ∷ keys) s x h = elim (Bool-cases (contains keys x)) [
  | inl later ↦ get_item-remove_items keys (remove_item key s) x later
  | inr not_later ↦
      subst IsGone (sym (get_item-remove_items_other keys (remove_item key s) x not_later)) (
        subst (λ k. IsGone (get_item (remove_item key s) k)) ((text_eq_iff key x).0 (ground arith))
          (get_item-remove_item key s))
]
