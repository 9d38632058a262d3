-- ===== src/Base/Maps/Laws.antt =====
-- Reading a map after it was written.
use task_calendar.Base.{
  true, false, ◌||◌, none, some, List, [], ◌∷◌, if◌then◌else◌, ◌≡◌, refl, arith,
}
use task_calendar.Base.Ids.{contains, distinct}
use task_calendar.Base.Maps.{entry, set_entry, keys_of}
use task_calendar.Base.Text.{Text, text_eq, text_eq_iff}

module _ {ℓ} {V : Type ℓ} where
  pub entry-set_entry :
      (key : Text) (v : V) (m : List (Text × V)) (x : Text)
      → entry (set_entry key v m) x ≡ (if text_eq key x then some v else entry m x)
  unfolding entry set_entry
  entry-set_entry key v [] x = refl
  entry-set_entry key v ((k, w) ∷ m) x =
      ground
        (arith, text_eq_iff k key, text_eq_iff k x, text_eq_iff key x, entry-set_entry key v m x)

  pub entry_absent :
      (m : List (Text × V)) (x : Text) → contains (keys_of m) x ≡ false → entry m x ≡ none
  unfolding entry contains
  entry_absent [] x h = refl
  entry_absent ((k, v) ∷ m) x h = ground (arith, entry_absent m x)

  pub contains-set_entry :
      (key : Text) (v : V) (m : List (Text × V)) (x : Text)
      → contains (keys_of (set_entry key v m)) x ≡ (text_eq key x || contains (keys_of m) x)
  unfolding contains set_entry
  contains-set_entry key v [] x = ground arith
  contains-set_entry key v ((k, w) ∷ m) x =
      ground (arith, text_eq_iff k key, contains-set_entry key v m x)

  pub distinct-set_entry :
      (key : Text) (v : V) (m : List (Text × V))
      → distinct (keys_of m) ≡ true
      → distinct (keys_of (set_entry key v m)) ≡ true
  unfolding distinct set_entry contains
  distinct-set_entry key v [] h = ground arith
  distinct-set_entry key v ((k, w) ∷ m) h = ground (
    arith,
    text_eq_iff k key,
    text_eq_iff key k,
    distinct-set_entry key v m,
    contains-set_entry key v m k,
  )
