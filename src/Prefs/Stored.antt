-- ===== src/Prefs/Stored.antt =====
-- Preferences that were saved, and those of a store that another program may have written.
use task_calendar.Base.{◌≤◌, ◌≡◌, refl, true, Option, none, some, [], ◌∷◌, or_else, arith}
use task_calendar.Base.Ids.{contains}
use task_calendar.Base.Int.{ℤ, pos, negsuc}
use task_calendar.Base.Json.{Json, Members, JsonText}
use task_calendar.Base.Text.{Text, codes, text_eq}
use task_calendar.Base.Text.Decimal.{parse_int}
use task_calendar.Prefs.{
  WorkingHoursSettings, get_initial_sidebar_width, get_initial_working_hours, width_of, width_read,
  hours_read, working_hour_options, normalize_working_hour, min_sidebar_width,
  default_working_hours, stored_width, hours_in, hours_of,
}
use task_calendar.Prefs.Initial.{Preferences, initial_preferences}
use task_calendar.Storage.{LocalStorage, Item, get_item}

-- A width that shows the sidebar, and hours that the menus offer.
abbrev pub IsValid : Preferences → Type 0
IsValid p =
    (min_sidebar_width ≤ p.sidebar_width)
    × (contains working_hour_options p.working_hours.start ≡ true)
    × (contains working_hour_options p.working_hours.end ≡ true)

width_of-min : (width : Option ℤ) → min_sidebar_width ≤ width_of width
width_of-min none = omega arith
width_of-min (some (pos n)) = omega arith
width_of-min (some (negsuc n)) = omega arith

stored_width-min : (text : Text) → min_sidebar_width ≤ stored_width text
stored_width-min text = width_of-min (parse_int text)

width_read-min : (i : Item) → min_sidebar_width ≤ width_read i
width_read-min (Item.item stored) = stored_width-min (or_else stored [])
width_read-min Item.undefined = stored_width-min []
width_read-min Item.throws = omega arith

hour-valid :
    (value : Option Text) (fallback : Text)
    → contains working_hour_options fallback ≡ true
    → contains working_hour_options (normalize_working_hour value fallback) ≡ true
unfolding normalize_working_hour
hour-valid none fallback h = h
hour-valid (some value) fallback h = ground (arith, h)

-- Both hours are in the menus.
abbrev pub AreOffered : WorkingHoursSettings → Type 0
AreOffered hours =
    (contains working_hour_options hours.start ≡ true)
    × (contains working_hour_options hours.end ≡ true)

default-AreOffered : AreOffered default_working_hours
unfolding working_hour_options contains text_eq
default-AreOffered = (refl, refl)

hours_of-AreOffered : (members : Members) → AreOffered (hours_of members)
hours_of-AreOffered members = (
  hour-valid _ default_working_hours.start default-AreOffered.0,
  hour-valid _ default_working_hours.end default-AreOffered.1,
)

hours_in-AreOffered : (value : Option Json) → AreOffered (hours_in value)
hours_in-AreOffered none = default-AreOffered
hours_in-AreOffered (some Json.null) = default-AreOffered
hours_in-AreOffered (some (Json.obj members)) = hours_of-AreOffered members
hours_in-AreOffered (some (Json.bool b)) = hours_of-AreOffered Members.end
hours_in-AreOffered (some (Json.num n)) = hours_of-AreOffered Members.end
hours_in-AreOffered (some (Json.str s)) = hours_of-AreOffered Members.end
hours_in-AreOffered (some (Json.arr items)) = hours_of-AreOffered Members.end

hours_read-AreOffered : (json : JsonText) (i : Item) → AreOffered (hours_read json i)
hours_read-AreOffered json (Item.item none) = default-AreOffered
hours_read-AreOffered json (Item.item (some [])) = default-AreOffered
hours_read-AreOffered json (Item.item (some (c ∷ s))) = hours_in-AreOffered (json.parse (c ∷ s))
hours_read-AreOffered json Item.undefined = default-AreOffered
hours_read-AreOffered json Item.throws = default-AreOffered

-- Whatever the browser holds, the sidebar starts at least as wide as it must be, and the working
-- hours are two that the menus offer.
pub initial_preferences-IsValid :
    (json : JsonText) (storage : LocalStorage) → IsValid (initial_preferences json storage)
unfolding get_initial_sidebar_width get_initial_working_hours
initial_preferences-IsValid json storage =
    let hours = hours_read-AreOffered json (get_item storage (codes "calendar-working-hours")) in
    (width_read-min (get_item storage (codes "calendar-sidebar-width")), hours.0, hours.1)
