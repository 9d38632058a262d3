-- ===== src/Prefs.antt =====
-- The preferences that a browser keeps for a user: the theme, the sidebar, the working hours, whether
-- completed tasks are shown, and the manual order, with the `getInitial…` and `save…` functions of
-- frontend/src/App.tsx. `JSON` is a parameter.
pub mod Initial
pub mod Stored
pub mod RoundTrip
pub mod Resizing
use task_calendar.Base.{
  ℕ, zero, suc, ◌<◌, Bool, true, false, not, ◌&&◌, Option, none, some, List, [], ◌∷◌, ◌++◌, map,
  or_else, is_some, if◌then◌else◌, max, min,
}
use task_calendar.Base.Ids.{contains}
use task_calendar.Base.Int.{ℤ, pos, negsuc}
use task_calendar.Base.Json.{Json, Items, Members, JsonText, property, texts}
use task_calendar.Base.Text.{Text, codes, is_empty, text_eq, option_text_eq}
use task_calendar.Base.Text.Decimal.{show, pad2, parse_int}
use task_calendar.Storage.{LocalStorage, Item, get_item, set_item, remove_items}

pub data ThemeMode : Type 0 where
  light dark : ThemeMode

pub data WeekStart : Type 0 where
  sunday monday : WeekStart

pub record WorkingHoursSettings : Type 0 where
  pub start : Text
  pub end : Text

abbrev pub default_sidebar_width : ℕ
default_sidebar_width = 300

abbrev pub min_sidebar_width : ℕ
min_sidebar_width = 240

abbrev pub default_working_hours : WorkingHoursSettings
default_working_hours = record { start = codes "08:00"; end = codes "22:00" }

-- `Array.from({ length: 24 }, …)`
abbrev hours_from : ℕ → ℕ → List Text
hours_from k zero = []
hours_from k (suc n) = (pad2 k ++ codes ":00") ∷ hours_from (suc k) n

unfoldable pub working_hour_options : List Text
unfolding pad2 show
working_hour_options = hours_from 0 24

unfoldable pub theme_read : Item → ThemeMode
unfolding option_text_eq
theme_read (Item.item stored) =
    if option_text_eq stored (some (codes "dark")) then ThemeMode.dark else ThemeMode.light
theme_read Item.undefined = ThemeMode.light
theme_read Item.throws = ThemeMode.light

unfoldable pub get_initial_theme_mode : LocalStorage → ThemeMode
unfolding get_item theme_read
get_initial_theme_mode storage = theme_read (get_item storage (codes "calendar-theme"))

abbrev pub theme_text : ThemeMode → Text
theme_text ThemeMode.light = codes "light"
theme_text ThemeMode.dark = codes "dark"

unfoldable pub save_theme_mode : ThemeMode → LocalStorage → LocalStorage
save_theme_mode mode = set_item (codes "calendar-theme") (theme_text mode)

unfoldable pub open_read : Item → Bool
unfolding option_text_eq
open_read (Item.item stored) = not (option_text_eq stored (some (codes "collapsed")))
open_read Item.undefined = true
open_read Item.throws = true

unfoldable pub get_initial_sidebar_open : LocalStorage → Bool
unfolding get_item open_read
get_initial_sidebar_open storage = open_read (get_item storage (codes "calendar-sidebar"))

unfoldable pub save_sidebar_open : Bool → LocalStorage → LocalStorage
save_sidebar_open is_open =
    set_item (codes "calendar-sidebar") (if is_open then codes "open" else codes "collapsed")

abbrev pub width_of : Option ℤ → ℕ
width_of none = default_sidebar_width
width_of (some (pos n)) = max min_sidebar_width n
width_of (some (negsuc n)) = min_sidebar_width

abbrev pub stored_width : Text → ℕ
stored_width text = width_of (parse_int text)

abbrev pub width_read : Item → ℕ
width_read (Item.item stored) = stored_width (or_else stored [])
width_read Item.undefined = stored_width []
width_read Item.throws = default_sidebar_width

unfoldable pub get_initial_sidebar_width : LocalStorage → ℕ
unfolding get_item
get_initial_sidebar_width storage = width_read (get_item storage (codes "calendar-sidebar-width"))

-- A width of whole pixels, which `Math.round` keeps.
unfoldable pub save_sidebar_width : ℕ → LocalStorage → LocalStorage
save_sidebar_width width = set_item (codes "calendar-sidebar-width") (show width)

-- `none` is a value that is no text.
unfoldable pub normalize_working_hour : Option Text → Text → Text
normalize_working_hour none fallback = fallback
normalize_working_hour (some value) fallback =
    if not (is_empty value) && contains working_hour_options value then value else fallback

abbrev pub text_of : Option Json → Option Text
text_of (some (Json.str s)) = some s
text_of _ = none

abbrev pub hours_of : Members → WorkingHoursSettings
hours_of members = record {
  start =
      normalize_working_hour (text_of (property members (codes "start")))
        default_working_hours.start;
  end = normalize_working_hour (text_of (property members (codes "end"))) default_working_hours.end;
}

-- `none` is a text that is no JSON; `null.start` throws, and other values have no members.
abbrev pub hours_in : Option Json → WorkingHoursSettings
hours_in none = default_working_hours
hours_in (some Json.null) = default_working_hours
hours_in (some (Json.obj members)) = hours_of members
hours_in (some other) = hours_of Members.end

abbrev pub stored_hours : JsonText → Option Text → WorkingHoursSettings
stored_hours json none = default_working_hours
stored_hours json (some []) = default_working_hours
stored_hours json (some (c ∷ s)) = hours_in (json.parse (c ∷ s))

abbrev pub hours_read : JsonText → Item → WorkingHoursSettings
hours_read json (Item.item stored) = stored_hours json stored
hours_read json Item.undefined = default_working_hours
hours_read json Item.throws = default_working_hours

unfoldable pub get_initial_working_hours : JsonText → LocalStorage → WorkingHoursSettings
unfolding get_item
get_initial_working_hours json storage =
    hours_read json (get_item storage (codes "calendar-working-hours"))

-- `undefined !== null` is true.
abbrev pub is_stored : Item → Bool
is_stored (Item.item stored) = is_some stored
is_stored Item.undefined = true
is_stored Item.throws = false

unfoldable pub has_stored_working_hours : LocalStorage → Bool
unfolding get_item
has_stored_working_hours storage = is_stored (get_item storage (codes "calendar-working-hours"))

abbrev pub hours_json : WorkingHoursSettings → Json
hours_json hours = Json.obj (
    Members.member (codes "start") (Json.str hours.start)
      (Members.member (codes "end") (Json.str hours.end) Members.end))

unfoldable pub save_working_hours : JsonText → WorkingHoursSettings → LocalStorage → LocalStorage
save_working_hours json hours =
    set_item (codes "calendar-working-hours") (json.stringify (hours_json hours))

abbrev pub shown_in : Option Json → Bool
shown_in (some (Json.bool b)) = b
shown_in _ = true

abbrev pub shown_read : JsonText → Item → Bool
shown_read json (Item.item none) = true
shown_read json (Item.item (some stored)) = shown_in (json.parse stored)
shown_read json Item.undefined = true
shown_read json Item.throws = true

unfoldable pub get_initial_show_completed_tasks : JsonText → LocalStorage → Bool
unfolding get_item
get_initial_show_completed_tasks json storage =
    shown_read json (get_item storage (codes "calendar-show-completed-tasks"))

unfoldable pub save_show_completed_tasks : JsonText → Bool → LocalStorage → LocalStorage
save_show_completed_tasks json shown =
    set_item (codes "calendar-show-completed-tasks") (json.stringify (Json.bool shown))

abbrev pub strings_in : Items → List Text
strings_in Items.nil = []
strings_in (Items.cons (Json.str s) rest) = s ∷ strings_in rest
strings_in (Items.cons other rest) = strings_in rest

abbrev pub order_in : Option Json → List Text
order_in (some (Json.arr items)) = strings_in items
order_in _ = []

abbrev pub stored_order : JsonText → Option Text → List Text
stored_order json none = []
stored_order json (some []) = []
stored_order json (some (c ∷ s)) = order_in (json.parse (c ∷ s))

abbrev pub order_read : JsonText → Item → List Text
order_read json (Item.item stored) = stored_order json stored
order_read json Item.undefined = []
order_read json Item.throws = []

unfoldable pub get_initial_unscheduled_order : JsonText → LocalStorage → List Text
unfolding get_item
get_initial_unscheduled_order json storage =
    order_read json (get_item storage (codes "calendar-unscheduled-order"))

unfoldable pub save_unscheduled_order : JsonText → List Text → LocalStorage → LocalStorage
save_unscheduled_order json order =
    set_item (codes "calendar-unscheduled-order") (json.stringify (Json.arr (texts order)))

abbrev pub preference_keys : List Text
preference_keys =
    codes "calendar-theme"
    ∷ codes "calendar-sidebar"
    ∷ codes "calendar-sidebar-width"
    ∷ codes "calendar-working-hours"
    ∷ codes "calendar-show-completed-tasks"
    ∷ codes "calendar-unscheduled-order"
    ∷ []

unfoldable pub clear_stored_user_preferences : LocalStorage → LocalStorage
unfolding remove_items
clear_stored_user_preferences = remove_items preference_keys

unfoldable pub normalize_week_start : Option Text → WeekStart
unfolding option_text_eq
normalize_week_start value =
    if option_text_eq value (some (codes "monday")) then WeekStart.monday else WeekStart.sunday
