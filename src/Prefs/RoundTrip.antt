-- ===== src/Prefs/RoundTrip.antt =====
-- Preferences that are read after they were saved or cleared.
use task_calendar.Base.{
  ℕ, ◌≤◌, ◌∙◌, ◌≡◌, refl, sym, ap, Bool, true, false, none, some, List, [], ◌∷◌, arith,
  if◌then◌else◌,
}
use task_calendar.Base.Ids.{contains}
use task_calendar.Base.Json.{Json, JsonText, property, texts}
use task_calendar.Base.Text.{Text, codes, text_eq, option_text_eq}
use task_calendar.Base.Text.Decimal.{show, parse_int, parse_int-show}
use task_calendar.Prefs.{
  ThemeMode, WorkingHoursSettings, get_initial_theme_mode, save_theme_mode,
  get_initial_sidebar_open, save_sidebar_open, get_initial_sidebar_width, save_sidebar_width,
  get_initial_working_hours, save_working_hours, get_initial_show_completed_tasks,
  save_show_completed_tasks, get_initial_unscheduled_order, save_unscheduled_order,
  clear_stored_user_preferences, order_in, width_of, width_read, hours_read, theme_read, open_read,
  shown_read, order_read, working_hour_options, normalize_working_hour, min_sidebar_width,
  default_sidebar_width, default_working_hours, hours_json, strings_in, theme_text, preference_keys,
  hours_in,
}
use task_calendar.Prefs.Initial.{
  Preferences, default_preferences, initial_preferences, save_preferences,
}
use task_calendar.Prefs.Stored.{IsValid}
use task_calendar.Storage.{LocalStorage, Item, get_item, remove_items}
use task_calendar.Storage.Laws.{
  IsWritable, IsGone, set_item-IsWritable, get_item-set_item, get_item-set_item_other,
  get_item-remove_items, get_item-remove_items_other,
}

-- The JSON texts that the preferences are saved as can be read, and an empty text is none.
abbrev pub IsRead : JsonText → Preferences → Type 0
IsRead json p =
    (json.parse [] ≡ none)
    × (json.parse (json.stringify (hours_json p.working_hours)) ≡ some (hours_json p.working_hours))
    × (json.parse (json.stringify (Json.bool p.show_completed_tasks))
        ≡ some (Json.bool p.show_completed_tasks))
    × (json.parse (json.stringify (Json.arr (texts p.unscheduled_order)))
        ≡ some (Json.arr (texts p.unscheduled_order)))

theme_again : (mode : ThemeMode) → theme_read (Item.item (some (theme_text mode))) ≡ mode
unfolding theme_read text_eq
theme_again ThemeMode.light = refl
theme_again ThemeMode.dark = refl

open_again :
    (b : Bool) → open_read (Item.item (some (if b then codes "open" else codes "collapsed"))) ≡ b
unfolding open_read text_eq
open_again true = refl
open_again false = refl

width_again : (n : ℕ) → min_sidebar_width ≤ n → width_read (Item.item (some (show n))) ≡ n
width_again n h = ap width_of (parse_int-show n) ∙ omega arith

nothing_empty : contains working_hour_options [] ≡ true → ⊥
unfolding working_hour_options contains text_eq
nothing_empty e = ground (arith, e)

hour_again :
    (value fallback : Text)
    → contains working_hour_options value ≡ true
    → normalize_working_hour (some value) fallback ≡ value
unfolding normalize_working_hour
hour_again [] fallback h = absurd (nothing_empty h)
hour_again (c ∷ s) fallback h = rw (h) refl

-- A text that JSON reads is not empty.
stored_again :
    (json : JsonText) (text : Text) (j : Json)
    → json.parse [] ≡ none
    → json.parse text ≡ some j
    → (hours_read json (Item.item (some text)) ≡ hours_in (some j))
      × (order_read json (Item.item (some text)) ≡ order_in (some j))
stored_again json [] j none_read read = absurd (ground (arith, sym none_read ∙ read))
stored_again json (c ∷ s) j none_read read = (ap hours_in read, ap order_in read)

strings_in-texts : (order : List Text) → strings_in (texts order) ≡ order
strings_in-texts [] = refl
strings_in-texts (s ∷ order) = ap (λ rest. s ∷ rest) (strings_in-texts order)

hours_again :
    (hours : WorkingHoursSettings)
    → contains working_hour_options hours.start ≡ true
    → contains working_hour_options hours.end ≡ true
    → hours_in (some (hours_json hours)) ≡ hours
unfolding property text_eq
hours_again hours h k =
    rw
      (
        hour_again hours.start default_working_hours.start h,
        hour_again hours.end default_working_hours.end k,
      )
      refl

-- What each key holds after all were saved.
module _ (json : JsonText) (p : Preferences) (storage : LocalStorage) where
  abbrev saved : Text → Item
  saved = get_item (save_preferences json p storage)

  pub written :
      IsWritable storage
      → (saved (codes "calendar-theme") ≡ Item.item (some (theme_text p.theme_mode)))
        × (saved (codes "calendar-sidebar")
            ≡ Item.item (some (if p.is_sidebar_open then codes "open" else codes "collapsed")))
        × (saved (codes "calendar-sidebar-width") ≡ Item.item (some (show p.sidebar_width)))
        × (saved (codes "calendar-working-hours")
            ≡ Item.item (some (json.stringify (hours_json p.working_hours))))
        × (saved (codes "calendar-show-completed-tasks")
            ≡ Item.item (some (json.stringify (Json.bool p.show_completed_tasks))))
        × (saved (codes "calendar-unscheduled-order")
            ≡ Item.item (some (json.stringify (Json.arr (texts p.unscheduled_order)))))
  unfolding save_theme_mode save_sidebar_open save_sidebar_width save_working_hours
      save_show_completed_tasks save_unscheduled_order text_eq
  written h =
      let theme = set_item-IsWritable _ _ storage h in
      let sidebar = set_item-IsWritable _ _ _ theme in
      let width = set_item-IsWritable _ _ _ sidebar in
      let hours = set_item-IsWritable _ _ _ width in
      let shown = set_item-IsWritable _ _ _ hours in
      (
        get_item-set_item_other _ _ _ _ refl
            ∙ get_item-set_item_other _ _ _ _ refl
            ∙ get_item-set_item_other _ _ _ _ refl
            ∙ get_item-set_item_other _ _ _ _ refl
            ∙ get_item-set_item_other _ _ _ _ refl
            ∙ get_item-set_item _ _ _ h,
        get_item-set_item_other _ _ _ _ refl
            ∙ get_item-set_item_other _ _ _ _ refl
            ∙ get_item-set_item_other _ _ _ _ refl
            ∙ get_item-set_item_other _ _ _ _ refl
            ∙ get_item-set_item _ _ _ theme,
        get_item-set_item_other _ _ _ _ refl
            ∙ get_item-set_item_other _ _ _ _ refl
            ∙ get_item-set_item_other _ _ _ _ refl
            ∙ get_item-set_item _ _ _ sidebar,
        get_item-set_item_other _ _ _ _ refl
            ∙ get_item-set_item_other _ _ _ _ refl
            ∙ get_item-set_item _ _ _ width,
        get_item-set_item_other _ _ _ _ refl ∙ get_item-set_item _ _ _ hours,
        get_item-set_item _ _ _ shown,
      )

-- After the preferences were saved in a store that can be written, a start of the program finds the
-- same ones, when they are valid and JSON reads the texts that it made of them.
pub initial_preferences-save_preferences :
    (json : JsonText) (p : Preferences) (storage : LocalStorage)
    → IsWritable storage
    → IsValid p
    → IsRead json p
    → initial_preferences json (save_preferences json p storage) ≡ p
unfolding get_initial_theme_mode get_initial_sidebar_open get_initial_sidebar_width
    get_initial_working_hours get_initial_show_completed_tasks get_initial_unscheduled_order
initial_preferences-save_preferences json p storage h valid read =
    let (theme, sidebar, width, hours, shown, order) = written json p storage h in
    rw
      (
        theme,
        sidebar,
        width,
        hours,
        shown,
        order,
        theme_again p.theme_mode,
        open_again p.is_sidebar_open,
        width_again p.sidebar_width valid.0,
        (stored_again json _ _ read.0 read.1).0,
        hours_again p.working_hours valid.1 valid.2,
        read.2,
        (stored_again json _ _ read.0 read.3).1,
        strings_in-texts p.unscheduled_order,
      )
      refl

gone_default :
    (json : JsonText) (i : Item)
    → IsGone i
    → (theme_read i ≡ ThemeMode.light)
      × (open_read i ≡ true)
      × (width_read i ≡ default_sidebar_width)
      × (hours_read json i ≡ default_working_hours)
      × (shown_read json i ≡ true)
      × (order_read json i ≡ [])
unfolding theme_read open_read option_text_eq parse_int
gone_default json Item.throws h = (refl, refl, refl, refl, refl, refl)
gone_default json Item.undefined h = (refl, refl, refl, refl, refl, refl)
gone_default json (Item.item none) h = (refl, refl, refl, refl, refl, refl)
gone_default json (Item.item (some v)) h = absurd h

-- After the preferences are cleared a start of the program finds the ones that it has of itself,
-- whatever the browser held and can hold, and the token of the session is still there.
pub clear_stored_user_preferences_lem :
    (json : JsonText) (storage : LocalStorage)
    → (initial_preferences json (clear_stored_user_preferences storage) ≡ default_preferences)
      × (get_item (clear_stored_user_preferences storage) (codes "calendar-auth-token")
          ≡ get_item storage (codes "calendar-auth-token"))
unfolding get_initial_theme_mode get_initial_sidebar_open get_initial_sidebar_width
    get_initial_working_hours get_initial_show_completed_tasks get_initial_unscheduled_order
    clear_stored_user_preferences contains text_eq
clear_stored_user_preferences_lem json storage =
    let gone : (k : Text)
        → contains preference_keys k ≡ true
        → IsGone (get_item (remove_items preference_keys storage) k) =
      get_item-remove_items preference_keys storage in
    (
      rw
          (
            (gone_default json _ (gone (codes "calendar-theme") refl)).0,
            (gone_default json _ (gone (codes "calendar-sidebar") refl)).1,
            (gone_default json _ (gone (codes "calendar-sidebar-width") refl)).2,
            (gone_default json _ (gone (codes "calendar-working-hours") refl)).3,
            (gone_default json _ (gone (codes "calendar-show-completed-tasks") refl)).4,
            (gone_default json _ (gone (codes "calendar-unscheduled-order") refl)).5,
          )
          refl,
      get_item-remove_items_other preference_keys storage (codes "calendar-auth-token") refl,
    )
