-- ===== src/Panels.antt =====
-- How the panels of a task open, frontend/src/App.tsx: the form of a new task with the times of the
-- place in the calendar that was chosen, or the details of a task. Scrolling and the focus are left
-- out.
use task_calendar.Base.{Bool, true, false, ◌&&◌, Option, none, some, [], or_else, if◌then◌else◌}
use task_calendar.Base.Int.{ℤ, pos, ◌+ℤ◌}
use task_calendar.Base.Text.{Text}
use task_calendar.Clock.Keys.{
  calendar_date_to_date_input_value, calendar_date_to_date_time_local_value,
}
use task_calendar.Forms.Editing.{AccordionSection, get_initial_edit_accordion_section}
use task_calendar.Session.{Screen, DetailPanel, find}
use task_calendar.Store.{find_task}
use task_calendar.Swipes.{Gestures, should_suppress_calendar_create_from_tap}
use task_calendar.Task.{TaskFormState, initial_form_state}

pub data CalendarView : Type 0 where
  month week day : CalendarView

pub data MobileScreen : Type 0 where
  today upcoming unscheduled calendar settings : MobileScreen

-- The parts of the component's state that these handlers read or write. `is_narrow` is
-- `isNarrowScreen()`.
pub record Panels : Type 0 where
  pub screen : Screen
  pub gestures : Gestures
  pub is_narrow : Bool
  pub calendar_view : CalendarView
  pub active_list_id : Option Text
  pub is_view_menu_open : Bool
  pub is_category_menu_open : Bool
  pub is_adding_category : Bool
  pub quick_action_task_id : Option Text
  pub is_sidebar_open : Bool
  pub mobile_screen : MobileScreen
  pub form_state : TaskFormState
  pub create_section : Option AccordionSection
  pub edit_section : Option AccordionSection
  pub is_panel_closing : Bool
  pub month_preview : Option ℤ

-- `selectedListIdForForms`
abbrev pub selected_list_id : Panels → Text
selected_list_id s = or_else s.active_list_id []

-- The menus that each of these closes, and the message that it takes back.
abbrev menus_closed : Panels → Panels
menus_closed s = record s {
  screen = record s.screen { form_error = none; menu = none };
  is_view_menu_open = false;
  is_category_menu_open = false;
  is_adding_category = false;
  quick_action_task_id = none;
}

-- On a narrow screen the calendar's own screen comes to the front.
abbrev in_calendar : Panels → Panels
in_calendar s =
    if s.is_narrow
    then record s { is_sidebar_open = true; mobile_screen = MobileScreen.calendar }
    else s

abbrev creating : Text → Text → Panels → Panels
creating start end s = record s {
  screen = record s.screen { panel = some DetailPanel.create; selected = none };
  create_section = some AccordionSection.schedule;
  form_state = record initial_form_state {
    list_id = selected_list_id s;
    scheduled_start = start;
    scheduled_end = end;
  };
}

unfoldable pub open_create_panel : ℤ → ℤ → Panels → Panels
unfolding calendar_date_to_date_time_local_value
open_create_panel start end s =
    creating (calendar_date_to_date_time_local_value start)
      (calendar_date_to_date_time_local_value end) (in_calendar (menus_closed s))

unfoldable pub open_date_only_create_panel : ℤ → Panels → Panels
unfolding calendar_date_to_date_input_value
open_date_only_create_panel date s =
    creating (calendar_date_to_date_input_value date) [] (in_calendar (menus_closed s))

unfoldable pub open_unscheduled_create_panel : Panels → Panels
open_unscheduled_create_panel s = creating [] [] (menus_closed s)

unfoldable pub open_task_detail_panel : Text → Panels → Panels
unfolding find_task get_initial_edit_accordion_section
open_task_detail_panel task_id s =
    let closed = menus_closed s in
    let wide = if s.is_narrow then record closed { is_sidebar_open = true } else closed in
    record wide {
      screen = record wide.screen { panel = some DetailPanel.edit; selected = some task_id };
      is_panel_closing = false;
      edit_section = some (get_initial_edit_accordion_section (find s.screen task_id));
    }

abbrev tapped : Gestures × Bool → (Panels → Panels) → Panels → Panels
tapped (gestures, true) act s = record s { gestures = gestures }
tapped (gestures, false) act s = act (record s { gestures = gestures })

unfoldable pub handle_date_select : ℤ → ℤ → Bool → Panels → Panels
unfolding should_suppress_calendar_create_from_tap open_create_panel open_date_only_create_panel
handle_date_select start end all_day s =
    tapped (should_suppress_calendar_create_from_tap s.gestures)
      (λ t. if all_day then open_date_only_create_panel start t else open_create_panel start end t)
      s

abbrev is_month : CalendarView → Bool
is_month CalendarView.month = true
is_month _ = false

-- A place without a length gets an hour.
unfoldable pub handle_date_click : ℤ → Bool → Panels → Panels
unfolding should_suppress_calendar_create_from_tap open_create_panel open_date_only_create_panel
handle_date_click date all_day s =
    tapped (should_suppress_calendar_create_from_tap s.gestures)
      (λ t.
        if is_month t.calendar_view && t.is_narrow
        then record t { month_preview = some date }
        else if all_day
        then open_date_only_create_panel date t
        else open_create_panel date (date +ℤ pos 3600000) t)
      s

abbrev is_section : AccordionSection → AccordionSection → Bool
is_section AccordionSection.schedule AccordionSection.schedule = true
is_section AccordionSection.organization AccordionSection.organization = true
is_section AccordionSection.notes AccordionSection.notes = true
is_section _ _ = false

abbrev toggled : AccordionSection → Option AccordionSection → Option AccordionSection
toggled section none = some section
toggled section (some current) = if is_section current section then none else some section

unfoldable pub toggle_create_accordion_section : AccordionSection → Panels → Panels
toggle_create_accordion_section section s = record s {
  create_section = toggled section s.create_section;
}

unfoldable pub toggle_edit_accordion_section : AccordionSection → Panels → Panels
toggle_edit_accordion_section section s = record s { edit_section = toggled section s.edit_section }
