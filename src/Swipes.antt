-- ===== src/Swipes.antt =====
-- Swiping the calendar on a phone, frontend/src/App.tsx: a touch that goes far enough to the side
-- shows the next or the previous page, and the tap that the browser makes of it opens nothing.
-- Positions are whole pixels; the ratio 1.2 is written as 6 to 5.
pub mod Taps
use task_calendar.Base.{
  ℕ, ◌+◌, ◌*◌, Bool, true, false, not, ◌&&◌, ◌||◌, Option, none, some, List, [], ◌∷◌, ltb, leb,
  if◌then◌else◌,
}
use task_calendar.Base.Int.{ℤ, pos, ◌-ℤ◌, ltb_ℤ, pos_part, neg_part}

pub data Direction : Type 0 where
  prev next : Direction

-- `CalendarSwipeState`
pub record CalendarSwipeState : Type 0 where
  pub start_x : ℤ
  pub start_y : ℤ
  pub current_x : ℤ
  pub current_y : ℤ
  pub blocked : Bool
  pub is_horizontal_swipe : Bool

-- The references of the component that a swipe changes. `is_resetting` says whether the timer runs
-- that lets taps through again; `shown` holds the calls of `navigateCalendar`, the last one first.
pub record Gestures : Type 0 where
  pub is_enabled : Bool
  pub swipe : Option CalendarSwipeState
  pub suppresses_next_tap : Bool
  pub is_resetting : Bool
  pub shown : List Direction

abbrev pub tap_suppress_threshold : ℕ
tap_suppress_threshold = 24

abbrev pub swipe_threshold : ℕ
swipe_threshold = 60

-- `Math.abs`
unfoldable pub abs : ℤ → ℕ
abs n = pos_part n + neg_part n

abbrev pub is_sideways : ℕ → ℕ → Bool
is_sideways abs_x abs_y = ltb (6 * abs_y) (5 * abs_x)

unfoldable pub is_horizontal_calendar_swipe_intent : ℤ → ℤ → ℤ → ℤ → ℕ → Bool
is_horizontal_calendar_swipe_intent start_x start_y current_x current_y threshold =
    leb threshold (abs (current_x -ℤ start_x))
    && is_sideways (abs (current_x -ℤ start_x)) (abs (current_y -ℤ start_y))

unfoldable pub schedule_calendar_tap_suppress_reset : Gestures → Gestures
schedule_calendar_tap_suppress_reset g = record g { is_resetting = true }

-- The timer's end.
unfoldable pub reset_taps : Gestures → Gestures
reset_taps g = record g { suppresses_next_tap = false; is_resetting = false }

unfoldable pub mark_calendar_swipe_intent : Gestures → Gestures
mark_calendar_swipe_intent g = record g { suppresses_next_tap = true }

-- `blocked` is `shouldIgnoreCalendarSwipeTarget` of the event's target.
abbrev started : Bool → Bool → Option (ℤ × ℤ) → Option CalendarSwipeState
started false blocked touch = none
started true blocked none = none
started true blocked (some (x, y)) = some (record {
  start_x = x;
  start_y = y;
  current_x = x;
  current_y = y;
  blocked = blocked;
  is_horizontal_swipe = false;
})

unfoldable pub handle_calendar_touch_start : Bool → Option (ℤ × ℤ) → Gestures → Gestures
handle_calendar_touch_start blocked touch g = record g {
  swipe = started g.is_enabled blocked touch;
}

abbrev moved : CalendarSwipeState → ℤ → ℤ → Gestures → Gestures
moved swipe x y g =
    if is_horizontal_calendar_swipe_intent swipe.start_x swipe.start_y x y tap_suppress_threshold
    then mark_calendar_swipe_intent (record g {
      swipe = some (record swipe { current_x = x; current_y = y; is_horizontal_swipe = true });
    })
    else record g { swipe = some (record swipe { current_x = x; current_y = y }) }

abbrev moved_to : Option CalendarSwipeState → Option (ℤ × ℤ) → Gestures → Gestures
moved_to none touch g = g
moved_to (some swipe) none g = g
moved_to (some swipe) (some (x, y)) g =
    if not g.is_enabled || swipe.blocked then g else moved swipe x y g

unfoldable pub handle_calendar_touch_move : Option (ℤ × ℤ) → Gestures → Gestures
unfolding is_horizontal_calendar_swipe_intent mark_calendar_swipe_intent
handle_calendar_touch_move touch g = moved_to g.swipe touch g

-- The page that a touch asks for.
unfoldable pub navigation : ℤ → ℤ → Option Direction
navigation delta_x delta_y =
    if ltb (abs delta_x) swipe_threshold || not (is_sideways (abs delta_x) (abs delta_y))
    then none
    else some (if ltb_ℤ delta_x (pos 0) then Direction.next else Direction.prev)

abbrev pub navigated : Option Direction → Gestures → Gestures
navigated none g = g
navigated (some direction) g = record g { shown = direction ∷ g.shown }

abbrev pub suppressed : Bool → Gestures → Gestures
suppressed true g = schedule_calendar_tap_suppress_reset (mark_calendar_swipe_intent g)
suppressed false g = g

abbrev pub ended : CalendarSwipeState → ℤ → ℤ → Gestures → Gestures
ended swipe x y g = navigated (navigation (x -ℤ swipe.start_x) (y -ℤ swipe.start_y)) (
    suppressed
      (swipe.is_horizontal_swipe
        || is_horizontal_calendar_swipe_intent swipe.start_x swipe.start_y x y
            tap_suppress_threshold)
      g)

abbrev pub ended_at : Option CalendarSwipeState → Option (ℤ × ℤ) → Gestures → Gestures
ended_at none touch g = g
ended_at (some swipe) none g = g
ended_at (some swipe) (some (x, y)) g =
    if not g.is_enabled || swipe.blocked then g else ended swipe x y g

unfoldable pub handle_calendar_touch_end : Option (ℤ × ℤ) → Gestures → Gestures
unfolding navigation is_horizontal_calendar_swipe_intent mark_calendar_swipe_intent
    schedule_calendar_tap_suppress_reset
handle_calendar_touch_end touch g = ended_at g.swipe touch (record g { swipe = none })

unfoldable pub handle_calendar_touch_cancel : Gestures → Gestures
unfolding schedule_calendar_tap_suppress_reset
handle_calendar_touch_cancel g = schedule_calendar_tap_suppress_reset (record g { swipe = none })

-- Whether a tap opens nothing.
unfoldable pub should_suppress_calendar_create_from_tap : Gestures → Gestures × Bool
unfolding schedule_calendar_tap_suppress_reset
should_suppress_calendar_create_from_tap g =
    if not g.is_enabled || not g.suppresses_next_tap
    then (g, false)
    else (schedule_calendar_tap_suppress_reset (record g { suppresses_next_tap = false }), true)
