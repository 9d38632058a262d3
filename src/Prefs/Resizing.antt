-- ===== src/Prefs/Resizing.antt =====
-- The width of the sidebar while its edge is dragged, `handleSidebarResizeStart` and `clampNumber` of
-- frontend/src/App.tsx. Positions and widths are whole pixels.
use task_calendar.Base.{ℕ, if◌then◌else◌, arith}
use task_calendar.Base.Int.{ℤ, pos, ◌+ℤ◌, ◌-ℤ◌, ◌≤ℤ◌, ltb_ℤ}
use task_calendar.Prefs.{min_sidebar_width}

abbrev min_calendar_width : ℕ
min_calendar_width = 320

abbrev max_ℤ : ℤ → ℤ → ℤ
max_ℤ a b = if ltb_ℤ a b then b else a

abbrev min_ℤ : ℤ → ℤ → ℤ
min_ℤ a b = if ltb_ℤ b a then b else a

-- `Math.min(Math.max(value, min), max)`
unfoldable pub clamp_number : ℤ → ℤ → ℤ → ℤ
clamp_number value min max = min_ℤ (max_ℤ value min) max

abbrev max_sidebar_width : ℤ → ℤ
max_sidebar_width shell_width =
    max_ℤ (pos min_sidebar_width) (shell_width -ℤ pos min_calendar_width -ℤ pos 12)

-- The width at a position of the pointer, which went down at `start_x` when the width was
-- `start_width`.
unfoldable pub resized_width : ℤ → ℤ → ℤ → ℤ → ℤ
unfolding clamp_number
resized_width start_width start_x shell_width client_x =
    clamp_number (start_width +ℤ (client_x -ℤ start_x)) (pos min_sidebar_width)
      (max_sidebar_width shell_width)

-- The sidebar never gets narrower than it must be, nor wider than leaves the calendar its width,
-- where there is room for both.
pub resized_width_bounds :
    (start_width start_x shell_width client_x : ℤ)
    → (pos min_sidebar_width ≤ℤ resized_width start_width start_x shell_width client_x)
      × (resized_width start_width start_x shell_width client_x ≤ℤ max_sidebar_width shell_width)
unfolding resized_width clamp_number
resized_width_bounds start_width start_x shell_width client_x = (ground arith, ground arith)
