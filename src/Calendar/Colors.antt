-- ===== src/Calendar/Colors.antt =====
-- The colors of events, `taskCategoryColor`, `readableTextColor`, `complementaryColor` and `withAlpha`
-- of frontend/src/App.tsx. A color is `#rrggbb`; a channel is read from its two places, and counts as
-- not a number where the first is no hexadecimal digit.
use task_calendar.Base.{
  ℕ, ◌+◌, ◌-◌, ◌*◌, ◌/◌, ◌%◌, Bool, false, ◌&&◌, Option, none, some, List, [], ◌∷◌, ◌++◌, take,
  drop, ltb, leb, or_else, if◌then◌else◌,
}
use task_calendar.Base.Ids.{map_get}
use task_calendar.Base.Text.{Text, codes}
use task_calendar.Base.Text.Decimal.{show}
use task_calendar.Task.{ScheduledTask}

abbrev pub default_category_color : Text
default_category_color = codes "#176b58"

abbrev pub hex_value : ℕ → Option ℕ
hex_value c =
    if leb b'0' c && leb c b'9'
    then some (c - b'0')
    else if leb b'a' c && leb c b'f'
    then some (c - 87)
    else if leb b'A' c && leb c b'F'
    then some (c - 55)
    else none

-- The digits up to the first other letter.
abbrev pub two_digits : Option ℕ → Option ℕ → Option ℕ
two_digits none low = none
two_digits (some high) none = some high
two_digits (some high) (some low) = some (high * 16 + low)

-- `Number.parseInt(text, 16)` of two letters; `none` is NaN.
abbrev pub channel_of : Text → Option ℕ
channel_of [] = none
channel_of (a ∷ []) = hex_value a
channel_of (a ∷ b ∷ rest) = two_digits (hex_value a) (hex_value b)

unfoldable pub channel : ℕ → Text → Option ℕ
channel start color = channel_of (take 2 (drop start color))

abbrev pub is_bright : Option ℕ → Option ℕ → Option ℕ → Bool
is_bright (some red) (some green) (some blue) = ltb 145000 (red * 299 + green * 587 + blue * 114)
is_bright _ _ _ = false

unfoldable pub readable_text_color : Text → Text
unfolding channel
readable_text_color color =
    if is_bright (channel 1 color) (channel 3 color) (channel 5 color)
    then codes "#182026"
    else codes "#ffffff"

abbrev pub hex_digit : ℕ → ℕ
hex_digit n = if ltb n 10 then b'0' + n else 87 + n

-- `(255 - channel).toString(16).padStart(2, "0")`
abbrev pub complement : Option ℕ → Text
complement none = codes "NaN"
complement (some n) = hex_digit ((255 - n) / 16) ∷ hex_digit ((255 - n) % 16) ∷ []

unfoldable pub complementary_color : Text → Text
unfolding channel
complementary_color color =
    b'#' ∷ complement (channel 1 color)
    ++ complement (channel 3 color)
    ++ complement (channel 5 color)

abbrev channel_text : Option ℕ → Text
channel_text none = codes "NaN"
channel_text (some n) = show n

-- `alpha` is the text of the number.
unfoldable pub with_alpha : Text → Text → Text
unfolding channel show
with_alpha color alpha =
    codes "rgba("
    ++ channel_text (channel 1 color)
    ++ codes ", "
    ++ channel_text (channel 3 color)
    ++ codes ", "
    ++ channel_text (channel 5 color)
    ++ codes ", "
    ++ alpha
    ++ codes ")"

abbrev color_by : Option Text → List (Text × Text) → Text
color_by none colors = default_category_color
color_by (some []) colors = default_category_color
color_by (some (c ∷ id)) colors = or_else (map_get colors (c ∷ id)) default_category_color

unfoldable pub task_category_color : ScheduledTask → List (Text × Text) → Text
unfolding map_get
task_category_color task colors = color_by task.list_id colors
