-- ===== src/Base/Text.antt =====
-- Text as a list of UTF-16 code units, which is what `length`, `slice` and `===` of a JavaScript
-- string see. `codes "…"` is the text of an ASCII literal.
pub mod Decimal
use Prim.Native.Char.{code}
use Prim.Native.String.{String}
use task_calendar.Base.Tests.{leb, ◌==◌, ==_iff, if◌then◌else◌}
use Prim.Native.Nat.{ℕ, ◌+◌, ◌-◌}
use mathlib.Core.Path.{◌≡◌}
use mathlib.Core.Bool.{Bool, true, false, not, ◌&&◌, ◌||◌}
use mathlib.Core.List.{List, [], ◌∷◌, ◌++◌, reverse}
use mathlib.Core.Logic.{◌↔◌}
use mathlib.Core.Option.{Option, none, some}
use task_calendar.Base.Lists.{any, drop, length}
use native.Mathlib.Omega.{arith}

abbrev pub Text : Type 0
Text = List ℕ

abbrev pub codes : String → Text
codes String.[] = []
codes (String.◌∷◌ c s) = code c ∷ codes s

-- `a === b`
unfoldable pub text_eq : Text → Text → Bool
text_eq [] [] = true
text_eq (a ∷ s) (b ∷ t) = (a == b) && text_eq s t
text_eq _ _ = false

pub text_eq_iff : (s t : Text) → (text_eq s t ≡ true) ↔ (s ≡ t)
unfolding text_eq
text_eq_iff [] [] = ground arith
text_eq_iff [] (b ∷ t) = ground arith
text_eq_iff (a ∷ s) [] = ground arith
text_eq_iff (a ∷ s) (b ∷ t) = ground (arith, text_eq_iff s t)

-- `!s` on a text is "it is empty"; on an optional text also "it is null".
abbrev pub is_empty : Text → Bool
is_empty [] = true
is_empty (c ∷ s) = false

abbrev pub truthy : Option Text → Bool
truthy none = false
truthy (some s) = not (is_empty s)

-- `s || null`
abbrev pub or_null : Text → Option Text
or_null [] = none
or_null (c ∷ s) = some (c ∷ s)

-- `a === b` where either may be null.
unfoldable pub option_text_eq : Option Text → Option Text → Bool
unfolding text_eq
option_text_eq none none = true
option_text_eq (some s) (some t) = text_eq s t
option_text_eq _ _ = false

pub option_text_eq_iff : (s t : Option Text) → (option_text_eq s t ≡ true) ↔ (s ≡ t)
unfolding option_text_eq
option_text_eq_iff none none = ground arith
option_text_eq_iff none (some t) = ground arith
option_text_eq_iff (some s) none = ground arith
option_text_eq_iff (some s) (some t) = ground (arith, text_eq_iff s t)

-- The white space and line ends of ECMAScript, which `trim` and `parseInt` skip.
unfoldable pub is_space : ℕ → Bool
is_space c =
    (leb 9 c && leb c 13)
    || (leb 0x2000 c && leb c 0x200a)
    || any (λ d. c == d)
        (32 ∷ 160 ∷ 0x1680 ∷ 0x2028 ∷ 0x2029 ∷ 0x202f ∷ 0x205f ∷ 0x3000 ∷ 0xfeff ∷ [])

unfoldable pub trim_start : Text → Text
unfolding is_space
trim_start [] = []
trim_start (c ∷ s) = if is_space c then trim_start s else c ∷ s

-- `s.trim()`
unfoldable pub trim : Text → Text
unfolding trim_start
trim s = reverse (trim_start (reverse (trim_start s)))

-- `s.toUpperCase()` and `s.toLowerCase()` on ASCII letters; the words that the program compares
-- the result with are of such letters.
unfoldable pub to_upper : Text → Text
to_upper [] = []
to_upper (c ∷ s) = (if leb b'a' c && leb c b'z' then c - 32 else c) ∷ to_upper s

unfoldable pub to_lower : Text → Text
to_lower [] = []
to_lower (c ∷ s) = (if leb b'A' c && leb c b'Z' then c + 32 else c) ∷ to_lower s

-- `s.split(d)` for a one-character separator, with the part read so far.
unfoldable pub split_from : ℕ → Text → Text → List Text
split_from d cur [] = cur ∷ []
split_from d cur (c ∷ s) = elim (c == d) [
  | true ↦ cur ∷ split_from d [] s
  | false ↦ split_from d (cur ++ c ∷ []) s
]

unfoldable pub split : Text → ℕ → List Text
unfolding split_from
split s d = split_from d [] s

-- Whether `s` begins with `t`.
unfoldable pub is_prefix : Text → Text → Bool
is_prefix [] s = true
is_prefix (a ∷ t) [] = false
is_prefix (a ∷ t) (c ∷ s) = (a == c) && is_prefix t s

-- `s.includes(t)`
unfoldable pub includes : Text → Text → Bool
unfolding is_prefix
includes [] t = is_prefix t []
includes (c ∷ s) t = is_prefix t (c ∷ s) || includes s t

-- `s.replace(t, u)` at the first place where `t` occurs.
unfoldable pub replace_first : Text → Text → Text → Text
unfolding is_prefix
replace_first t u [] = []
replace_first t u (c ∷ s) =
    if is_prefix t (c ∷ s) then u ++ drop (length t) (c ∷ s) else c ∷ replace_first t u s

-- `xs.join(d)`
unfoldable pub join : Text → List Text → Text
join d [] = []
join d (s ∷ []) = s
join d (s ∷ t ∷ rest) = s ++ (d ++ join d (t ∷ rest))
