-- ===== src/Base/Text/Decimal.antt =====
-- Decimal text: `String(n)`, `parseInt(s, 10)` and `padStart(2, "0")`. Numbers are exact here; a
-- JavaScript number is exact up to 2 ^ 53.
use Prim.Native.Nat.{ℕ, zero, suc, ◌+◌, ◌-◌, ◌*◌, ◌/◌, ◌%◌, ◌<◌}
use mathlib.Core.Path.{◌≡◌, refl, ap, ◌≡⟨◌⟩◌, ◌∎}
use mathlib.Core.Bool.{Bool, true, false, ◌&&◌}
use mathlib.Core.List.{[], ◌∷◌, ◌++◌}
use mathlib.Core.Logic.{inl, inr, ◌≢◌}
use mathlib.Core.Option.{Option, none, some}
use native.Mathlib.Omega.{arith}
use task_calendar.Base.Int.{ℤ, pos, negsuc}
use task_calendar.Base.Lists.{All, All-append}
use task_calendar.Base.Tests.{ltb, leb, ◌==◌, if◌then◌else◌, Bool-cases}
use task_calendar.Base.Text.{Text, trim_start, is_space}

unfoldable pub is_digit : ℕ → Bool
is_digit c = leb b'0' c && leb c b'9'

-- The digits of `n`, for fuel above `n`.
pub digits_of : ℕ → ℕ → Text
digits_of zero n = []
digits_of (suc fuel) n = elim (ltb n 10) [
  | true ↦ (b'0' + n) ∷ []
  | false ↦ digits_of fuel (n / 10) ++ (b'0' + n % 10) ∷ []
]

-- `String(n)` for a natural number.
unfoldable pub show : ℕ → Text
unfolding digits_of
show n = digits_of (suc n) n

-- The number that the leading digits make, and whether there is one.
unfoldable pub scan_digits : ℕ → Text → ℕ
unfolding is_digit
scan_digits acc [] = acc
scan_digits acc (c ∷ s) = elim (is_digit c) [
  | true ↦ scan_digits (acc * 10 + (c - b'0')) s
  | false ↦ acc
]

unsigned : Text → Option ℕ
unfolding scan_digits is_digit
unsigned [] = none
unsigned (c ∷ s) = if is_digit c then some (scan_digits 0 (c ∷ s)) else none

abbrev negate : Option ℕ → Option ℤ
negate none = none
negate (some zero) = some (pos 0)
negate (some (suc n)) = some (negsuc n)

abbrev positive : Option ℕ → Option ℤ
positive none = none
positive (some n) = some (pos n)

signed : Text → Option ℤ
unfolding unsigned
signed [] = none
signed (c ∷ s) =
    if c == b'-'
    then negate (unsigned s)
    else if c == b'+'
    then positive (unsigned s)
    else positive (unsigned (c ∷ s))

-- `Number.parseInt(s, 10)`; `none` is NaN.
unfoldable pub parse_int : Text → Option ℤ
unfolding signed trim_start
parse_int s = signed (trim_start s)

abbrev pub Digit : ℕ → Type 0
Digit c = is_digit c ≡ true

scan-append :
    (acc : ℕ) (s : Text) (c : ℕ)
    → All Digit s
    → Digit c
    → scan_digits acc (s ++ c ∷ []) ≡ scan_digits acc s * 10 + (c - b'0')
unfolding scan_digits
scan-append acc [] c _ d = rw (d, scan_digits)
scan-append acc (x ∷ s) c (h, k) d =
    rw (h, scan_digits) (scan-append (acc * 10 + (x - b'0')) s c k d)

Digit-Digit : (n : ℕ) → n < 10 → Digit (b'0' + n)
unfolding is_digit
Digit-Digit n h = ground arith

pub digits_of-Digit : (fuel n : ℕ) → All Digit (digits_of fuel n)
unfolding digits_of
digits_of-Digit zero n = tt
digits_of-Digit (suc fuel) n = elim (Bool-cases (ltb n 10)) [
  | inl small ↦ rw (small, digits_of) (Digit-Digit n (ground arith), tt)
  | inr large ↦
      rw (large, digits_of)
        (All-append Digit _ _ (digits_of-Digit fuel (n / 10))
          (Digit-Digit (n % 10) (omega arith), tt))
]

scan-digits_of : (fuel n : ℕ) → n < fuel → scan_digits 0 (digits_of fuel n) ≡ n
unfolding digits_of
scan-digits_of zero n h = absurd (omega arith)
scan-digits_of (suc fuel) n h = elim (Bool-cases (ltb n 10)) [
  | inl small ↦
      rw (small, digits_of)
        (unfold scan_digits in rw (Digit-Digit n (ground arith), scan_digits) (omega arith))
  | inr large ↦
      rw (large, digits_of)
        (omega (
          arith,
          scan-append 0 (digits_of fuel (n / 10)) (b'0' + n % 10) (digits_of-Digit fuel (n / 10))
              (Digit-Digit (n % 10) (omega arith)),
          scan-digits_of fuel (n / 10) (ground arith),
        ))
]

parse_int_digits : (s : Text) → All Digit s → s ≢ [] → parse_int s ≡ some (pos (scan_digits 0 s))
unfolding parse_int is_space is_digit
parse_int_digits [] h ne = absurd (ne refl)
parse_int_digits (c ∷ s) (d, h) ne = ground arith

pub append-ne-nil : (s : Text) (c : ℕ) → s ++ c ∷ [] ≢ []
append-ne-nil [] c = λ e. cc
append-ne-nil (x ∷ s) c = λ e. cc

show-ne-nil : (n : ℕ) → show n ≢ []
unfolding show
show-ne-nil n = elim (Bool-cases (ltb n 10)) [
  | inl small ↦ rw (small, digits_of) (λ e. cc)
  | inr large ↦ rw (large, digits_of) (append-ne-nil _ _)
]

-- The digits of a printed number make the number.
pub scan-show : (n : ℕ) → scan_digits 0 (show n) ≡ n
unfolding show
scan-show n = scan-digits_of (suc n) n (omega arith)

-- Reading a printed number gives it back.
pub parse_int-show : (n : ℕ) → parse_int (show n) ≡ some (pos n)
unfolding show
parse_int-show n =
    parse_int (show n)
    ≡⟨ parse_int_digits (show n) (digits_of-Digit (suc n) n) (show-ne-nil n) ⟩
      some (pos (scan_digits 0 (show n)))
    ≡⟨ ap (λ k. some (pos k)) (scan-digits_of (suc n) n (omega arith)) ⟩ some (pos n) ∎

-- `padStart(2, "0")` of a printed number.
unfoldable pub pad2 : ℕ → Text
pad2 n = if ltb n 10 then b'0' ∷ show n else show n
