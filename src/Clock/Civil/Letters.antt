-- ===== src/Clock/Civil/Letters.antt =====
-- The characters of `toISOString`.
use task_calendar.Base.{
  ℕ, suc, ◌+◌, ◌-◌, [], ◌∷◌, ◌++◌, All, All-append, All-map, ltb, Bool-cases, inl, inr, ◌≡◌, ◌≢◌,
  refl, ◌≤◌, ◌<◌, true, false, arith,
}
use task_calendar.Base.Int.{ℤ}
use task_calendar.Base.Text.{Text}
use task_calendar.Base.Text.Decimal.{
  Digit, is_digit, show, pad2, digits_of-Digit, append-ne-nil, scan_digits, scan-show,
}
use task_calendar.Clock.Civil.{
  Fields, first_year, pad3, pad4, pad6, iso_year, iso_date, fields_of, to_iso,
}

pub show-Digit : (n : ℕ) → All Digit (show n)
unfolding show
show-Digit n = digits_of-Digit (suc n) n

zero-Digit : Digit b'0'
unfolding is_digit
zero-Digit = refl

pub pad2-Digit : (n : ℕ) → All Digit (pad2 n)
pad2-Digit n = elim (Bool-cases (ltb n 10)) [
  | inl small ↦ unfold pad2 in rw (small, pad2) (zero-Digit, show-Digit n)
  | inr large ↦ unfold pad2 in rw (large, pad2) (show-Digit n)
]

-- A padded number reads as the number.
pub scan-pad2 : (n : ℕ) → scan_digits 0 (pad2 n) ≡ n
scan-pad2 n = elim (Bool-cases (ltb n 10)) [
  | inl small ↦ unfold pad2 scan_digits is_digit in rw (small, pad2) (scan-show n)
  | inr large ↦ unfold pad2 in rw (large, pad2) (scan-show n)
]

scan-pad3 : (n : ℕ) → scan_digits 0 (pad3 n) ≡ n
unfolding pad3
scan-pad3 n = elim (Bool-cases (ltb n 100)) [
  | inl small ↦ rw (small, pad3) (unfold scan_digits is_digit in scan-pad2 n)
  | inr large ↦ rw (large, pad3) (scan-show n)
]

scan-pad4 : (n : ℕ) → scan_digits 0 (pad4 n) ≡ n
scan-pad4 n = elim (Bool-cases (ltb n 1000)) [
  | inl small ↦ unfold pad4 scan_digits is_digit in rw (small, pad4) (scan-pad3 n)
  | inr large ↦ unfold pad4 in rw (large, pad4) (scan-show n)
]

pad3-Digit : (n : ℕ) → All Digit (pad3 n)
unfolding pad3
pad3-Digit n = elim (Bool-cases (ltb n 100)) [
  | inl small ↦ rw (small, pad3) (zero-Digit, pad2-Digit n)
  | inr large ↦ rw (large, pad3) (show-Digit n)
]

pad4-Digit : (n : ℕ) → All Digit (pad4 n)
pad4-Digit n = elim (Bool-cases (ltb n 1000)) [
  | inl small ↦ unfold pad4 in rw (small, pad4) (zero-Digit, pad3-Digit n)
  | inr large ↦ unfold pad4 in rw (large, pad4) (show-Digit n)
]

pad6-Digit : (n : ℕ) → All Digit (pad6 n)
pad6-Digit n = elim (Bool-cases (ltb n 10000)) [
  | inl small ↦ unfold pad6 in rw (small, pad6) (zero-Digit, (zero-Digit, pad4-Digit n))
  | inr large ↦ elim (Bool-cases (ltb n 100000)) [
    | inl middle ↦ unfold pad6 in rw (large, pad6) (rw (middle, pad6) (zero-Digit, show-Digit n))
    | inr huge ↦ unfold pad6 in rw (large, pad6) (rw (huge, pad6) (show-Digit n))
  ]
]

-- A year of 0 to 9999 has the digits of its number.
pub iso_year-digits :
    (y : ℕ)
    → first_year ≤ y
    → y < first_year + 10000
    → All Digit (iso_year y) × (scan_digits 0 (iso_year y) ≡ y - first_year)
unfolding iso_year
iso_year-digits y h k =
    let later : ltb y first_year ≡ false = ground arith in
    let usual : ltb y (first_year + 10000) ≡ true = ground arith in
    rw (later, usual) (pad4-Digit (y - first_year), scan-pad4 (y - first_year))

module _ (P : ℕ → Type 0) (digit : (c : ℕ) → Digit c → P c) (dash : P b'-') (plus : P b'+') where
  iso_year-All : (y : ℕ) → All P (iso_year y)
  iso_year-All y = elim (Bool-cases (ltb y first_year)) [
    | inl early ↦
        unfold iso_year in
        rw (early, iso_year) (dash, All-map digit _ (pad6-Digit (first_year - y)))
    | inr later ↦ elim (Bool-cases (ltb y (first_year + 10000))) [
      | inl usual ↦
          unfold iso_year in
          rw (later, iso_year)
            (rw (usual, iso_year) (All-map digit _ (pad4-Digit (y - first_year))))
      | inr far ↦
          unfold iso_year in
          rw (later, iso_year)
            (rw (far, iso_year) (plus, All-map digit _ (pad6-Digit (y - first_year))))
    ]
  ]

  two_digits : (n : ℕ) → All P (pad2 n)
  two_digits n = All-map digit _ (pad2-Digit n)

  beside : (xs : Text) (c : ℕ) (ys : Text) → All P xs → P c → All P ys → All P (xs ++ c ∷ ys)
  beside xs c ys h m k = All-append P xs (c ∷ ys) h (m, k)

  iso_date-All : (p : Fields) → All P (iso_date p)
  unfolding iso_date
  iso_date-All p =
      beside _ (b'-') (pad2 p.day)
        (beside _ (b'-') (pad2 p.month) (iso_year-All p.year) dash (two_digits p.month)) dash
        (two_digits p.day)

  -- A predicate of the digits and of the marks of an ISO text holds of all its characters.
  pub to_iso-All : P b'T' → P b':' → P b'.' → P b'Z' → (t : ℤ) → All P (to_iso t)
  unfolding to_iso
  to_iso-All t_mark colon dot z_mark t =
      let p = fields_of t in
      beside _ (b'Z') []
        (beside _ (b'.') (pad3 p.milli)
          (beside _ (b':') (pad2 p.second)
            (beside _ (b':') (pad2 p.minute)
              (beside _ (b'T') (pad2 p.hour) (iso_date-All p) t_mark (two_digits p.hour)) colon
              (two_digits p.minute))
            colon (two_digits p.second))
          dot (All-map digit _ (pad3-Digit p.milli)))
        z_mark tt

-- An ISO text is not empty.
pub to_iso-ne-nil : (t : ℤ) → to_iso t ≢ []
unfolding to_iso
to_iso-ne-nil t = append-ne-nil _ (b'Z')
