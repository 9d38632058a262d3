-- ===== src/Recurrence/RoundTrip.antt =====
-- Reading the rule that the form writes.
use task_calendar.Base.{
  ℕ, zero, suc, true, Option, some, [], ◌∷◌, ◌++◌, All, All-map, ◌≡◌, ◌≢◌, refl, arith, Bool-cases,
  Option-cases, inl, inr,
}
use task_calendar.Base.Text.{
  Text, codes, split, split_from, to_upper, trim, text_eq, join, replace_first,
}
use task_calendar.Base.Text.Decimal.{show}
use task_calendar.Clock.Keys.{end_of_local_date_to_iso, to_date_input_value}
use task_calendar.Clock.{◌>>=◌, zoned_date_time_to_iso}
use task_calendar.Clock.Civil.{to_iso}
use task_calendar.Input.{parse_positive_integer_or_zero}
use task_calendar.Platform.{Platform}
use task_calendar.Recurrence.{
  RecurrenceState, ParsedRule, frequency_text, repeats, build_rule, rule_parts,
  parse_recurrence_rule, build_recurrence_rule,
}
use task_calendar.Recurrence.Texts.{
  Plain, split_from_part, split_from_lacking, trim-Plain, show-Plain, end_of_second-Plain,
  end_of_second-ne-nil,
}
use task_calendar.Task.{RecurrenceFrequency}

-- A value of a rule, taken apart again.
value_part : (v : Text) → All Plain v → trim v ≡ v
value_part v h = trim-Plain v h

no_separator : (v : Text) → All Plain v → All (λ c. c ≢ b';') v
no_separator v h = All-map (λ c p. p.0) v h

no_equals : (v : Text) → All Plain v → All (λ c. c ≢ b'=') v
no_equals v h = All-map (λ c p. p.1) v h

-- The parts of a rule without an end.
rule_parts_endless :
    (f : RecurrenceFrequency) (v : Text)
    → repeats f ≡ true
    → All Plain v
    → rule_parts (codes "FREQ=" ++ frequency_text f ++ b';' ∷ codes "INTERVAL=" ++ v)
      ≡ (codes "FREQ", frequency_text f) ∷ (codes "INTERVAL", v) ∷ []
unfolding rule_parts split split_from trim to_upper
rule_parts_endless RecurrenceFrequency.never v r h = cc
rule_parts_endless RecurrenceFrequency.daily v r h = rw (
  split_from_lacking b';' (codes "INTERVAL=") v (no_separator v h),
  split_from_lacking b'=' [] v (no_equals v h),
  trim-Plain v h,
)
rule_parts_endless _ v r h = rw (
  split_from_lacking b';' (codes "INTERVAL=") v (no_separator v h),
  split_from_lacking b'=' [] v (no_equals v h),
  trim-Plain v h,
)

-- The parts of a rule with an end.
rule_parts_until :
    (f : RecurrenceFrequency) (v u : Text)
    → repeats f ≡ true
    → All Plain v
    → All Plain u
    → rule_parts (
        codes "FREQ="
        ++ (frequency_text f ++ b';' ∷ (codes "INTERVAL=" ++ (v ++ b';' ∷ (codes "UNTIL=" ++ u)))))
      ≡ (codes "FREQ", frequency_text f) ∷ (codes "INTERVAL", v) ∷ (codes "UNTIL", u) ∷ []
unfolding rule_parts split split_from trim to_upper
rule_parts_until RecurrenceFrequency.never v u r h k = cc
rule_parts_until RecurrenceFrequency.daily v u r h k = rw (
  split_from_part b';' (codes "INTERVAL=") v (codes "UNTIL=" ++ u) (no_separator v h),
  split_from_lacking b';' (codes "UNTIL=") u (no_separator u k),
  split_from_lacking b'=' [] v (no_equals v h),
  split_from_lacking b'=' [] u (no_equals u k),
  trim-Plain v h,
  trim-Plain u k,
)
rule_parts_until _ v u r h k = rw (
  split_from_part b';' (codes "INTERVAL=") v (codes "UNTIL=" ++ u) (no_separator v h),
  split_from_lacking b';' (codes "UNTIL=") u (no_separator u k),
  split_from_lacking b'=' [] v (no_equals v h),
  split_from_lacking b'=' [] u (no_equals u k),
  trim-Plain v h,
  trim-Plain u k,
)

some_text : {s t : Text} → some (some s) ≡ some (some t) → s ≡ t
some_text e = cc

module _ (p : Platform) where
  read_endless :
      (f : RecurrenceFrequency) (n : ℕ) (timezone : Text)
      → repeats f ≡ true
      → parse_recurrence_rule p
          (some (
            join
              (codes ";")
              ((codes "FREQ=" ++ frequency_text f) ∷ (codes "INTERVAL=" ++ show n) ∷ [])))
          timezone
        ≡ some (record { frequency = frequency_text f; interval = show n; until = [] })
  unfolding parse_recurrence_rule join text_eq
  read_endless RecurrenceFrequency.never n timezone r = cc
  read_endless RecurrenceFrequency.daily n timezone r =
      rw (rule_parts_endless RecurrenceFrequency.daily (show n) r (show-Plain n))
  read_endless RecurrenceFrequency.weekly n timezone r =
      rw (rule_parts_endless RecurrenceFrequency.weekly (show n) r (show-Plain n))
  read_endless RecurrenceFrequency.monthly n timezone r =
      rw (rule_parts_endless RecurrenceFrequency.monthly (show n) r (show-Plain n))
  read_endless RecurrenceFrequency.yearly n timezone r =
      rw (rule_parts_endless RecurrenceFrequency.yearly (show n) r (show-Plain n))

  -- What reading a rule with the end `u` answers: an end that is no date is an exception.
  abbrev pub with_end : Text → ℕ → Text → Text → Option ParsedRule
  with_end frequency n u timezone = do
    until ← to_date_input_value p u timezone
    some (record { frequency = frequency; interval = show n; until = until })

  read_until :
      (f : RecurrenceFrequency) (n c : ℕ) (v timezone : Text)
      → repeats f ≡ true
      → All Plain (c ∷ v)
      → parse_recurrence_rule p
          (some (
            join (codes ";") (
              (codes "FREQ=" ++ frequency_text f)
              ∷ (codes "INTERVAL=" ++ show n)
              ∷ (codes "UNTIL=" ++ (c ∷ v))
              ∷ [])))
          timezone
        ≡ with_end (frequency_text f) n (c ∷ v) timezone
  unfolding parse_recurrence_rule join text_eq
  read_until RecurrenceFrequency.never n c v timezone r k = cc
  read_until RecurrenceFrequency.daily n c v timezone r k =
      rw (rule_parts_until RecurrenceFrequency.daily (show n) (c ∷ v) r (show-Plain n) k)
  read_until RecurrenceFrequency.weekly n c v timezone r k =
      rw (rule_parts_until RecurrenceFrequency.weekly (show n) (c ∷ v) r (show-Plain n) k)
  read_until RecurrenceFrequency.monthly n c v timezone r k =
      rw (rule_parts_until RecurrenceFrequency.monthly (show n) (c ∷ v) r (show-Plain n) k)
  read_until RecurrenceFrequency.yearly n c v timezone r k =
      rw (rule_parts_until RecurrenceFrequency.yearly (show n) (c ∷ v) r (show-Plain n) k)

  -- What is read from a rule that the form has written.
  abbrev pub read_back : RecurrenceFrequency → ℕ → Text → Text → Option ParsedRule
  read_back f n [] timezone =
      some (record { frequency = frequency_text f; interval = show n; until = [] })
  read_back f n (c ∷ s) timezone = do
    iso ← end_of_local_date_to_iso p (c ∷ s) timezone
    with_end (frequency_text f) n iso timezone

  read_iso :
      (f : RecurrenceFrequency) (n : ℕ) (u timezone : Text)
      → repeats f ≡ true
      → All Plain u
      → u ≢ []
      → parse_recurrence_rule p
          (some (
            join (codes ";") (
              (codes "FREQ=" ++ frequency_text f)
              ∷ (codes "INTERVAL=" ++ show n)
              ∷ (codes "UNTIL=" ++ u)
              ∷ [])))
          timezone
        ≡ with_end (frequency_text f) n u timezone
  read_iso f n [] timezone r k ne = absurd (ne refl)
  read_iso f n (c ∷ v) timezone r k ne = read_until f n c v timezone r k

  end_text :
      (until timezone : Text) {iso : Text}
      → end_of_local_date_to_iso p until timezone ≡ some iso
      → All Plain iso × (iso ≢ [])
  unfolding end_of_local_date_to_iso
  end_text until timezone {iso} h =
      elim (Option-cases (zoned_date_time_to_iso p.offset (until ++ codes "T23:59:59") timezone)) [
        | inl missing ↦ absurd (ground (arith, missing))
        | inr (made, at) ↦ elim (Option-cases (p.parse_date made)) [
          | inl invalid ↦ absurd (ground (arith, at, invalid))
          | inr (t, read) ↦
              let e : replace_first (codes ".000Z") (codes ".999Z") (to_iso t) ≡ iso =
                ground (arith, at, read) in
              rw (← e) (end_of_second-Plain t, end_of_second-ne-nil t)
        ]
      ]

  read_built :
      (f : RecurrenceFrequency) (n : ℕ) (until timezone : Text) {rule : Text}
      → repeats f ≡ true
      → build_rule p f n until timezone ≡ some (some rule)
      → parse_recurrence_rule p (some rule) timezone ≡ read_back f n until timezone
  read_built f zero until timezone r h = absurd (cc)
  read_built f (suc n) [] timezone r h = rw (← some_text h) (read_endless f (suc n) timezone r)
  read_built f (suc n) (c ∷ s) timezone r h =
      elim (Option-cases (end_of_local_date_to_iso p (c ∷ s) timezone)) [
        | inl missing ↦ absurd (ground (arith, missing))
        | inr (iso, found) ↦
            let (plain, ne) = end_text (c ∷ s) timezone found in
            let built = some_text (rw found at h) in
            rw (← built, found) (read_iso f (suc n) iso timezone r plain ne)
      ]

  -- A rule that the form writes reads back as the form's frequency, its interval as a number, and
  -- the day of its end, if it has one.
  pub parse-build :
      (state : RecurrenceState) (timezone : Text) {rule : Text}
      → build_recurrence_rule p state timezone ≡ some (some rule)
      → parse_recurrence_rule p (some rule) timezone
        ≡ read_back state.recurrence_frequency
            (parse_positive_integer_or_zero state.recurrence_interval)
            state.recurrence_until
            timezone
  unfolding build_recurrence_rule
  parse-build state timezone h = elim (Bool-cases (repeats state.recurrence_frequency)) [
    | inl some_rule ↦
        read_built state.recurrence_frequency
          (parse_positive_integer_or_zero state.recurrence_interval) state.recurrence_until timezone
          some_rule (ground (arith, some_rule))
    | inr no_rule ↦ absurd (ground (arith, no_rule))
  ]
