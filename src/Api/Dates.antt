-- ===== src/Api/Dates.antt =====
-- The date texts of a task as the server sends them, `normalizeTaskDates` and `normalizeApiDate` of
-- frontend/src/api/tasks.ts.
use mathlib.Core.Path.{subst}
use task_calendar.Base.{
  ℕ, Bool, true, false, ◌&&◌, ◌||◌, ◌≡◌, ◌≢◌, refl, sym, inl, inr, Bool-cases, Option, none, some,
  [], ◌∷◌, ◌++◌, any, All, leb, ◌==◌, or_else, if◌then◌else◌, arith,
}
use task_calendar.Base.Text.{Text, codes, is_empty, or_null}
use task_calendar.Task.{ScheduledTask}

abbrev is_digit : ℕ → Bool
is_digit c = leb b'0' c && leb c b'9'

-- `[+-]\d{2}:\d{2}$`
abbrev ends_with_offset : Text → Bool
ends_with_offset [] = false
ends_with_offset (c ∷ s) = is_offset (c ∷ s) || ends_with_offset s
  where
    is_offset : Text → Bool
    is_offset (sign ∷ a ∷ b ∷ colon ∷ x ∷ y ∷ []) =
        ((sign == b'+') || (sign == b'-'))
        && is_digit a
        && is_digit b
        && (colon == b':')
        && is_digit x
        && is_digit y
    is_offset _ = false

-- The test of the regular expression `[zZ]|[+-]\d{2}:\d{2}$`
unfoldable pub names_zone : Text → Bool
names_zone s = any (λ c. (c == b'z') || (c == b'Z')) s || ends_with_offset s

unfoldable pub normalize_api_date : Option Text → Option Text
unfolding names_zone
normalize_api_date none = none
normalize_api_date (some []) = none
normalize_api_date (some (c ∷ s)) =
    if names_zone (c ∷ s) then some (c ∷ s) else some ((c ∷ s) ++ codes "Z")

abbrev normalize_stamp : Text → Text
normalize_stamp value = or_else (normalize_api_date (some value)) value

unfoldable pub normalize_task_dates : ScheduledTask → ScheduledTask
unfolding normalize_api_date
normalize_task_dates task = record task {
  scheduled_start = normalize_api_date task.scheduled_start;
  scheduled_end = normalize_api_date task.scheduled_end;
  due_at = normalize_api_date task.due_at;
  created_at = normalize_stamp task.created_at;
  updated_at = normalize_stamp task.updated_at;
  completed_at = normalize_api_date task.completed_at;
  notification_sent_at = normalize_api_date task.notification_sent_at;
}

any-last : (p : ℕ → Bool) (s : Text) (c : ℕ) → p c ≡ true → any p (s ++ c ∷ []) ≡ true
any-last p [] c h = ground arith
any-last p (d ∷ s) c h = ground (arith, any-last p s c h)

names_zone-z : (s : Text) → names_zone (s ++ codes "Z") ≡ true
unfolding names_zone
names_zone-z s =
    let found = any-last (λ c. (c == b'z') || (c == b'Z')) s b'Z' refl in rw (found) refl

-- A date that is given, and is not an empty text, names its zone.
abbrev pub IsZoned : Option Text → Type 0
IsZoned none = Unit
IsZoned (some s) = names_zone s ≡ true

choice-IsZoned :
    (b : Bool) (s t : Text)
    → (b ≡ true → names_zone s ≡ true)
    → names_zone t ≡ true
    → IsZoned (if b then some s else some t)
choice-IsZoned true s t h k = h refl
choice-IsZoned false s t h k = k

normalize_api_date-IsZoned : (value : Option Text) → IsZoned (normalize_api_date value)
unfolding normalize_api_date
normalize_api_date-IsZoned none = tt
normalize_api_date-IsZoned (some []) = tt
normalize_api_date-IsZoned (some (c ∷ s)) =
    choice-IsZoned (names_zone (c ∷ s)) (c ∷ s) ((c ∷ s) ++ codes "Z") (λ e. e)
      (names_zone-z (c ∷ s))

zoned_kept :
    (value : Option Text) → value ≢ some [] → IsZoned value → normalize_api_date value ≡ value
unfolding normalize_api_date
zoned_kept none _ h = refl
zoned_kept (some []) empty h = absurd (empty refl)
zoned_kept (some (c ∷ s)) _ h = rw (h) refl

never_empty : (value : Option Text) → normalize_api_date value ≢ some []
unfolding normalize_api_date
never_empty none = ground arith
never_empty (some []) = ground arith
never_empty (some (c ∷ s)) = elim (Bool-cases (names_zone (c ∷ s))) [
  | inl named ↦ rw (named) ground arith
  | inr bare ↦ rw (bare) ground arith
]

date_twice :
    (value : Option Text) → normalize_api_date (normalize_api_date value) ≡ normalize_api_date value
date_twice value =
    zoned_kept (normalize_api_date value) (never_empty value) (normalize_api_date-IsZoned value)

stamp-IsZoned : (value : Text) → IsZoned (or_null (normalize_stamp value))
unfolding normalize_api_date
stamp-IsZoned [] = tt
stamp-IsZoned (c ∷ s) = elim (Bool-cases (names_zone (c ∷ s))) [
  | inl named ↦ subst (λ v. IsZoned (or_null v)) (sym (kept named)) named
  | inr bare ↦ subst (λ v. IsZoned (or_null v)) (sym (marked bare)) (names_zone-z (c ∷ s))
]
  where
    kept : names_zone (c ∷ s) ≡ true → normalize_stamp (c ∷ s) ≡ c ∷ s
    kept named = rw (named) refl

    marked : names_zone (c ∷ s) ≡ false → normalize_stamp (c ∷ s) ≡ (c ∷ s) ++ codes "Z"
    marked bare = rw (bare) refl

stamp_twice : (value : Text) → normalize_stamp (normalize_stamp value) ≡ normalize_stamp value
unfolding normalize_api_date
stamp_twice [] = refl
stamp_twice (c ∷ s) = elim (Bool-cases (names_zone (c ∷ s))) [
  | inl named ↦ rw (named, named) refl
  | inr bare ↦ rw (bare, names_zone-z (c ∷ s)) refl
]

stamp_empty : (value : Text) → is_empty (normalize_stamp value) ≡ is_empty value
unfolding normalize_api_date
stamp_empty [] = refl
stamp_empty (c ∷ s) = elim (Bool-cases (names_zone (c ∷ s))) [
  | inl named ↦ rw (named) refl
  | inr bare ↦ rw (bare) refl
]

-- Each date of a task that comes from the server names its time zone, or is null, and stays as it is
-- when it is normalized again; only the time of creation and of the last change may be an empty
-- text, which they were before.
pub normalize_task_dates-IsZoned :
    (task : ScheduledTask)
    → let result = normalize_task_dates task in
      All IsZoned (
        result.scheduled_start
        ∷ result.scheduled_end
        ∷ result.due_at
        ∷ result.completed_at
        ∷ result.notification_sent_at
        ∷ or_null result.created_at
        ∷ or_null result.updated_at
        ∷ [])
      × (normalize_task_dates result ≡ result)
      × ((is_empty result.created_at ≡ is_empty task.created_at)
          × (is_empty result.updated_at ≡ is_empty task.updated_at))
unfolding normalize_task_dates
normalize_task_dates-IsZoned task = (
  (
    normalize_api_date-IsZoned task.scheduled_start,
    (
      normalize_api_date-IsZoned task.scheduled_end,
      (
        normalize_api_date-IsZoned task.due_at,
        (
          normalize_api_date-IsZoned task.completed_at,
          (
            normalize_api_date-IsZoned task.notification_sent_at,
            (stamp-IsZoned task.created_at, (stamp-IsZoned task.updated_at, tt)),
          ),
        ),
      ),
    ),
  ),
  rw
      (
        date_twice task.scheduled_start,
        date_twice task.scheduled_end,
        date_twice task.due_at,
        date_twice task.completed_at,
        date_twice task.notification_sent_at,
        stamp_twice task.created_at,
        stamp_twice task.updated_at,
      )
      refl,
  (stamp_empty task.created_at, stamp_empty task.updated_at),
)
