-- ===== src/Swipes/Taps.antt =====
-- A swipe that turns the page makes no task.
use task_calendar.Base.{
  ◌*◌, ◌≤◌, ◌<◌, Bool, true, false, not, ◌||◌, Option, none, some, List, ◌∷◌, ◌≡◌, refl, ◌⊎◌, inl,
  inr, ap, some_inj, arith, Bool-cases, Option-cases,
}
use task_calendar.Base.Int.{ℤ, ◌-ℤ◌}
use task_calendar.Swipes.{
  Direction, CalendarSwipeState, Gestures, abs, is_horizontal_calendar_swipe_intent, navigation,
  navigated, suppressed, ended, ended_at, handle_calendar_touch_end,
  should_suppress_calendar_create_from_tap, schedule_calendar_tap_suppress_reset,
  mark_calendar_swipe_intent, swipe_threshold, tap_suppress_threshold,
}

-- The touch went far enough, and more to the side than up or down.
abbrev pub IsSwipe : ℤ → ℤ → Type 0
IsSwipe delta_x delta_y = (swipe_threshold ≤ abs delta_x) × (6 * abs delta_y < 5 * abs delta_x)

navigation-IsSwipe : (x y : ℤ) (d : Direction) → navigation x y ≡ some d → IsSwipe x y
unfolding navigation
navigation-IsSwipe x y d h = ground arith

-- A page is turned only for a touch that also counts as a swipe for taps.
intent-of-navigation :
    (swipe : CalendarSwipeState) (x y : ℤ)
    → IsSwipe (x -ℤ swipe.start_x) (y -ℤ swipe.start_y)
    → is_horizontal_calendar_swipe_intent swipe.start_x swipe.start_y x y tap_suppress_threshold
      ≡ true
unfolding is_horizontal_calendar_swipe_intent
intent-of-navigation swipe x y (far, sideways) = ground arith

-- The tap after it is held back, and the one after that is not.
abbrev pub HoldsOneTap : Gestures → Type 0
HoldsOneTap g =
    ((should_suppress_calendar_create_from_tap g).1 ≡ true)
    × ((should_suppress_calendar_create_from_tap (should_suppress_calendar_create_from_tap g).0).1
        ≡ false)

holds : (g : Gestures) → g.is_enabled ≡ true → g.suppresses_next_tap ≡ true → HoldsOneTap g
unfolding should_suppress_calendar_create_from_tap schedule_calendar_tap_suppress_reset
holds g e s = rw (e, s) (refl, refl)

-- A touch that ended at a place turned the page.
abbrev pub Turns : CalendarSwipeState → ℤ → ℤ → List Direction → Gestures → Type 0
Turns swipe x y before after =
    (d : Direction) × (after.shown ≡ d ∷ before)
    × (navigation (x -ℤ swipe.start_x) (y -ℤ swipe.start_y) ≡ some d)
    × IsSwipe (x -ℤ swipe.start_x) (y -ℤ swipe.start_y)
    × HoldsOneTap after

abbrev pub TurnsAt : Option CalendarSwipeState → Option (ℤ × ℤ) → List Direction → Gestures → Type 0
TurnsAt none touch before after = ⊥
TurnsAt (some swipe) none before after = ⊥
TurnsAt (some swipe) (some (x, y)) before after = Turns swipe x y before after

suppressed-shown : (b : Bool) (g : Gestures) → (suppressed b g).shown ≡ g.shown
unfolding mark_calendar_swipe_intent schedule_calendar_tap_suppress_reset
suppressed-shown true g = refl
suppressed-shown false g = refl

stays :
    (o : Option Direction) (b : Bool) (g : Gestures)
    → o ≡ none
    → (navigated o (suppressed b g)).shown ≡ g.shown
stays none b g h = suppressed-shown b g
stays (some d) b g h = absurd (ground (arith, h))

turned :
    (o : Option Direction) (b : Bool) (g : Gestures) (d : Direction)
    → g.is_enabled ≡ true
    → b ≡ true
    → o ≡ some d
    → ((navigated o (suppressed b g)).shown ≡ d ∷ g.shown)
      × HoldsOneTap (navigated o (suppressed b g))
unfolding mark_calendar_swipe_intent schedule_calendar_tap_suppress_reset
turned none b g d e k h = absurd (ground (arith, h))
turned (some d2) false g d e k h = absurd (ground (arith, k))
turned (some d2) true g d e k h =
    (ap (λ x. x ∷ g.shown) (some_inj h), holds (navigated (some d2) (suppressed true g)) e refl)

or_true : (a b : Bool) → b ≡ true → (a || b) ≡ true
or_true a b h = ground arith

ended_lem :
    (swipe : CalendarSwipeState) (x y : ℤ) (g : Gestures)
    → g.is_enabled ≡ true
    → ((ended swipe x y g).shown ≡ g.shown) ⊎ Turns swipe x y g.shown (ended swipe x y g)
ended_lem swipe x y g e =
    elim (Option-cases (navigation (x -ℤ swipe.start_x) (y -ℤ swipe.start_y))) [
      | inl h ↦ inl (stays _ _ g h)
      | inr (d, h) ↦
          let far = navigation-IsSwipe _ _ d h in
          let intent = or_true swipe.is_horizontal_swipe _ (intent-of-navigation swipe x y far) in
          let result = turned _ _ g d e intent h in inr (d, result.0, h, far, result.1)
    ]

ended_at_lem :
    (swipe : Option CalendarSwipeState) (touch : Option (ℤ × ℤ)) (g : Gestures)
    → ((ended_at swipe touch g).shown ≡ g.shown)
      ⊎ TurnsAt swipe touch g.shown (ended_at swipe touch g)
ended_at_lem none touch g = inl refl
ended_at_lem (some swipe) none g = inl refl
ended_at_lem (some swipe) (some (x, y)) g = elim (Bool-cases (not g.is_enabled || swipe.blocked)) [
  | inl ignored ↦ rw ignored (inl refl)
  | inr heard ↦ rw heard (ended_lem swipe x y g (ground arith))
]

-- The end of a touch leaves the shown page, or turns it for a touch that went sixty pixels or more,
-- more to the side than up or down, and then the next tap makes no task, and only the next one, when
-- it comes before the timer runs out.
pub touch_end-Turns :
    (touch : Option (ℤ × ℤ)) (g : Gestures)
    → ((handle_calendar_touch_end touch g).shown ≡ g.shown)
      ⊎ TurnsAt g.swipe touch g.shown (handle_calendar_touch_end touch g)
unfolding handle_calendar_touch_end
touch_end-Turns touch g = ended_at_lem g.swipe touch (record g { swipe = none })
