-- ===== src/Clock/Zoned.antt =====
-- `zonedDateTimeToIso`: two rounds find the instant of a wall clock, also beside a change of the
-- zone's offset.
use task_calendar.Base.{◌≤◌, ◌≡◌, ap, ◌⊎◌, inl, inr, arith}
use task_calendar.Base.Int.{ℤ, pos, negsuc, pos_part, neg_part, ◌+ℤ◌, ◌-ℤ◌, ◌≤ℤ◌, ◌<ℤ◌, int_laws}
use task_calendar.Base.Text.{Text}
use task_calendar.Clock.{wall, get_timezone_offset_milliseconds, zoned_ms}
use task_calendar.Clock.Civil.Instants.{IsModern, IsSeconds, utc_ms-fields_of}

-- Equal integers, as an equation of numbers for each part.
abbrev Same : ℤ → ℤ → Type 0
Same a b = (pos_part a ≡ pos_part b) × (neg_part a ≡ neg_part b)

abbrev pub two_days : ℤ
two_days = pos 172800000

-- About an instant `w` the offset changes at most once, at the instant `change`, from `old` to
-- `new`, and no offset is more than a day.
pub record OneChange (offset : ℤ → ℤ) (w change old new : ℤ) : Type 0 where
  pub before : (t : ℤ) → w -ℤ two_days ≤ℤ t → t <ℤ change → Same (offset t) old
  pub after : (t : ℤ) → change ≤ℤ t → t ≤ℤ w +ℤ two_days → Same (offset t) new
  pub old_small : (pos_part old ≤ 86400000) × (neg_part old ≤ 86400000)
  pub new_small : (pos_part new ≤ 86400000) × (neg_part new ≤ 86400000)

lt_or_le : (a b : ℤ) → (a <ℤ b) ⊎ (b ≤ℤ a)
lt_or_le a b = omega arith

module _ (offset : ℤ → ℤ) (w change old new : ℤ) (h : OneChange offset w change old new) where
  side :
      (t : ℤ)
      → w -ℤ two_days ≤ℤ t
      → t ≤ℤ w +ℤ two_days
      → ((t <ℤ change) × Same (offset t) old) ⊎ ((change ≤ℤ t) × Same (offset t) new)
  side t lo hi = elim (lt_or_le t change) [
    | inl early ↦ inl (early, h.before t lo early)
    | inr late ↦ inr (late, h.after t late hi)
  ]

  two_rounds :
      (t : ℤ)
      → w -ℤ two_days ≤ℤ t
      → t ≤ℤ w +ℤ two_days
      → t +ℤ offset t ≡ w
      → (w -ℤ offset (w -ℤ offset w)) +ℤ offset (w -ℤ offset (w -ℤ offset w)) ≡ w
  two_rounds t lo hi e =
      let u : ℤ = w -ℤ offset w in
      let v : ℤ = w -ℤ offset u in
      let at_w = side w (omega int_laws) (omega int_laws) in
      let at_u =
        side u (omega (int_laws, at_w, h.old_small, h.new_small))
          (omega (int_laws, at_w, h.old_small, h.new_small)) in
      let at_v =
        side v (omega (int_laws, at_u, h.old_small, h.new_small))
          (omega (int_laws, at_u, h.old_small, h.new_small)) in
      let at_t = side t lo hi in
      omega (int_laws, at_w, at_u, at_v, at_t, ap pos_part e, ap neg_part e)

  -- A wall clock that the zone skips: the result is off by the length of the gap.
  two_rounds_gap :
      change +ℤ old ≤ℤ w
      → w <ℤ change +ℤ new
      → (change ≤ℤ w
          → (w -ℤ offset (w -ℤ offset w)) +ℤ offset (w -ℤ offset (w -ℤ offset w))
            ≡ w +ℤ (new -ℤ old))
        × (w <ℤ change
            → (w -ℤ offset (w -ℤ offset w)) +ℤ offset (w -ℤ offset (w -ℤ offset w))
              ≡ w -ℤ (new -ℤ old))
  two_rounds_gap lo hi =
      let u : ℤ = w -ℤ offset w in
      let v : ℤ = w -ℤ offset u in
      let at_w = side w (omega int_laws) (omega int_laws) in
      let at_u =
        side u (omega (int_laws, at_w, h.old_small, h.new_small))
          (omega (int_laws, at_w, h.old_small, h.new_small)) in
      let at_v =
        side v (omega (int_laws, at_u, h.old_small, h.new_small))
          (omega (int_laws, at_u, h.old_small, h.new_small)) in
      (λ late. omega (int_laws, at_w, at_u, at_v), λ early. omega (int_laws, at_w, at_u, at_v))

IsSeconds-sub : (a b : ℤ) → IsSeconds a → IsSeconds b → IsSeconds (a -ℤ b)
unfolding ◌-ℤ◌
IsSeconds-sub (pos a) (pos b) h k = ground arith
IsSeconds-sub (pos a) (negsuc b) h k = ground arith
IsSeconds-sub (negsuc a) (pos b) h k = ground arith
IsSeconds-sub (negsuc a) (negsuc b) h k = ground arith

IsSeconds-add : (a b : ℤ) → IsSeconds a → IsSeconds b → IsSeconds (a +ℤ b)
unfolding ◌+ℤ◌
IsSeconds-add (pos a) (pos b) h k = ground arith
IsSeconds-add (pos a) (negsuc b) h k = ground arith
IsSeconds-add (negsuc a) (pos b) h k = ground arith
IsSeconds-add (negsuc a) (negsuc b) h k = ground arith

-- What is asked of a zone and a wall clock `w`: offsets of whole seconds, `w` a whole second of
-- 1600 or later, and at most one change of the offset about it.
pub record IsRegular (offset : Text → ℤ → ℤ) (timezone : Text) (w change old new : ℤ) : Type 0 where
  pub changes_once : OneChange (offset timezone) w change old new
  pub offset_seconds : (t : ℤ) → IsSeconds (offset timezone t)
  pub seconds : IsSeconds w
  pub modern : IsModern (w -ℤ pos 259200000)

module _ (offset : Text → ℤ → ℤ) (timezone : Text) where
  -- The difference that the source computes is the zone's offset.
  offset_lem :
      (t : ℤ)
      → IsModern (wall offset timezone t)
      → IsSeconds t
      → IsSeconds (offset timezone t)
      → get_timezone_offset_milliseconds offset t timezone ≡ offset timezone t
  unfolding get_timezone_offset_milliseconds
  offset_lem t m s o =
      rw (utc_ms-fields_of (t +ℤ offset timezone t) m (IsSeconds-add t (offset timezone t) s o))
        (omega int_laws)

  module _ (w change old new : ℤ) (h : IsRegular offset timezone w change old new) where
    zoned_ms-eq : zoned_ms offset w timezone ≡ w -ℤ offset timezone (w -ℤ offset timezone w)
    unfolding zoned_ms
    zoned_ms-eq =
        let c = h.changes_once in
        let u : ℤ = w -ℤ offset timezone w in
        let at_w = side (offset timezone) w change old new c w (omega int_laws) (omega int_laws) in
        let at_u =
          side (offset timezone) w change old new c u
            (omega (int_laws, at_w, c.old_small, c.new_small))
            (omega (int_laws, at_w, c.old_small, c.new_small)) in
        rw
          (offset_lem w (omega (int_laws, at_w, h.modern, c.old_small, c.new_small)) h.seconds
            (h.offset_seconds w))
          (rw (
            offset_lem u (omega (int_laws, at_w, at_u, h.modern, c.old_small, c.new_small))
              (IsSeconds-sub w _ h.seconds (h.offset_seconds w)) (h.offset_seconds u)))

    -- In a zone that changes its offset at most once about the wall clock `w`, a whole second of 1600
    -- or later, with offsets of whole seconds and of at most a day: if the zone shows `w` at some
    -- instant within two days, it shows it at the instant that is found.
    pub wall-zoned_ms :
        (t : ℤ)
        → w -ℤ two_days ≤ℤ t
        → t ≤ℤ w +ℤ two_days
        → wall offset timezone t ≡ w
        → wall offset timezone (zoned_ms offset w timezone) ≡ w
    wall-zoned_ms t lo hi e =
        rw zoned_ms-eq (two_rounds (offset timezone) w change old new h.changes_once t lo hi e)

    -- In such a zone, if the change skips the wall clock `w`, the instant that is found shows a wall clock that is
    -- off by the length of the gap: later where `w`, read as UTC, is not before the change, and
    -- earlier where it is.
    pub wall-zoned_ms_gap :
        change +ℤ old ≤ℤ w
        → w <ℤ change +ℤ new
        → (change ≤ℤ w → wall offset timezone (zoned_ms offset w timezone) ≡ w +ℤ (new -ℤ old))
          × (w <ℤ change → wall offset timezone (zoned_ms offset w timezone) ≡ w -ℤ (new -ℤ old))
    wall-zoned_ms_gap lo hi =
        rw zoned_ms-eq (two_rounds_gap (offset timezone) w change old new h.changes_once lo hi)
