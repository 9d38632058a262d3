-- ===== src/Order/Moves.antt =====
-- Moving one task in the order: it lands beside its target, the others keep their places.
use task_calendar.Base.{
  ℕ, suc, ◌+◌, true, false, not, ◌&&◌, some, List, [], ◌∷◌, ◌++◌, length, take, drop, ◌≡◌, ◌≢◌,
  refl, ap, arith, Bool-cases, Option-cases, inl, inr,
}
use mathlib.Core.List.{append_assoc}
use native.Mathlib.Numerals.{add-one}
use task_calendar.Base.Ids.{contains, distinct, index_of, index_from, without}
use task_calendar.Base.Ids.Laws.{
  without_absent, without-append, contains-without, text_eq_refl, contains-filter, contains-append,
  distinct-concat, distinct-filter, text_eq_comm, index_from-eq-some, text_eq_ne,
}
use task_calendar.Base.Text.{Text, text_eq, text_eq_iff}
use task_calendar.Order.{
  Position, insert_index, insert_at, place, move_task_id_relative, move_task_id_to_top,
}

-- Where an index is found, the list is cut around the element.
record CutAt (xs : List Text) (x : Text) (i : ℕ) : Type 0 where
  pre : List Text
  post : List Text
  whole : xs ≡ pre ++ x ∷ post
  len : length pre ≡ i

index_from-CutAt :
    (k : ℕ) (xs : List Text) (x : Text) (i : ℕ)
    → index_from k xs x ≡ some i
    → (j : ℕ) × (i ≡ k + j) × CutAt xs x j
unfolding index_from
index_from-CutAt k [] x i h = absurd (cc)
index_from-CutAt k (y ∷ xs) x i h = elim (Bool-cases (text_eq y x)) [
  | inl here ↦ (
    0,
    ground arith,
    record { pre = []; post = xs; whole = ap (λ z. z ∷ xs) ((text_eq_iff y x).0 here); len = refl },
  )
  | inr later ↦
      let (j, e, cut) = index_from-CutAt (k + 1) xs x i (ground arith) in
      (
        suc j,
        omega arith,
        record {
          pre = y ∷ cut.pre;
          post = cut.post;
          whole = ap (λ z. y ∷ z) cut.whole;
          len = ap suc cut.len;
        },
      )
]

take_of_length : (pre rest : List Text) → take (length pre) (pre ++ rest) ≡ pre
take_of_length [] rest = refl
take_of_length (x ∷ pre) rest = ap (◌∷◌ x) (take_of_length pre rest)

drop_of_length : (pre rest : List Text) → drop (length pre) (pre ++ rest) ≡ rest
drop_of_length [] rest = refl
drop_of_length (x ∷ pre) rest = drop_of_length pre rest

take_behind :
    (pre : List Text) (t : Text) (rest : List Text)
    → take (suc (length pre)) (pre ++ t ∷ rest) ≡ pre ++ t ∷ []
take_behind [] t rest = refl
take_behind (x ∷ pre) t rest = ap (◌∷◌ x) (take_behind pre t rest)

drop_behind :
    (pre : List Text) (t : Text) (rest : List Text)
    → drop (suc (length pre)) (pre ++ t ∷ rest) ≡ rest
drop_behind [] t rest = refl
drop_behind (x ∷ pre) t rest = drop_behind pre t rest

-- The moved task stands directly before or after its target.
abbrev pub beside : Position → Text → Text → List Text → List Text → List Text
beside Position.before dragged target pre post = pre ++ dragged ∷ target ∷ post
beside Position.after dragged target pre post = pre ++ target ∷ dragged ∷ post

insert_at-beside :
    (position : Position) (dragged target : Text) (pre post : List Text)
    → insert_at (insert_index position (length pre)) dragged (pre ++ target ∷ post)
      ≡ beside position dragged target pre post
insert_at-beside Position.before d t pre post =
    rw (take_of_length pre (t ∷ post), drop_of_length pre (t ∷ post)) refl
insert_at-beside Position.after d t pre post =
    rw (add-one (length pre))
      (rw (take_behind pre t post, drop_behind pre t post) (append_assoc pre (t ∷ []) (d ∷ post)))

beside-without :
    (position : Position) (d t : Text) (pre post : List Text)
    → text_eq t d ≡ false
    → without d (beside position d t pre post) ≡ without d (pre ++ t ∷ post)
beside-without Position.before d t pre post h = simp (without-append, text_eq_refl, h)
beside-without Position.after d t pre post h = simp (without-append, text_eq_refl, h)

place-beside :
    (next : List Text) (dragged target : Text) (position : Position) {i : ℕ}
    → index_of next target ≡ some i
    → (pre : List Text) × (post : List Text) × (place (some i) position dragged next
        ≡ beside position dragged target pre post)
      × (next ≡ pre ++ target ∷ post)
place-beside next dragged target position {i} found =
    let (j, e, cut) = index_from-CutAt 0 next target i found in
    let at : i ≡ length cut.pre = omega (arith, cut.len) in
    (
      cut.pre,
      cut.post,
      rw at (rw cut.whole (insert_at-beside position dragged target cut.pre cut.post)),
      cut.whole,
    )

-- A dragged task that is not its own target lands directly before or after the target, if the
-- order names the target; the other tasks keep their order.
pub move-beside :
    (order : List Text) (dragged target : Text) (position : Position)
    → dragged ≢ target
    → contains order target ≡ true
    → (pre : List Text) × (post : List Text) × (move_task_id_relative order dragged target position
        ≡ beside position dragged target pre post)
      × (without dragged order ≡ pre ++ target ∷ post)
unfolding move_task_id_relative
move-beside order dragged target position ne h =
    let kept : contains (without dragged order) target ≡ true = ground (
      arith,
      contains-filter (λ y. not (text_eq y dragged)) order target,
      text_eq_iff target dragged,
    ) in
    let (i, found) = index_from-eq-some 0 (without dragged order) target kept in
    rw (text_eq_ne dragged target ne, found)
      (place-beside (without dragged order) dragged target position found)

distinct-insert :
    (d : Text) (pre rest : List Text)
    → distinct (pre ++ d ∷ rest) ≡ (not (contains (pre ++ rest) d) && distinct (pre ++ rest))
unfolding distinct
distinct-insert d [] rest = refl
distinct-insert d (x ∷ pre) rest = ground (
  arith,
  distinct-insert d pre rest,
  contains-append pre (d ∷ rest) x,
  contains-append pre rest x,
  text_eq_comm x d,
)

beside-distinct :
    (position : Position) (d t : Text) (pre post : List Text)
    → contains (pre ++ t ∷ post) d ≡ false
    → distinct (beside position d t pre post) ≡ distinct (pre ++ t ∷ post)
unfolding contains
beside-distinct Position.before d t pre post h = ground (arith, distinct-insert d pre (t ∷ post))
beside-distinct Position.after d t pre post h = ground (
  arith,
  distinct-insert t pre post,
  distinct-insert t pre (d ∷ post),
  distinct-insert d pre post,
  contains-append pre (t ∷ post) d,
  contains-append pre post d,
  contains-append pre (d ∷ post) t,
  contains-append pre post t,
  text_eq_comm t d,
)

place-distinct :
    (next : List Text) (d t : Text) (position : Position)
    → distinct next ≡ true
    → contains next d ≡ false
    → distinct (place (index_of next t) position d next) ≡ true
place-distinct next d t position h absent = elim (Option-cases (index_of next t)) [
  | inl e ↦ rw e (ground (arith, distinct-concat next d))
  | inr (i, e) ↦
      let (pre, post, placed, whole) = place-beside next d t position e in
      rw (e, placed, beside-distinct position d t pre post (rw whole at absent)) (rw whole at h)
]

-- Moving a task never makes the order name a task twice.
pub move-distinct :
    (order : List Text) (dragged target : Text) (position : Position)
    → distinct order ≡ true
    → distinct (move_task_id_relative order dragged target position) ≡ true
unfolding move_task_id_relative
move-distinct order dragged target position h = elim (Bool-cases (text_eq dragged target)) [
  | inl same ↦ rw same h
  | inr other ↦ rw other (
      place-distinct (without dragged order) dragged target position
        (distinct-filter (λ y. not (text_eq y dragged)) order h) (contains-without dragged order))
]

-- A task that the order names once goes to its head; the others keep their order behind it.
pub move_to_top_lem :
    (order : List Text) (id : Text)
    → distinct order ≡ true
    → contains order id ≡ true
    → move_task_id_to_top order id ≡ id ∷ without id order
unfolding move_task_id_to_top index_from distinct contains
move_to_top_lem [] id h c = cc
move_to_top_lem (x ∷ xs) id h c = elim (Bool-cases (text_eq x id)) [
  | inl here ↦ ground (arith, text_eq_iff x id, without_absent id xs)
  | inr later ↦
      let (i, found) = index_from-eq-some 1 xs id (ground arith) in
      let (j, e, cut) = index_from-CutAt 1 xs id i found in ground (arith, found, e)
]
