-- ===== src/Order/Sorting.antt =====
-- The list of tasks without a time is shown by place in the saved order.
use task_calendar.Base.{
  ℕ, ◌+◌, ◌≤◌, ◌<◌, true, false, none, some, if◌then◌else◌, length, List, [], ◌∷◌, filter, All,
  All-map, leb, ◌==◌, ◌≡◌, refl, ap, Bool, not, ◌&&◌, ◌∙◌, arith, Bool-cases, inl, inr,
}
use mathlib.Core.Path.{subst}
use task_calendar.Base.Ids.{contains, distinct, map_get}
use task_calendar.Base.Text.{Text, text_eq, text_eq_iff}
use task_calendar.Task.{ScheduledTask}
use task_calendar.Order.{
  insert_by, sort_by, with_index, max_safe_integer, order_rank, order_tasks_by_ids,
}

module _ (key : ScheduledTask → ℕ) where
  abbrev pub IsSorted : List ScheduledTask → Type 0
  IsSorted [] = Unit
  IsSorted (t ∷ ts) = All (λ u. key t ≤ key u) ts × IsSorted ts

  insert_by-All :
      (P : ScheduledTask → Type 0) (t : ScheduledTask) (us : List ScheduledTask)
      → P t
      → All P us
      → All P (insert_by key t us)
  unfolding insert_by
  insert_by-All P t [] p h = (p, tt)
  insert_by-All P t (u ∷ us) p (q, h) = ground (arith, insert_by-All P t us p h)

  insert_by-IsSorted :
      (t : ScheduledTask) (us : List ScheduledTask) → IsSorted us → IsSorted (insert_by key t us)
  unfolding insert_by
  insert_by-IsSorted t [] h = (tt, tt)
  insert_by-IsSorted t (u ∷ us) (h, s) = elim (Bool-cases (leb (key t) (key u))) [
    | inl le ↦ rw le ((ground arith, All-map (λ v e. ground arith) us h), (h, s))
    | inr gt ↦
        rw gt (insert_by-All (λ v. key u ≤ key v) t us (ground arith) h, insert_by-IsSorted t us s)
  ]

  insert_by-filter :
      (k : ℕ) (t : ScheduledTask) (us : List ScheduledTask)
      → filter (λ u. key u == k) (insert_by key t us) ≡ filter (λ u. key u == k) (t ∷ us)
  unfolding insert_by
  insert_by-filter k t [] = refl
  insert_by-filter k t (u ∷ us) = ground (arith, insert_by-filter k t us)

  sort_by-IsSorted : (ts : List ScheduledTask) → IsSorted (sort_by key ts)
  unfolding sort_by
  sort_by-IsSorted [] = tt
  sort_by-IsSorted (t ∷ ts) = insert_by-IsSorted t (sort_by key ts) (sort_by-IsSorted ts)

  sort_by-filter :
      (k : ℕ) (ts : List ScheduledTask)
      → filter (λ u. key u == k) (sort_by key ts) ≡ filter (λ u. key u == k) ts
  unfolding sort_by
  sort_by-filter k [] = refl
  sort_by-filter k (t ∷ ts) =
      insert_by-filter k t (sort_by key ts) ∙ ground (arith, sort_by-filter k ts)

insert_by-eq :
    (key place : ScheduledTask → ℕ)
    → ((t u : ScheduledTask) → leb (key t) (key u) ≡ leb (place t) (place u))
    → (t : ScheduledTask) (us : List ScheduledTask) → insert_by key t us ≡ insert_by place t us
unfolding insert_by
insert_by-eq key place h t [] = refl
insert_by-eq key place h t (u ∷ us) = rw (h t u, insert_by-eq key place h t us) refl

sort_by-eq :
    (key place : ScheduledTask → ℕ)
    → ((t u : ScheduledTask) → leb (key t) (key u) ≡ leb (place t) (place u))
    → (ts : List ScheduledTask) → sort_by key ts ≡ sort_by place ts
unfolding sort_by
sort_by-eq key place h [] = refl
sort_by-eq key place h (t ∷ ts) =
    rw (sort_by-eq key place h ts) (insert_by-eq key place h t (sort_by place ts))

-- How many identifiers of the order stand before the task's, which are all of them for a task that
-- the order does not name.
abbrev pub place_in : List Text → ScheduledTask → ℕ
place_in [] task = 0
place_in (id ∷ ids) task = if text_eq id task.id then 0 else 1 + place_in ids task

place-bound :
    (ids : List Text) (task : ScheduledTask)
    → (contains ids task.id ≡ true → place_in ids task < length ids)
      × (contains ids task.id ≡ false → place_in ids task ≡ length ids)
unfolding contains
place-bound [] task = (λ h. absurd (cc), λ h. refl)
place-bound (id ∷ ids) task =
    (λ h. ground (arith, place-bound ids task), λ h. ground (arith, place-bound ids task))

both : (a b : Bool) → (not a && b) ≡ true → (a ≡ false) × (b ≡ true)
both a b h = ground arith

index_lem :
    (i : ℕ) (ids : List Text) (task : ScheduledTask)
    → distinct ids ≡ true
    → map_get (with_index i ids) task.id
      ≡ (if contains ids task.id then some (i + place_in ids task) else none)
unfolding contains distinct map_get
index_lem i [] task d = refl
index_lem i (id ∷ ids) task d =
    let (absent, rest) = both (contains ids id) (distinct ids) d in
    let found = index_lem (i + 1) ids task rest in
    elim (Bool-cases (text_eq id task.id)) [
      | inl same ↦
          let gone : contains ids task.id ≡ false =
            subst (λ x. contains ids x ≡ false) ((text_eq_iff id task.id).0 same) absent in
          rw (found, gone, same) (ground arith)
      | inr other ↦ elim (Bool-cases (contains ids task.id)) [
        | inl named ↦ rw (found, named, other) (ap some (omega arith))
        | inr gone ↦ rw (found, gone, other) refl
      ]
    ]

rank-place :
    (ids : List Text)
    → distinct ids ≡ true
    → length ids ≤ max_safe_integer
    → (t u : ScheduledTask)
    → leb (order_rank ids t) (order_rank ids u) ≡ leb (place_in ids t) (place_in ids u)
unfolding order_rank
rank-place ids d small t u =
    ground (arith, index_lem 0 ids t d, index_lem 0 ids u d, place-bound ids t, place-bound ids u)

-- For an order without repetitions that is not longer than the greatest safe integer, the shown list
-- ascends by the place that each task's identifier has in the order, with the tasks that the order
-- does not name at the end, and the tasks of one place, those unnamed ones among them, are the same
-- as before in the same order.
pub order_tasks-IsSorted :
    (tasks : List ScheduledTask) (ids : List Text)
    → distinct ids ≡ true
    → length ids ≤ max_safe_integer
    → IsSorted (place_in ids) (order_tasks_by_ids tasks ids)
      × ((k : ℕ)
          → filter (λ t. place_in ids t == k) (order_tasks_by_ids tasks ids)
            ≡ filter (λ t. place_in ids t == k) tasks)
unfolding order_tasks_by_ids
order_tasks-IsSorted tasks ids d small =
    rw (sort_by-eq (order_rank ids) (place_in ids) (rank-place ids d small) tasks)
      (sort_by-IsSorted (place_in ids) tasks, λ k. sort_by-filter (place_in ids) k tasks)
