-- ===== src/Store/Merging.antt =====
-- What a refresh shows: of each task the server's row or the user's change, whichever is newer.
use task_calendar.Base.{
  Bool, true, false, Option, none, some, List, [], ◌∷◌, ◌++◌, All, if◌then◌else◌, ◌≡◌, refl, sym,
  ◌∙◌, ap, arith, Bool-cases, Option-cases, inl, inr,
}
use task_calendar.Base.Ids.{contains, distinct}
use task_calendar.Base.Ids.Laws.{text_eq_refl}
use task_calendar.Base.Maps.{entry, set_entry, keys_of}
use task_calendar.Base.Maps.Laws.{entry_absent}
use task_calendar.Base.Text.{Text, text_eq, text_eq_iff}
use task_calendar.Platform.{Platform}
use task_calendar.Store.{
  find_task, set_task, is_task_at_least_as_fresh, merge_round, merge_from, keep_entry,
}
use task_calendar.Task.{ScheduledTask}

find_task-append :
    (tasks : List ScheduledTask) (t : ScheduledTask) (x : Text)
    → find_task tasks t.id ≡ none
    → find_task (tasks ++ t ∷ []) x ≡ (if text_eq t.id x then some t else find_task tasks x)
unfolding find_task
find_task-append [] t x h = refl
find_task-append (u ∷ tasks) t x h = ground (
  arith,
  text_eq_iff u.id t.id,
  text_eq_iff u.id x,
  text_eq_iff t.id x,
  text_eq_refl t.id,
  find_task-append tasks t x,
)

find_task-set_task :
    (tasks : List ScheduledTask) (t old : ScheduledTask) (x : Text)
    → find_task tasks t.id ≡ some old
    → find_task (set_task t.id t tasks) x ≡ (if text_eq t.id x then some t else find_task tasks x)
unfolding find_task set_task
find_task-set_task [] t old x h = absurd (cc)
find_task-set_task (u ∷ tasks) t old x h = ground (
  arith,
  text_eq_iff u.id t.id,
  text_eq_iff u.id x,
  text_eq_iff t.id x,
  text_eq_refl t.id,
  find_task-set_task tasks t old x,
)

-- Each entry of the map stands under its task's identifier.
abbrev pub IsKeyed : List (Text × ScheduledTask) → Type 0
IsKeyed = All (λ e. e.1.id ≡ e.0)

module _ (p : Platform) where
  -- The newer of the server's row and the user's change.
  abbrev pub newest : Option ScheduledTask → Option ScheduledTask → Option ScheduledTask
  newest none local = local
  newest (some loaded) none = some loaded
  newest (some loaded) (some local) =
      if is_task_at_least_as_fresh p loaded local then some loaded else some local

  -- What remains of the user's change once the server's row is known.
  abbrev pub pending : Option ScheduledTask → Option ScheduledTask → Option ScheduledTask
  pending loaded none = none
  pending none (some local) = some local
  pending (some loaded) (some local) =
      if is_task_at_least_as_fresh p loaded local then none else some local

  find_task-merge_round :
      (merged : List ScheduledTask) (t : ScheduledTask) (x : Text)
      → find_task (merge_round p merged t.id t (find_task merged t.id)).0 x
        ≡ (if text_eq t.id x then newest (find_task merged x) (some t) else find_task merged x)
  find_task-merge_round merged t x = elim (Option-cases (find_task merged t.id)) [
    | inl e ↦ ground (arith, text_eq_iff t.id x, find_task-append merged t x)
    | inr (old, e) ↦ ground (arith, text_eq_iff t.id x, find_task-set_task merged t old x)
  ]

  merge_round_lem :
      (merged : List ScheduledTask) (id : Text) (t : ScheduledTask) (x : Text)
      → t.id ≡ id
      → find_task (merge_round p merged id t (find_task merged id)).0 x
        ≡ (if text_eq id x then newest (find_task merged x) (some t) else find_task merged x)
  merge_round_lem merged id t x k = rw (sym k) (find_task-merge_round merged t x)

  newest_once :
      (here : Bool) (found : Option ScheduledTask) (t : ScheduledTask) (rest : Option ScheduledTask)
      → (here ≡ true → rest ≡ none)
      → newest (if here then newest found (some t) else found) rest
        ≡ newest found (if here then some t else rest)
  newest_once true none t rest h = rw (h refl) refl
  newest_once true (some u) t rest h = rw (h refl) (ground arith)
  newest_once false found t rest h = refl

  rest_absent :
      (id x : Text) (t : ScheduledTask) (local : List (Text × ScheduledTask))
      → distinct (keys_of ((id, t) ∷ local)) ≡ true
      → text_eq id x ≡ true
      → entry local x ≡ none
  unfolding distinct
  rest_absent id x t local d here = entry_absent local x (ground (arith, text_eq_iff id x))

  -- Of each task the merged list shows the newer of the server's row and the user's change.
  pub find_task-merge_from :
      (merged : List ScheduledTask) (local : List (Text × ScheduledTask)) (x : Text)
      → IsKeyed local
      → distinct (keys_of local) ≡ true
      → find_task (merge_from p merged local).0 x ≡ newest (find_task merged x) (entry local x)
  unfolding merge_from entry distinct
  find_task-merge_from merged [] x k d = elim (Option-cases (find_task merged x)) [
    | inl e ↦ rw e refl
    | inr (t, e) ↦ rw e refl
  ]
  find_task-merge_from merged ((id, t) ∷ local) x (k, ks) d =
      find_task-merge_from (merge_round p merged id t (find_task merged id)).0 local x ks
        (ground arith)
      ∙ (ap (λ found. newest found (entry local x)) (merge_round_lem merged id t x k)
          ∙ newest_once (text_eq id x) (find_task merged x) t (entry local x)
              (rest_absent id x t local d))

  abbrev or_entry : Option ScheduledTask → Option ScheduledTask → Option ScheduledTask
  or_entry none rest = rest
  or_entry (some t) rest = some t

  entry-keep_entry :
      (found : Option ScheduledTask) (merged : List ScheduledTask) (id x : Text) (t : ScheduledTask)
      (rest : List (Text × ScheduledTask))
      → entry (keep_entry p (merge_round p merged id t found).1 (id, t) rest) x
        ≡ (if text_eq id x then or_entry (pending found (some t)) (entry rest x) else entry rest x)
  unfolding entry
  entry-keep_entry none merged id x t rest = refl
  entry-keep_entry (some u) merged id x t rest = ground arith

  pending_once :
      (here : Bool) (found : Option ScheduledTask) (t : ScheduledTask) (rest : Option ScheduledTask)
      → (here ≡ true → rest ≡ none)
      → (if here
          then or_entry
              (pending found (some t))
              (pending (if here then newest found (some t) else found) rest)
          else pending (if here then newest found (some t) else found) rest)
        ≡ pending found (if here then some t else rest)
  pending_once true none t rest h = refl
  pending_once true (some u) t rest h = ground arith
  pending_once false found t rest h = refl

  same_round :
      (here : Bool) (t : ScheduledTask) (a b : Option ScheduledTask) {c e : Option ScheduledTask}
      → (here ≡ true → a ≡ b)
      → c ≡ e
      → (if here then or_entry (pending a (some t)) c else c)
        ≡ (if here then or_entry (pending b (some t)) e else e)
  same_round true t a b h k = rw (h refl, k) refl
  same_round false t a b h k = k

  -- The map keeps just the changes that the server's rows do not have yet.
  pub entry-merge_from :
      (merged : List ScheduledTask) (local : List (Text × ScheduledTask)) (x : Text)
      → IsKeyed local
      → distinct (keys_of local) ≡ true
      → entry (merge_from p merged local).1 x ≡ pending (find_task merged x) (entry local x)
  unfolding merge_from entry distinct
  entry-merge_from merged [] x k d = refl
  entry-merge_from merged ((id, t) ∷ local) x (k, ks) d =
      let next : List ScheduledTask = (merge_round p merged id t (find_task merged id)).0 in
      let kept : List (Text × ScheduledTask) = (merge_from p next local).1 in
      entry-keep_entry (find_task merged id) merged id x t kept
      ∙ (same_round (text_eq id x) t (find_task merged id) (find_task merged x)
            (λ here. ap (find_task merged) ((text_eq_iff id x).0 here))
            (entry-merge_from next local x ks (ground arith)
              ∙ ap (λ found. pending found (entry local x)) (merge_round_lem merged id t x k))
          ∙ pending_once (text_eq id x) (find_task merged x) t (entry local x)
              (rest_absent id x t local d))

pub IsKeyed-set_entry :
    (t : ScheduledTask) (local : List (Text × ScheduledTask))
    → IsKeyed local
    → IsKeyed (set_entry t.id t local)
unfolding set_entry
IsKeyed-set_entry t [] h = (refl, tt)
IsKeyed-set_entry t ((k, u) ∷ local) (h, hs) = elim (Bool-cases (text_eq k t.id)) [
  | inl same ↦ rw same (ground (arith, text_eq_iff k t.id), hs)
  | inr other ↦ rw other (h, IsKeyed-set_entry t local hs)
]

pub change_wins :
    (p : Platform) (local : ScheduledTask) (found : Option ScheduledTask)
    → ((row : ScheduledTask) → found ≡ some row → is_task_at_least_as_fresh p row local ≡ false)
    → (newest p found (some local) ≡ some local) × (pending p found (some local) ≡ some local)
change_wins p local none h = (refl, refl)
change_wins p local (some row) h = rw (h row refl) (refl, refl)

contains-merge_from :
    (p : Platform) (merged : List ScheduledTask) (local : List (Text × ScheduledTask)) (x : Text)
    → contains (keys_of local) x ≡ false
    → contains (keys_of (merge_from p merged local).1) x ≡ false
unfolding merge_from contains
contains-merge_from p merged [] x h = refl
contains-merge_from p merged ((id, t) ∷ local) x h =
    elim (Bool-cases (merge_round p merged id t (find_task merged id)).1) [
      | inl k ↦ rw k (
          ground (
            arith,
            contains-merge_from p (merge_round p merged id t (find_task merged id)).0 local x,
          ))
      | inr k ↦ rw k (
          contains-merge_from p (merge_round p merged id t (find_task merged id)).0 local x
            (ground arith))
    ]

pub merge_from-IsKeyed :
    (p : Platform) (merged : List ScheduledTask) (local : List (Text × ScheduledTask))
    → IsKeyed local
    → distinct (keys_of local) ≡ true
    → IsKeyed (merge_from p merged local).1
      × (distinct (keys_of (merge_from p merged local).1) ≡ true)
unfolding merge_from distinct
merge_from-IsKeyed p merged [] h d = (tt, refl)
merge_from-IsKeyed p merged ((id, t) ∷ local) (h, hs) d =
    let next : List ScheduledTask = (merge_round p merged id t (find_task merged id)).0 in
    let (keyed, once) = merge_from-IsKeyed p next local hs (ground arith) in
    elim (Bool-cases (merge_round p merged id t (find_task merged id)).1) [
      | inl k ↦ rw k ((h, keyed), ground (arith, once, contains-merge_from p next local id))
      | inr k ↦ rw k (keyed, once)
    ]
