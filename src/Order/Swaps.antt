-- ===== src/Order/Swaps.antt =====
-- Moving a task by an offset swaps two tasks, and the comparison of two orders.
use task_calendar.Base.{
  ℕ, zero, suc, ◌+◌, ◌<◌, true, some, List, [], ◌∷◌, length, get_elem?, if◌then◌else◌, ◌≡◌, ◌↔◌,
  refl, ◌==◌, ap, arith,
}
use task_calendar.Base.Ids.{index_of, index_from}
use task_calendar.Base.Int.{ℤ}
use task_calendar.Base.Text.{Text, text_eq_iff}
use task_calendar.Order.{are_string_arrays_equal, swap_at, set, move_by_offset, shifted}

-- The comparison that decides whether an order is applied and saved is equality.
pub are_string_arrays_equal_iff :
    (left right : List Text) → (are_string_arrays_equal left right ≡ true) ↔ (left ≡ right)
unfolding are_string_arrays_equal
are_string_arrays_equal_iff [] [] = ground arith
are_string_arrays_equal_iff [] (y ∷ ys) = ground arith
are_string_arrays_equal_iff (x ∷ xs) [] = ground arith
are_string_arrays_equal_iff (x ∷ xs) (y ∷ ys) =
    ground (arith, text_eq_iff x y, are_string_arrays_equal_iff xs ys)

get_elem?-set :
    (xs : List Text) (i k : ℕ) (v : Text)
    → i < length xs
    → get_elem? (set xs i v) k ≡ (if k == i then some v else get_elem? xs k)
get_elem?-set [] i k v h = absurd (omega arith)
get_elem?-set (x ∷ xs) zero zero v h = refl
get_elem?-set (x ∷ xs) zero (suc k) v h = ground arith
get_elem?-set (x ∷ xs) (suc i) zero v h = ground arith
get_elem?-set (x ∷ xs) (suc i) (suc k) v h = ground (arith, get_elem?-set xs i k v)

length-set : (xs : List Text) (i : ℕ) (v : Text) → length (set xs i v) ≡ length xs
length-set [] i v = refl
length-set (x ∷ xs) zero v = refl
length-set (x ∷ xs) (suc i) v = ap suc (length-set xs i v)

get_elem?_of_lt : (xs : List Text) (i : ℕ) → i < length xs → (v : Text) × (get_elem? xs i ≡ some v)
get_elem?_of_lt [] i h = absurd (omega arith)
get_elem?_of_lt (x ∷ xs) zero h = (x, refl)
get_elem?_of_lt (x ∷ xs) (suc i) h = get_elem?_of_lt xs i (omega arith)

get_elem?-swap_at :
    (order : List Text) (i j k : ℕ)
    → i < length order
    → j < length order
    → get_elem? (swap_at order i j) k
      ≡ get_elem? order (if k == j then i else if k == i then j else k)
unfolding swap_at
get_elem?-swap_at order i j k hi hj =
    let (a, ea) = get_elem?_of_lt order i hi in
    let (b, eb) = get_elem?_of_lt order j hj in
    ground (
      arith,
      get_elem?-set (set order i b) j k a,
      get_elem?-set order i k b,
      length-set order i b,
      ea,
      eb,
    )

index_from-lt :
    (k : ℕ) (xs : List Text) (x : Text) (i : ℕ) → index_from k xs x ≡ some i → i < k + length xs
unfolding index_from
index_from-lt k [] x i h = absurd (cc)
index_from-lt k (y ∷ xs) x i h = ground (arith, index_from-lt (k + 1) xs x i)

-- A move by an offset that stays in the list swaps the task with the one at its new index, and
-- moves no other.
pub get_elem?-move_by_offset :
    (order : List Text) (id : Text) (offset : ℤ) (i j k : ℕ)
    → index_of order id ≡ some i
    → shifted i offset ≡ some j
    → j < length order
    → get_elem? (move_by_offset order id offset) k
      ≡ get_elem? order (if k == j then i else if k == i then j else k)
unfolding move_by_offset
get_elem?-move_by_offset order id offset i j k at to hj =
    ground (arith, get_elem?-swap_at order i j k, index_from-lt 0 order id i at)
