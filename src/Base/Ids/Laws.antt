-- ===== src/Base/Ids/Laws.antt =====
-- Membership in filtered and extended lists, and distinctness.
use task_calendar.Base.Lists.{filter}
use task_calendar.Base.Tests.{Bool-cases}
use task_calendar.Base.Text.{Text, text_eq, text_eq_iff}
use task_calendar.Base.Ids.{contains, distinct, index_from, without}
use Prim.Native.Nat.{ℕ, ◌+◌}
use mathlib.Core.Bool.{Bool, true, false, not, ◌&&◌, ◌||◌}
use mathlib.Core.List.{List, [], ◌∷◌, ◌++◌}
use mathlib.Core.Logic.{◌≢◌, inl, inr}
use mathlib.Core.Option.{none, some}
use mathlib.Core.Path.{◌≡◌, refl}
use native.Mathlib.Omega.{arith}

pub text_eq_refl : (s : Text) → text_eq s s ≡ true
text_eq_refl s = (text_eq_iff s s).1 refl

pub text_eq_comm : (s t : Text) → text_eq s t ≡ text_eq t s
text_eq_comm s t = ground (arith, text_eq_iff s t, text_eq_iff t s)

pub contains-filter :
    (p : Text → Bool) (xs : List Text) (x : Text)
    → contains (filter p xs) x ≡ (p x && contains xs x)
unfolding contains
contains-filter p [] x = ground arith
contains-filter p (y ∷ xs) x = ground (arith, text_eq_iff y x, contains-filter p xs x)

pub contains-append :
    (xs ys : List Text) (x : Text) → contains (xs ++ ys) x ≡ (contains xs x || contains ys x)
unfolding contains
contains-append [] ys x = refl
contains-append (y ∷ xs) ys x = ground (arith, contains-append xs ys x)

pub distinct-filter :
    (p : Text → Bool) (xs : List Text) → distinct xs ≡ true → distinct (filter p xs) ≡ true
unfolding distinct
distinct-filter p [] h = refl
distinct-filter p (y ∷ xs) h = ground (arith, contains-filter p xs y, distinct-filter p xs)

pub distinct-concat :
    (xs : List Text) (x : Text) → distinct (xs ++ x ∷ []) ≡ (not (contains xs x) && distinct xs)
unfolding distinct
distinct-concat [] x = refl
distinct-concat (y ∷ xs) x =
    ground (arith, distinct-concat xs x, contains-append xs (x ∷ []) y, text_eq_comm x y)

pub without_absent : (x : Text) (xs : List Text) → contains xs x ≡ false → without x xs ≡ xs
unfolding contains
without_absent x [] h = refl
without_absent x (y ∷ xs) h = ground (arith, without_absent x xs)

pub without-append :
    (x : Text) (xs ys : List Text) → without x (xs ++ ys) ≡ without x xs ++ without x ys
without-append x [] ys = refl
without-append x (y ∷ xs) ys = ground (arith, without-append x xs ys)

pub contains-without : (x : Text) (xs : List Text) → contains (without x xs) x ≡ false
contains-without x xs =
    ground (arith, contains-filter (λ y. not (text_eq y x)) xs x, text_eq_refl x)

pub without-without : (x : Text) (xs : List Text) → without x (without x xs) ≡ without x xs
without-without x xs = without_absent x (without x xs) (contains-without x xs)

-- An index is found exactly for the members.
pub index_from-eq-none :
    (k : ℕ) (xs : List Text) (x : Text) → contains xs x ≡ false → index_from k xs x ≡ none
unfolding contains index_from
index_from-eq-none k [] x h = refl
index_from-eq-none k (y ∷ xs) x h = ground (arith, index_from-eq-none (k + 1) xs x)

pub index_from-eq-some :
    (k : ℕ) (xs : List Text) (x : Text)
    → contains xs x ≡ true
    → (i : ℕ) × (index_from k xs x ≡ some i)
unfolding contains index_from
index_from-eq-some k [] x h = absurd (cc)
index_from-eq-some k (y ∷ xs) x h = elim (Bool-cases (text_eq y x)) [
  | inl here ↦ (k, rw here)
  | inr later ↦ rw later (index_from-eq-some (k + 1) xs x (ground arith))
]

pub text_eq_ne : (s t : Text) → s ≢ t → text_eq s t ≡ false
text_eq_ne s t h = ground (arith, text_eq_iff s t)
