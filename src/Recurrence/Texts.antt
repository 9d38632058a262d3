-- ===== src/Recurrence/Texts.antt =====
-- Texts without separators and white space: splitting and trimming them.
use task_calendar.Base.{
  ℕ, zero, suc, false, [], ◌∷◌, ◌++◌, All, All-append, All-map, drop, length, ltb, ◌==◌, ◌≡◌, ◌≢◌,
  refl, sym, ap, ◌∙◌, ◌≡⟨◌⟩◌, ◌∎, arith, Bool-cases, inl, inr,
}
use mathlib.Core.List.{append-nil, append_assoc, reverse, reverse-reverse, reverse_aux}
use task_calendar.Base.Int.{ℤ}
use task_calendar.Clock.Civil.{to_iso}
use task_calendar.Clock.Civil.Letters.{to_iso-All, to_iso-ne-nil}
use task_calendar.Base.Text.{
  Text, codes, split_from, is_space, trim, trim_start, is_prefix, replace_first,
}
use task_calendar.Base.Text.Decimal.{is_digit, show, pad2, Digit, digits_of-Digit}

-- A character that neither separates parts of a rule nor is white space.
abbrev pub Plain : ℕ → Type 0
Plain c = (c ≢ b';') × (c ≢ b'=') × (is_space c ≡ false)

pub split_from_lacking :
    (d : ℕ) (cur s : Text) → All (λ c. c ≢ d) s → split_from d cur s ≡ (cur ++ s) ∷ []
unfolding split_from
split_from_lacking d cur [] h = rw append-nil
split_from_lacking d cur (c ∷ s) (n, h) = elim (Bool-cases (c == d)) [
  | inl same ↦ absurd (n (ground arith))
  | inr other ↦
      rw (other, split_from)
        (split_from_lacking d (cur ++ c ∷ []) s h ∙ ap (λ t. t ∷ []) (append_assoc cur (c ∷ []) s))
]

pub split_from_part :
    (d : ℕ) (cur s t : Text)
    → All (λ c. c ≢ d) s
    → split_from d cur (s ++ d ∷ t) ≡ (cur ++ s) ∷ split_from d [] t
unfolding split_from
split_from_part d cur [] t h = elim (Bool-cases (d == d)) [
  | inl same ↦ rw (same, split_from) (ap (λ u. u ∷ split_from d [] t) (sym (append-nil cur)))
  | inr other ↦ absurd (ground arith)
]
split_from_part d cur (c ∷ s) t (n, h) = elim (Bool-cases (c == d)) [
  | inl same ↦ absurd (n (ground arith))
  | inr other ↦
      rw (other, split_from)
        (split_from_part d (cur ++ c ∷ []) s t h
          ∙ ap (λ u. u ∷ split_from d [] t) (append_assoc cur (c ∷ []) s))
]

trim_start-Plain : (s : Text) → All Plain s → trim_start s ≡ s
unfolding trim_start
trim_start-Plain [] h = refl
trim_start-Plain (c ∷ s) (p, h) = ground arith

All-reverse_aux : (P : ℕ → Type 0) (xs ys : Text) → All P xs → All P ys → All P (reverse_aux xs ys)
All-reverse_aux P [] ys h k = k
All-reverse_aux P (x ∷ xs) ys (p, h) k = All-reverse_aux P xs (x ∷ ys) h (p, k)

pub trim-Plain : (s : Text) → All Plain s → trim s ≡ s
unfolding trim
trim-Plain s h =
    reverse (trim_start (reverse (trim_start s)))
    ≡⟨ ap (λ t. reverse (trim_start (reverse t))) (trim_start-Plain s h) ⟩
      reverse (trim_start (reverse s))
    ≡⟨ ap reverse (trim_start-Plain (reverse s) (All-reverse_aux Plain s [] h tt)) ⟩
      reverse (reverse s)
    ≡⟨ reverse-reverse s ⟩ s ∎

Digit-Plain : (c : ℕ) → Digit c → Plain c
unfolding is_digit is_space
Digit-Plain c h = ground arith

Plain-zero : Plain b'0'
unfolding is_space
Plain-zero = ground arith

pub show-Plain : (n : ℕ) → All Plain (show n)
unfolding show
show-Plain n = All-map Digit-Plain _ (digits_of-Digit (suc n) n)

pad2-Plain : (n : ℕ) → All Plain (pad2 n)
unfolding pad2
pad2-Plain n = elim (Bool-cases (ltb n 10)) [
  | inl small ↦ rw (small, pad2) (Plain-zero, show-Plain n)
  | inr large ↦ rw (large, pad2) (show-Plain n)
]

replace_first-Plain : (t u s : Text) → All Plain u → All Plain s → All Plain (replace_first t u s)
unfolding replace_first
replace_first-Plain t u [] k h = tt
replace_first-Plain t u (c ∷ s) k (p, h) = elim (Bool-cases (is_prefix t (c ∷ s))) [
  | inl found ↦
      rw (found, replace_first) (All-append Plain u _ k (drop-Plain (length t) (c ∷ s) (p, h)))
  | inr missing ↦ rw (missing, replace_first) (p, replace_first-Plain t u s k h)
]
  where
    drop-Plain : (n : ℕ) (v : Text) → All Plain v → All Plain (drop n v)
    drop-Plain zero v q = q
    drop-Plain (suc n) [] q = q
    drop-Plain (suc n) (x ∷ v) (_, q) = drop-Plain n v q

-- The end of a rule is plain text.
pub end_of_second-Plain :
    (t : ℤ) → All Plain (replace_first (codes ".000Z") (codes ".999Z") (to_iso t))
unfolding is_space
end_of_second-Plain t =
    replace_first-Plain (codes ".000Z") (codes ".999Z") (to_iso t) (ground arith) (
      to_iso-All Plain Digit-Plain (ground arith) (ground arith) (ground arith) (ground arith)
        (ground arith) (ground arith) t)

replace_first-ne-nil : (t u s : Text) → u ≢ [] → s ≢ [] → replace_first t u s ≢ []
unfolding replace_first
replace_first-ne-nil t u [] hu hs = hs
replace_first-ne-nil t [] (c ∷ s) hu hs = absurd (hu refl)
replace_first-ne-nil t (d ∷ u) (c ∷ s) hu hs = elim (Bool-cases (is_prefix t (c ∷ s))) [
  | inl found ↦ rw (found, replace_first) (λ e. cc)
  | inr missing ↦ rw (missing, replace_first) (λ e. cc)
]

pub end_of_second-ne-nil : (t : ℤ) → replace_first (codes ".000Z") (codes ".999Z") (to_iso t) ≢ []
end_of_second-ne-nil t =
    replace_first-ne-nil (codes ".000Z") (codes ".999Z") (to_iso t) (λ e. cc) (to_iso-ne-nil t)
