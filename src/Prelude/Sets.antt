-- ===== src/Prelude/Sets.antt =====
-- Counting distinct keys: a subset with as many elements is the whole set.
use Prim.Native.Nat.{ℕ, ◌≤◌, ◌<◌}
use mathlib.Core.Path.{◌≡◌, sym, ◌∙◌}
use mathlib.Core.Bool.{true, false≢true}
use mathlib.Core.Logic.{inl, inr}
use mathlib.Core.List.{List, [], ◌∷◌}
use native.Mathlib.Omega.{arith}
use svrx_pinry.Prelude.Tests.{◌==◌, ltb, Bool-cases, if_cases}
use svrx_pinry.Prelude.Lists.{
  All, All-map, length, contains, insert_sorted, sorted_set, contains-sorted_set,
}

-- Strictly ascending.
abbrev pub Asc : List ℕ → Type 0
Asc [] = Unit
Asc (x ∷ xs) = All (λ y. x < y) xs × Asc xs

All-insert_sorted :
    (n a : ℕ) (xs : List ℕ) → n < a → All (λ y. n < y) xs → All (λ y. n < y) (insert_sorted a xs)
unfolding insert_sorted
All-insert_sorted n a [] h hs = (h, tt)
All-insert_sorted n a (x ∷ xs) h (hx, hs) = let rest = All-insert_sorted n a xs h hs in ground arith

insert_sorted-Asc : (a : ℕ) (xs : List ℕ) → Asc xs → Asc (insert_sorted a xs)
unfolding insert_sorted
insert_sorted-Asc a [] h = (tt, tt)
insert_sorted-Asc a (x ∷ xs) (hx, hs) =
    if_cases Asc (ltb a x) _ _
      (λ e.
        let lt : a < x = ground arith in
        ((lt, All-map xs (λ y (p : x < y). omega arith) hx), (hx, hs)))
      (λ e.
        if_cases Asc (a == x) _ _ (λ _. (hx, hs))
          (λ n. (All-insert_sorted x a xs (ground arith) hx, insert_sorted-Asc a xs hs)))

pub sorted_set-Asc : (xs : List ℕ) → Asc (sorted_set xs)
unfolding sorted_set
sorted_set-Asc [] = tt
sorted_set-Asc (x ∷ xs) = insert_sorted-Asc x (sorted_set xs) (sorted_set-Asc xs)

-- An element of a list that lies above a bound is above it.
pub contains-above : (n a : ℕ) (xs : List ℕ) → All (λ y. n < y) xs → contains a xs ≡ true → n < a
contains-above n a [] h c = cc
contains-above n a (x ∷ xs) (hx, hs) c = ground (arith, contains-above n a xs hs)

-- A strictly ascending list inside another is no longer, and if it is as long it has every element.
Asc-subset :
    (xs ys : List ℕ)
    → Asc xs
    → Asc ys
    → ((a : ℕ) → contains a xs ≡ true → contains a ys ≡ true)
    → (length xs ≤ length ys)
      × (length ys ≤ length xs → (a : ℕ) → contains a ys ≡ true → contains a xs ≡ true)
Asc-subset [] [] hx hy sub = (omega arith, λ l a c. c)
Asc-subset [] (y ∷ ys) hx hy sub = (omega arith, λ l. absurd (omega arith))
Asc-subset (x ∷ xs) [] hx hy sub = absurd (false≢true (sub x (ground arith)))
Asc-subset (x ∷ xs) (y ∷ ys) (hx, ax) (hy, ay) sub = elim (Bool-cases (x == y)) [
  | inl e ↦
      let (shorter, full) =
        Asc-subset xs ys ax ay (λ a c. ground (arith, sub a, contains-above x a xs hx)) in
      (omega arith, λ l a c. ground (arith, full (omega arith) a))
  | inr n ↦
      let below : y < x = contains-above y x ys hy (ground (arith, sub x)) in
      let (shorter, full) =
        Asc-subset (x ∷ xs) ys (hx, ax) ay
          (λ a c. ground (arith, sub a, contains-above x a xs hx)) in
      (omega arith, λ l. absurd (omega arith))
]

-- `len(set(xs)) == len(set(ys))` for a subset: every element of `ys` is in `xs`.
pub same_count-contains :
    (xs ys : List ℕ)
    → ((a : ℕ) → contains a xs ≡ true → contains a ys ≡ true)
    → length (sorted_set xs) ≡ length (sorted_set ys)
    → (a : ℕ) → contains a ys ≡ true
    → contains a xs ≡ true
same_count-contains xs ys sub len a c =
    let (shorter, full) =
      Asc-subset (sorted_set xs) (sorted_set ys) (sorted_set-Asc xs) (sorted_set-Asc ys)
        (λ b h. contains-sorted_set b ys ∙ sub b (sym (contains-sorted_set b xs) ∙ h)) in
    sym (contains-sorted_set a xs) ∙ full (omega arith) a (contains-sorted_set a ys ∙ c)
