-- ===== src/Prelude/Lists.antt =====
-- Lists measured by native numbers, and the comprehensions that the services write.
use Prim.Native.Nat.{ℕ, suc, ◌+◌}
use mathlib.Core.Path.{◌≡◌, refl, subst}
use mathlib.Core.Bool.{Bool, true, false, ◌&&◌, ◌||◌}
use mathlib.Core.List.{List, [], ◌∷◌, ◌++◌}
use mathlib.Core.Option.{Option, none, some}
use mathlib.Core.Logic.{inl, inr}
use native.Mathlib.Omega.{arith}
use svrx_pinry.Prelude.Tests.{◌==◌, if◌then◌else◌, ltb, Bool-cases, some_inj, if_elim}

-- A predicate on every element, by recursion.
abbrev pub All {ℓ κ} : {A : Type ℓ} → (A → Type κ) → List A → Type κ
All P [] = Unit
All P (x ∷ xs) = P x × All P xs

module _ {ℓ} {A : Type ℓ} where
  abbrev pub length : List A → ℕ
  length [] = 0
  length (x ∷ xs) = suc (length xs)

  -- `[x for x in xs if test(x)]`
  abbrev pub select : (A → Bool) → List A → List A
  select test [] = []
  select test (x ∷ xs) = let rest = select test xs in if test x then x ∷ rest else rest

  -- `any(test(x) for x in xs)`
  abbrev pub any : (A → Bool) → List A → Bool
  any test [] = false
  any test (x ∷ xs) = test x || any test xs

  -- `all(test(x) for x in xs)`
  abbrev pub all : (A → Bool) → List A → Bool
  all test [] = true
  all test (x ∷ xs) = test x && all test xs

  -- `.filter(...).first()`
  abbrev pub find : (A → Bool) → List A → Option A
  find test [] = none
  find test (x ∷ xs) = let rest = find test xs in if test x then some x else rest

  pub length-append : (xs ys : List A) → length (xs ++ ys) ≡ length xs + length ys
  length-append [] ys = omega arith
  length-append (x ∷ xs) ys = omega (arith, length-append xs ys)

-- `x in xs`
abbrev pub contains : ℕ → List ℕ → Bool
contains a [] = false
contains a (x ∷ xs) = a == x || contains a xs

-- `sorted(set(xs))`: insertion into an ascending list with no repetition.
unfoldable pub insert_sorted : ℕ → List ℕ → List ℕ
insert_sorted a [] = a ∷ []
insert_sorted a (x ∷ xs) =
    let rest = insert_sorted a xs in
    if ltb a x then a ∷ x ∷ xs else if a == x then x ∷ xs else x ∷ rest

unfoldable pub sorted_set : List ℕ → List ℕ
unfolding insert_sorted
sorted_set [] = []
sorted_set (x ∷ xs) = insert_sorted x (sorted_set xs)

pub contains-insert_sorted :
    (a b : ℕ) (xs : List ℕ) → contains a (insert_sorted b xs) ≡ (a == b || contains a xs)
unfolding insert_sorted
contains-insert_sorted a b [] = refl
contains-insert_sorted a b (x ∷ xs) = ground (arith, contains-insert_sorted a b xs)

pub contains-sorted_set : (a : ℕ) (xs : List ℕ) → contains a (sorted_set xs) ≡ contains a xs
unfolding sorted_set
contains-sorted_set a [] = refl
contains-sorted_set a (x ∷ xs) =
    ground (arith, contains-insert_sorted a x (sorted_set xs), contains-sorted_set a xs)

pub All-map {ℓ κ κ'} :
    {A : Type ℓ} {P : A → Type κ} {Q : A → Type κ'} (xs : List A)
    → ((x : A) → P x → Q x)
    → All P xs
    → All Q xs
All-map [] f h = tt
All-map {P} {Q} (x ∷ xs) f (h, hs) = (f x h, All-map {P = P} {Q = Q} xs f hs)

-- What `find` returns meets the test, and is one of the elements.
pub find-All {ℓ κ} :
    {A : Type ℓ} (P : A → Type κ) (test : A → Bool) (xs : List A) {x : A}
    → All P xs
    → find test xs ≡ some x
    → P x × (test x ≡ true)
find-All P test [] h f = cc
find-All P test (y ∷ ys) {x} (h, hs) f = elim (Bool-cases (test y)) [
  | inl e ↦
      let found : some y ≡ some x = rw e at f in
      subst (λ z. P z × (test z ≡ true)) (some_inj found) (h, e)
  | inr e ↦ find-All P test ys hs (rw e at f)
]

pub find-any {ℓ} :
    {A : Type ℓ} (test : A → Bool) (xs : List A) {x : A}
    → find test xs ≡ some x
    → any test xs ≡ true
find-any test [] f = cc
find-any test (y ∷ ys) {x} f = ground (arith, find-any test ys {x = x})

pub contains-select :
    (a : ℕ) (test : ℕ → Bool) (xs : List ℕ)
    → contains a (select test xs) ≡ (contains a xs && test a)
contains-select a test [] = refl
contains-select a test (x ∷ xs) = ground (arith, contains-select a test xs)

pub All-select {ℓ κ} :
    {A : Type ℓ} (P : A → Type κ) (test : A → Bool) (xs : List A)
    → All P xs
    → All P (select test xs)
All-select P test [] h = tt
All-select P test (x ∷ xs) (h, hs) =
    if_elim (All P) (test x) _ _ (h, All-select P test xs hs) (All-select P test xs hs)

pub All-always {ℓ κ} : {A : Type ℓ} (P : A → Type κ) (xs : List A) → ((x : A) → P x) → All P xs
All-always P [] f = tt
All-always P (x ∷ xs) f = (f x, All-always P xs f)

pub All-both {ℓ κ ι} :
    {A : Type ℓ} (P : A → Type κ) (Q : A → Type ι) (xs : List A)
    → All P xs
    → All Q xs
    → All (λ x. P x × Q x) xs
All-both P Q [] h k = tt
All-both P Q (x ∷ xs) (h, hs) (k, ks) = ((h, k), All-both P Q xs hs ks)

pub all-All {ℓ} :
    {A : Type ℓ} (test : A → Bool) (xs : List A) → all test xs ≡ true → All (λ x. test x ≡ true) xs
all-All test [] h = tt
all-All test (x ∷ xs) h = elim (Bool-cases (test x)) [
  | inl e ↦ (e, all-All test xs (rw e at h))
  | inr e ↦ (ground arith, all-All test xs (ground arith))
]
