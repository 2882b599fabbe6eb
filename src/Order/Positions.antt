-- ===== src/Order/Positions.antt =====
-- The positions that a saved order gives to the boards (core/services/board_ordering.py): different
-- ones to different boards, in the order of the request.
use svrx_pinry.Prelude.{
  ℕ, suc, ◌≤◌, ◌<◌, ◌≡◌, refl, sym, ap, ◌∙◌, inl, inr, true, false, List, [], ◌∷◌, ◌==◌,
  if◌then◌else◌, contains, insert_sorted, sorted_set, contains-sorted_set, Asc, sorted_set-Asc,
  contains-above, length, Bool-cases, arith, ◌≢◌,
}
use svrx_pinry.Order.Service.{position}

-- No element stands twice.
abbrev pub Distinct : List ℕ → Type 0
Distinct [] = Unit
Distinct (x ∷ xs) = (contains x xs ≡ false) × Distinct xs

length-insert_sorted : (a : ℕ) (xs : List ℕ) → length (insert_sorted a xs) ≤ suc (length xs)
unfolding insert_sorted
length-insert_sorted a [] = omega arith
length-insert_sorted a (x ∷ xs) = ground (arith, length-insert_sorted a xs)

length-sorted_set : (xs : List ℕ) → length (sorted_set xs) ≤ length xs
unfolding sorted_set
length-sorted_set [] = omega arith
length-sorted_set (x ∷ xs) =
    let a = length-insert_sorted x (sorted_set xs) in let b = length-sorted_set xs in omega arith

insert_sorted-absent :
    (a : ℕ) (xs : List ℕ) → contains a xs ≡ false → length (insert_sorted a xs) ≡ suc (length xs)
unfolding insert_sorted
insert_sorted-absent a [] h = refl
insert_sorted-absent a (x ∷ xs) h = ground (arith, insert_sorted-absent a xs)

-- Rising lists, from above `n`.
abbrev pub Rising : ℕ → List ℕ → Type 0
Rising n [] = Unit
Rising n (x ∷ xs) = (n < x) × Rising x xs

Rising-absent : (a n : ℕ) (xs : List ℕ) → Rising n xs → a ≤ n → contains a xs ≡ false
Rising-absent a n [] h le = refl
Rising-absent a n (x ∷ xs) (h, hs) le =
    let rest = Rising-absent a x xs hs (omega arith) in ground arith

-- Two rising lists with the same elements are the same.
pub Rising-unique :
    (n m : ℕ) (xs ys : List ℕ)
    → Rising n xs
    → Rising m ys
    → ((a : ℕ) → contains a xs ≡ contains a ys)
    → xs ≡ ys
Rising-unique n m [] [] h k e = refl
Rising-unique n m [] (y ∷ ys) h k e = let f = e y in ground arith
Rising-unique n m (x ∷ xs) [] h k e = let f = e x in ground arith
Rising-unique n m (x ∷ xs) (y ∷ ys) (h, hs) (k, ks) e =
    let ex = e x in
    let ey = e y in
    let ax = λ (l : x < y). Rising-absent x y ys ks (omega arith) in
    let ay = λ (l : y < x). Rising-absent y x xs hs (omega arith) in
    let same : x ≡ y = ground (arith, ax, ay) in
    let tails = λ (b : ℕ). elim (Bool-cases (b == x)) as (λ _. contains b xs ≡ contains b ys) [
      | inl t ↦
          let left = Rising-absent b x xs hs (ground arith) in
          let right = Rising-absent b y ys ks (ground arith) in left ∙ sym right
      | inr t ↦ let f = e b in ground arith
    ] in
    rw (same, Rising-unique x y xs ys hs ks tails) refl

-- The length of the set tells whether an element stands twice.
pub Distinct-length : (xs : List ℕ) → Distinct xs → length (sorted_set xs) ≡ length xs
unfolding sorted_set
Distinct-length [] d = refl
Distinct-length (x ∷ xs) (d, ds) =
    insert_sorted-absent x (sorted_set xs) (contains-sorted_set x xs ∙ d)
    ∙ ap (λ (n : ℕ). suc n) (Distinct-length xs ds)

insert_sorted-present :
    (a : ℕ) (xs : List ℕ) → Asc xs → contains a xs ≡ true → insert_sorted a xs ≡ xs
unfolding insert_sorted
insert_sorted-present a [] r h = cc
insert_sorted-present a (x ∷ xs) (r, rs) h =
    let later = insert_sorted-present a xs rs in
    let above = contains-above x a xs r in ground (arith, later, above)

pub length-Distinct : (xs : List ℕ) → length (sorted_set xs) ≡ length xs → Distinct xs
unfolding sorted_set
length-Distinct [] e = tt
length-Distinct (x ∷ xs) e = elim (Bool-cases (contains x xs)) [
  | inl c ↦
      let same =
        insert_sorted-present x (sorted_set xs) (sorted_set-Asc xs)
          (contains-sorted_set x xs ∙ c) in
      let small = length-sorted_set xs in
      absurd (too_small small (sym (ap (λ (l : List ℕ). length l) same) ∙ e))
  | inr c ↦
      let more = insert_sorted-absent x (sorted_set xs) (contains-sorted_set x xs ∙ c) in
      (c, length-Distinct xs (one_less (sym more ∙ e)))
]
  where
    too_small : {n m : ℕ} → n ≤ m → n ≢ suc m
    too_small h e = omega arith

    one_less : {n m : ℕ} → suc n ≡ suc m → n ≡ m
    one_less e = omega arith

pub position-absent :
    (k pk : ℕ) (ids : List ℕ) (order : ℕ)
    → contains pk ids ≡ false
    → position k pk ids order ≡ order
unfolding position
position-absent k pk [] order h = refl
position-absent k pk (id ∷ ids) order h =
    let other : (id == pk) ≡ false = ground arith in
    rw other (position-absent (suc k) pk ids order (ground arith))

pub position-first :
    (k pk : ℕ) (ids : List ℕ) (order : ℕ)
    → contains pk ids ≡ false
    → position k pk (pk ∷ ids) order ≡ k
unfolding position
position-first k pk ids order h =
    let same : (pk == pk) ≡ true = ground arith in rw same (position-absent (suc k) pk ids k h)

pub position-from :
    (k pk : ℕ) (ids : List ℕ) (order : ℕ) → contains pk ids ≡ true → k ≤ position k pk ids order
unfolding position
position-from k pk [] order h = cc
position-from k pk (id ∷ ids) order h = elim (Bool-cases (contains pk ids)) [
  | inl c ↦
      let later = position-from (suc k) pk ids (if id == pk then k else order) c in omega arith
  | inr c ↦
      let same : (id == pk) ≡ true = ground arith in
      rw same (let p = position-absent (suc k) pk ids k c in omega arith)
]

-- Different keys get different positions.
pub position-inj :
    (k x y : ℕ) (ids : List ℕ) (o p : ℕ)
    → Distinct ids
    → contains x ids ≡ true
    → contains y ids ≡ true
    → position k x ids o ≡ position k y ids p
    → x ≡ y
unfolding position
position-inj k x y [] o p d cx cy e = cc
position-inj k x y (i ∷ is) o p (d, ds) cx cy e = elim (Bool-cases (contains x is)) [
  | inl hx ↦ elim (Bool-cases (contains y is)) [
    | inl hy ↦ position-inj (suc k) x y is _ _ ds hx hy e
    | inr hy ↦
        let same : (i == y) ≡ true = ground arith in
        let low = position-from (suc k) x is (if i == x then k else o) hx in
        let high = position-absent (suc k) y is k hy in
        let e' : position (suc k) x is (if i == x then k else o) ≡ position (suc k) y is k =
          rw same at e in
        absurd (too_low low (e' ∙ high))
  ]
  | inr hx ↦ elim (Bool-cases (contains y is)) [
    | inl hy ↦
        let same : (i == x) ≡ true = ground arith in
        let low = position-from (suc k) y is (if i == y then k else p) hy in
        let high = position-absent (suc k) x is k hx in
        let e' : position (suc k) x is k ≡ position (suc k) y is (if i == y then k else p) =
          rw same at e in
        absurd (too_low low (sym e' ∙ high))
    | inr hy ↦ ground arith
  ]
]
  where
    too_low : {n : ℕ} → suc k ≤ n → n ≢ k
    too_low h e = omega arith
