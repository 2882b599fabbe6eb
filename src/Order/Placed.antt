-- ===== src/Order/Placed.antt =====
-- The boards after `bulk_update` (core/services/board_ordering.py), sorted again.
use svrx_pinry.Prelude.{
  ℕ, suc, ◌<◌, ◌≡◌, refl, sym, ap, subst, ◌∙◌, inl, inr, true, false, List, [], ◌∷◌, map, ◌==◌,
  ==_iff, if◌then◌else◌, if_elim, contains, All, All-map, Bool-cases, arith,
}
use svrx_pinry.Order.Service.{OrderedBoard, comes_before, insert_ordered, sort_boards, position}
use svrx_pinry.Order.Positions.{
  Distinct, Rising, Rising-unique, position-first, position-from, position-inj,
}
use svrx_pinry.Order.Saved.{orders, pks, sort-Rising, contains-orders-sort}

All-sort {κ} :
    (P : OrderedBoard → Type κ) (bs : List OrderedBoard) → All P bs → All P (sort_boards bs)
unfolding sort_boards insert_ordered
All-sort P [] h = tt
All-sort P (b ∷ bs) (h, hs) = All-insert b (sort_boards bs) h (All-sort P bs hs)
  where
    All-insert :
        (c : OrderedBoard) (cs : List OrderedBoard) → P c → All P cs → All P (insert_ordered c cs)
    All-insert c [] k ks = (k, tt)
    All-insert c (d ∷ ds) k (l, ls) =
        if_elim (All P) (comes_before c d) _ _ (k, (l, ls)) (l, All-insert c ds k ls)

-- Membership in a mapped list.
map-contains :
    (f : ℕ → ℕ) (n : ℕ) (xs : List ℕ)
    → contains n (map f xs) ≡ true
    → (x : ℕ) × (contains x xs ≡ true) × (f x ≡ n)
map-contains f n [] h = cc
map-contains f n (x ∷ xs) h = elim (Bool-cases (n == f x)) [
  | inl e ↦ (x, ground arith, sym ((==_iff n (f x)).0 e))
  | inr e ↦ let (y, c, k) = map-contains f n xs (ground arith) in (y, ground arith, k)
]

contains-map :
    (f : ℕ → ℕ) (x : ℕ) (xs : List ℕ) → contains x xs ≡ true → contains (f x) (map f xs) ≡ true
contains-map f x [] h = cc
contains-map f x (y ∷ ys) h = elim (Bool-cases (x == y)) [
  | inl e ↦
      subst (λ (n : ℕ). contains (f n) (map f (y ∷ ys)) ≡ true) (sym ((==_iff x y).0 e))
        (ground arith)
  | inr e ↦ let later = contains-map f x ys (ground arith) in ground arith
]

contains-map-subset :
    (f : ℕ → ℕ) (n : ℕ) (xs ys : List ℕ)
    → ((a : ℕ) → contains a xs ≡ true → contains a ys ≡ true)
    → contains n (map f xs) ≡ true
    → contains n (map f ys) ≡ true
contains-map-subset f n xs ys sub h =
    let (x, c, k) = map-contains f n xs h in
    subst (λ (m : ℕ). contains m (map f ys) ≡ true) k (contains-map f x ys (sub x c))

contains-map-same :
    (f : ℕ → ℕ) (n : ℕ) (xs ys : List ℕ)
    → ((a : ℕ) → contains a xs ≡ contains a ys)
    → contains n (map f xs) ≡ contains n (map f ys)
contains-map-same f n xs ys same =
    let there = contains-map-subset f n xs ys (λ a c. sym (same a) ∙ c) in
    let back = contains-map-subset f n ys xs (λ a c. same a ∙ c) in ground (arith, there, back)

position-default :
    (k pk : ℕ) (ids : List ℕ) (o p : ℕ)
    → contains pk ids ≡ true
    → position k pk ids o ≡ position k pk ids p
unfolding position
position-default k pk [] o p h = cc
position-default k pk (id ∷ ids) o p h = elim (Bool-cases (id == pk)) [
  | inl e ↦ rw e refl
  | inr e ↦ rw e (position-default (suc k) pk ids o p (ground arith))
]

-- The positions rise along the request.
map-same :
    (f g : ℕ → ℕ) (xs : List ℕ) → ((x : ℕ) → contains x xs ≡ true → f x ≡ g x) → map f xs ≡ map g xs
map-same f g [] h = refl
map-same f g (x ∷ xs) h = rw (h x (ground arith), map-same f g xs (λ y c. h y (ground arith))) refl

position-later :
    (k x i : ℕ) (is : List ℕ)
    → contains x is ≡ true
    → position k x (i ∷ is) 0 ≡ position (suc k) x is 0
unfolding position
position-later k x i is c = position-default (suc k) x is (if i == x then k else 0) 0 c

pub positions-Rising :
    (n k : ℕ) (ids : List ℕ) → n < k → Distinct ids → Rising n (map (λ x. position k x ids 0) ids)
positions-Rising n k [] h d = tt
positions-Rising n k (i ∷ is) h (d, ds) =
    let first = position-first k i is 0 d in
    let tail =
      map-same (λ x. position k x (i ∷ is) 0) (λ x. position (suc k) x is 0) is
        (λ x c. position-later k x i is c) in
    rw (first, tail) (h, positions-Rising k (suc k) is (omega arith) ds)

map-inj :
    (f : ℕ → ℕ) (ids xs ys : List ℕ)
    → ((x y : ℕ) → contains x ids ≡ true → contains y ids ≡ true → f x ≡ f y → x ≡ y)
    → All (λ x. contains x ids ≡ true) xs
    → All (λ y. contains y ids ≡ true) ys
    → map f xs ≡ map f ys
    → xs ≡ ys
map-inj f ids [] [] inj h k e = refl
map-inj f ids [] (y ∷ ys) inj h k e = cc
map-inj f ids (x ∷ xs) [] inj h k e = cc
map-inj f ids (x ∷ xs) (y ∷ ys) inj (h, hs) (k, ks) e =
    let heads : f x ≡ f y = cc in
    let tails : map f xs ≡ map f ys = cc in
    rw (inj x y h k heads, map-inj f ids xs ys inj hs ks tails) refl

All-contains :
    (ids xs : List ℕ) (y : ℕ)
    → All (λ x. contains x ids ≡ true) xs
    → contains y xs ≡ true
    → contains y ids ≡ true
All-contains ids [] y h c = cc
All-contains ids (x ∷ xs) y (h, hs) c = elim (Bool-cases (y == x)) [
  | inl e ↦ subst (λ (n : ℕ). contains n ids ≡ true) (sym ((==_iff y x).0 e)) h
  | inr e ↦ All-contains ids xs y hs (ground arith)
]

map-Distinct :
    (f : ℕ → ℕ) (ids xs : List ℕ)
    → ((x y : ℕ) → contains x ids ≡ true → contains y ids ≡ true → f x ≡ f y → x ≡ y)
    → All (λ x. contains x ids ≡ true) xs
    → Distinct xs
    → Distinct (map f xs)
map-Distinct f ids [] inj h d = tt
map-Distinct f ids (x ∷ xs) inj (h, hs) (d, ds) = (fresh, map-Distinct f ids xs inj hs ds)
  where
    clash : contains x xs ≡ true → ⊥
    clash c = true-false (sym c ∙ d)
      where
        true-false : true ≡ false → ⊥
        true-false e = cc

    fresh : contains (f x) (map f xs) ≡ false
    fresh = elim (Bool-cases (contains (f x) (map f xs))) [
      | inl e ↦
          let (y, c, k) = map-contains f (f x) xs e in
          let same = inj y x (All-contains ids xs y hs c) h k in
          absurd (clash (subst (λ (n : ℕ). contains n xs ≡ true) same c))
      | inr e ↦ e
    ]

abbrev pub place : List ℕ → OrderedBoard → OrderedBoard
place ids b = record b { display_order = position 1 b.pk ids b.display_order }

-- The boards with their new positions, where the request has just their keys.
module _ (ids : List ℕ) (mine : List OrderedBoard) (distinct : Distinct ids)
    (distinct_pks : Distinct (pks mine))
    (same : (n : ℕ) → contains n ids ≡ contains n (pks mine)) where
  abbrev pos : ℕ → ℕ
  pos x = position 1 x ids 0

  inj : (x y : ℕ) → contains x ids ≡ true → contains y ids ≡ true → pos x ≡ pos y → x ≡ y
  inj x y cx cy e = position-inj 1 x y ids 0 0 distinct cx cy e

  pks-in :
      (bs : List OrderedBoard)
      → ((n : ℕ) → contains n (pks bs) ≡ true → contains n ids ≡ true)
      → All (λ (b : OrderedBoard). contains b.pk ids ≡ true) bs
  pks-in [] h = tt
  pks-in (b ∷ bs) h = (h b.pk (ground arith), pks-in bs (λ n c. h n (ground arith)))

  orders-place :
      (bs : List OrderedBoard)
      → All (λ b. contains b.pk ids ≡ true) bs
      → orders (map (place ids) bs) ≡ map pos (pks bs)
  orders-place [] h = refl
  orders-place (b ∷ bs) (h, hs) =
      rw (position-default 1 b.pk ids b.display_order 0 h, orders-place bs hs) refl

  pks-place : (bs : List OrderedBoard) → pks (map (place ids) bs) ≡ pks bs
  pks-place [] = refl
  pks-place (b ∷ bs) = ap (λ (xs : List ℕ). b.pk ∷ xs) (pks-place bs)

  -- Each placed board has the position of its key.
  abbrev Placed : OrderedBoard → Type 0
  Placed b = (contains b.pk ids ≡ true) × (b.display_order ≡ pos b.pk)

  place-Placed :
      (bs : List OrderedBoard)
      → All (λ b. contains b.pk ids ≡ true) bs
      → All Placed (map (place ids) bs)
  place-Placed [] h = tt
  place-Placed (b ∷ bs) (h, hs) =
      ((h, position-default 1 b.pk ids b.display_order 0 h), place-Placed bs hs)

  orders-Placed : (bs : List OrderedBoard) → All Placed bs → orders bs ≡ map pos (pks bs)
  orders-Placed [] h = refl
  orders-Placed (b ∷ bs) (h, hs) = rw (h.1, orders-Placed bs hs) refl

  pub sort-place : pks (sort_boards (map (place ids) mine)) ≡ ids
  sort-place =
      let inside = pks-in mine (λ n c. same n ∙ c) in
      let moved = map (place ids) mine in
      let sorted = sort_boards moved in
      let placed : All Placed moved = place-Placed mine inside in
      let rising : Rising 0 (orders sorted) =
        sort-Rising 0 moved
          (All-map moved
            (λ b (h : Placed b).
              let low = position-from 1 b.pk ids 0 h.0 in let is = h.1 in omega arith)
            placed)
          (rw (orders-place mine inside)
            (map-Distinct pos ids (pks mine) inj (All-pks mine inside) distinct_pks)) in
      let equal : orders sorted ≡ map pos ids =
        Rising-unique 0 0 (orders sorted) (map pos ids) rising
          (positions-Rising 0 1 ids (omega arith) distinct)
          (λ n.
            contains-orders-sort n moved
            ∙ ap (λ (xs : List ℕ). contains n xs) (orders-place mine inside)
            ∙ contains-map-same pos n (pks mine) ids (λ a. sym (same a))) in
      let sorted_placed = All-sort Placed moved placed in
      map-inj pos ids (pks sorted) ids inj
        (All-pks sorted (All-map sorted (λ b (h : Placed b). h.0) sorted_placed))
        (self ids (λ n c. c)) (sym (orders-Placed sorted sorted_placed) ∙ equal)
    where
      All-pks :
          (bs : List OrderedBoard)
          → All (λ (b : OrderedBoard). contains b.pk ids ≡ true) bs
          → All (λ x. contains x ids ≡ true) (pks bs)
      All-pks [] h = tt
      All-pks (b ∷ bs) (h, hs) = (h, All-pks bs hs)

      self :
          (xs : List ℕ)
          → ((n : ℕ) → contains n xs ≡ true → contains n ids ≡ true)
          → All (λ x. contains x ids ≡ true) xs
      self [] h = tt
      self (x ∷ xs) h = (h x (ground arith), self xs (λ n c. h n (ground arith)))
