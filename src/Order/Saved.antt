-- ===== src/Order/Saved.antt =====
-- After `save` (core/services/board_ordering.py) the order that is read is the order that was asked for.
use svrx_pinry.Prelude.{
  ℕ, suc, ◌<◌, ◌≡◌, refl, ap, ◌∙◌, false, ◌||◌, List, [], ◌∷◌, map, ◌==◌, if_cases, contains,
  length, All, arith,
}
use svrx_pinry.Order.Service.{OrderedBoard, comes_before, insert_ordered, sort_boards}
use svrx_pinry.Order.Positions.{Distinct, Rising}

abbrev pub orders : List OrderedBoard → List ℕ
orders bs = map (λ b. b.display_order) bs

abbrev pub pks : List OrderedBoard → List ℕ
pks bs = map (λ b. b.pk) bs

contains-orders-insert :
    (n : ℕ) (b : OrderedBoard) (bs : List OrderedBoard)
    → contains n (orders (insert_ordered b bs)) ≡ (n == b.display_order || contains n (orders bs))
unfolding insert_ordered
contains-orders-insert n b [] = refl
contains-orders-insert n b (c ∷ cs) = ground (arith, contains-orders-insert n b cs)

pub contains-pks-insert :
    (n : ℕ) (b : OrderedBoard) (bs : List OrderedBoard)
    → contains n (pks (insert_ordered b bs)) ≡ (n == b.pk || contains n (pks bs))
unfolding insert_ordered
contains-pks-insert n b [] = refl
contains-pks-insert n b (c ∷ cs) = ground (arith, contains-pks-insert n b cs)

length-pks-insert :
    (b : OrderedBoard) (bs : List OrderedBoard)
    → length (pks (insert_ordered b bs)) ≡ suc (length (pks bs))
unfolding insert_ordered
length-pks-insert b [] = refl
length-pks-insert b (c ∷ cs) = ground (arith, length-pks-insert b cs)

pub contains-orders-sort :
    (n : ℕ) (bs : List OrderedBoard) → contains n (orders (sort_boards bs)) ≡ contains n (orders bs)
unfolding sort_boards
contains-orders-sort n [] = refl
contains-orders-sort n (b ∷ bs) =
    ground (arith, contains-orders-insert n b (sort_boards bs), contains-orders-sort n bs)

pub contains-pks-sort :
    (n : ℕ) (bs : List OrderedBoard) → contains n (pks (sort_boards bs)) ≡ contains n (pks bs)
unfolding sort_boards
contains-pks-sort n [] = refl
contains-pks-sort n (b ∷ bs) =
    ground (arith, contains-pks-insert n b (sort_boards bs), contains-pks-sort n bs)

pub length-pks-sort : (bs : List OrderedBoard) → length (pks (sort_boards bs)) ≡ length (pks bs)
unfolding sort_boards
length-pks-sort [] = refl
length-pks-sort (b ∷ bs) =
    length-pks-insert b (sort_boards bs) ∙ ap (λ (n : ℕ). suc n) (length-pks-sort bs)

insert-Rising :
    (n : ℕ) (b : OrderedBoard) (bs : List OrderedBoard)
    → n < b.display_order
    → Rising n (orders bs)
    → contains b.display_order (orders bs) ≡ false
    → Rising n (orders (insert_ordered b bs))
unfolding insert_ordered
insert-Rising n b [] h r d = (h, tt)
insert-Rising n b (c ∷ cs) h (r, rs) d =
    if_cases (λ (l : List OrderedBoard). Rising n (orders l)) (comes_before b c) _ _
      (λ e. (h, (ground arith, rs)))
      (λ e. (r, insert-Rising c.display_order b cs (ground arith) rs (ground arith)))

pub sort-Rising :
    (n : ℕ) (bs : List OrderedBoard)
    → All (λ b. n < b.display_order) bs
    → Distinct (orders bs)
    → Rising n (orders (sort_boards bs))
unfolding sort_boards
sort-Rising n [] h d = tt
sort-Rising n (b ∷ bs) (h, hs) (d, ds) =
    insert-Rising n b (sort_boards bs) h (sort-Rising n bs hs ds)
      (contains-orders-sort b.display_order bs ∙ d)
