-- ===== src/Order/Kept.antt =====
-- What `save` of core/services/board_ordering.py leaves.
use svrx_pinry.Prelude.{
  ℕ, ◌≡◌, refl, sym, ap, ◌∙◌, inl, inr, true, false, not, List, [], ◌∷◌, map, ◌==◌, ==_iff,
  if_cases, contains, sorted_set, contains-sorted_set, length, select, Bool-cases, arith, Ensures,
  Ensures-refuse_if, returns,
}
use svrx_pinry.Boards.Cover.{same_list}
use svrx_pinry.Order.Service.{
  OrderedBoard, comes_before, insert_ordered, sort_boards, canonical_ids, own_boards, ordered_ids,
  write_order, OrderReport, save_order,
}
use svrx_pinry.Order.Positions.{Distinct, Distinct-length, length-Distinct}
use svrx_pinry.Order.Saved.{pks, contains-pks-insert, contains-pks-sort}
use svrx_pinry.Order.Placed.{place, sort-place}

same_list-eq : (xs ys : List ℕ) → same_list xs ys ≡ true → xs ≡ ys
same_list-eq [] [] h = refl
same_list-eq [] (y ∷ ys) h = cc
same_list-eq (x ∷ xs) [] h = cc
same_list-eq (x ∷ xs) (y ∷ ys) h =
    let head : x ≡ y = (==_iff x y).0 (ground arith) in
    rw (head, same_list-eq xs ys (ground arith)) refl

insert-Distinct :
    (b : OrderedBoard) (bs : List OrderedBoard)
    → contains b.pk (pks bs) ≡ false
    → Distinct (pks bs)
    → Distinct (pks (insert_ordered b bs))
unfolding insert_ordered
insert-Distinct b [] h d = (refl, tt)
insert-Distinct b (c ∷ cs) h (d, ds) =
    if_cases (λ (l : List OrderedBoard). Distinct (pks l)) (comes_before b c) _ _
      (λ _. (h, (d, ds)))
      (λ _. (ground (arith, contains-pks-insert c.pk b cs), insert-Distinct b cs (ground arith) ds))

sort-Distinct : (bs : List OrderedBoard) → Distinct (pks bs) → Distinct (pks (sort_boards bs))
unfolding sort_boards
sort-Distinct [] d = tt
sort-Distinct (b ∷ bs) (d, ds) =
    insert-Distinct b (sort_boards bs) (contains-pks-sort b.pk bs ∙ d) (sort-Distinct bs ds)

module _ (user : ℕ) (ids : List ℕ) where
  own_boards-write :
      (bs : List OrderedBoard)
      → own_boards user (write_order user ids bs) ≡ map (place ids) (own_boards user bs)
  unfolding write_order
  own_boards-write [] = refl
  own_boards-write (b ∷ bs) = elim (Bool-cases (b.submitter == user)) [
    | inl e ↦ rw e (rw e (ap (λ (l : List OrderedBoard). place ids b ∷ l) (own_boards-write bs)))
    | inr e ↦ rw e (rw e (own_boards-write bs))
  ]

  others-write :
      (bs : List OrderedBoard)
      → select (λ b. not (b.submitter == user)) (write_order user ids bs)
        ≡ select (λ b. not (b.submitter == user)) bs
  unfolding write_order
  others-write [] = refl
  others-write (b ∷ bs) = elim (Bool-cases (b.submitter == user)) [
    | inl e ↦ rw e (rw e (others-write bs))
    | inr e ↦ rw e (rw e (ap (λ (l : List OrderedBoard). b ∷ l) (others-write bs)))
  ]

-- What `save` has done when it returns.
pub record IsSaved (version : ℕ → List ℕ → ℕ) (user : ℕ) (ids : List ℕ) (boards : List OrderedBoard)
    (r : List OrderedBoard × OrderReport) : Type 0 where
  pub read_back : ordered_ids user r.0 ≡ ids
  pub others :
      select (λ b. not (b.submitter == user)) r.0 ≡ select (λ b. not (b.submitter == user)) boards
  pub reported : r.1.board_ids ≡ ids
  pub versioned : r.1.version ≡ version user ids

written-IsSaved :
    (version : ℕ → List ℕ → ℕ) (user : ℕ) (ids : List ℕ) (boards : List OrderedBoard)
    → Distinct (pks (own_boards user boards))
    → (length ids == length (canonical_ids (own_boards user boards))) ≡ true
    → same_list (sorted_set ids) (sorted_set (canonical_ids (own_boards user boards))) ≡ true
    → IsSaved version user ids boards
        (write_order user ids boards, record { version = version user ids; board_ids = ids })
unfolding ordered_ids canonical_ids
written-IsSaved version user ids boards d len sets =
    let mine = own_boards user boards in
    let current = pks (sort_boards mine) in
    let same_sets = same_list-eq (sorted_set ids) (sorted_set current) sets in
    let distinct : Distinct ids = length-Distinct ids (
      ap (λ (l : List ℕ). length l) same_sets
      ∙ Distinct-length current (sort-Distinct mine d)
      ∙ sym ((==_iff (length ids) (length current)).0 len)) in
    let same = λ (n : ℕ).
      sym (contains-sorted_set n ids)
      ∙ ap (λ (l : List ℕ). contains n l) same_sets
      ∙ contains-sorted_set n current
      ∙ contains-pks-sort n mine in
    record {
      read_back = rw (own_boards-write user ids boards) (sort-place ids mine distinct d same);
      others = others-write user ids boards;
      reported = refl;
      versioned = refl;
    }

-- A saved order, if it is not refused and the keys of the user's boards are unique, is the order that
-- is read afterwards, under the version that is reported with it; the boards of the other users stay
-- as they were. This includes a request that is the current order already, whatever its version.
pub save_order-IsSaved :
    (version : ℕ → List ℕ → ℕ) (user given : ℕ) (ids : List ℕ) (boards : List OrderedBoard)
    → Distinct (pks (own_boards user boards))
    → Ensures (IsSaved version user ids boards) (save_order version user given ids boards)
unfolding save_order ordered_ids
save_order-IsSaved version user given ids boards d =
    if_cases (Ensures (IsSaved version user ids boards))
      (same_list ids (canonical_ids (own_boards user boards))) _ _
      (λ e.
        let same = same_list-eq ids (canonical_ids (own_boards user boards)) e in
        returns (record {
          read_back = sym same;
          others = refl;
          reported = sym same;
          versioned = ap (λ (l : List ℕ). version user l) (sym same);
        }))
      (λ _. Ensures-refuse_if _ _ _ λ checked.
        returns (written-IsSaved version user ids boards d (ground arith) (ground arith)))
