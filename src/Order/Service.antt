-- ===== src/Order/Service.antt =====
-- `BoardOrderService` of core/services/board_ordering.py. The digest of `_version` is an argument.
use svrx_pinry.Prelude.{
  ℕ, suc, Bool, ◌&&◌, ◌||◌, not, List, [], ◌∷◌, map, ltb, ◌==◌, if◌then◌else◌, select, length,
  sorted_set, Result, done, refuse_if,
}
use svrx_pinry.Boards.Cover.{same_list}

-- The columns of `Board` that the order is about.
pub record OrderedBoard : Type 0 where
  pub pk : ℕ
  pub submitter : ℕ
  pub display_order : ℕ

-- The key `(board.display_order, -board.pk)`, as a comparison.
abbrev pub comes_before : OrderedBoard → OrderedBoard → Bool
comes_before a b =
    ltb a.display_order b.display_order || (a.display_order == b.display_order && ltb b.pk a.pk)

unfoldable pub insert_ordered : OrderedBoard → List OrderedBoard → List OrderedBoard
insert_ordered b [] = b ∷ []
insert_ordered b (c ∷ cs) =
    let rest = insert_ordered b cs in if comes_before b c then b ∷ c ∷ cs else c ∷ rest

-- `sorted(boards, key=...)`.
unfoldable pub sort_boards : List OrderedBoard → List OrderedBoard
unfolding insert_ordered
sort_boards [] = []
sort_boards (b ∷ bs) = insert_ordered b (sort_boards bs)

-- `_canonical_ids`.
unfoldable pub canonical_ids : List OrderedBoard → List ℕ
unfolding sort_boards
canonical_ids boards = map (λ b. b.pk) (sort_boards boards)

-- `Board.objects.filter(submitter=user)`.
abbrev pub own_boards : ℕ → List OrderedBoard → List OrderedBoard
own_boards user boards = select (λ b. b.submitter == user) boards

-- `_ordered_ids`.
unfoldable pub ordered_ids : ℕ → List OrderedBoard → List ℕ
unfolding canonical_ids
ordered_ids user boards = canonical_ids (own_boards user boards)

-- The display order of a board after the loop over `enumerate(board_ids, k)`.
unfoldable pub position : ℕ → ℕ → List ℕ → ℕ → ℕ
position k pk [] order = order
position k pk (id ∷ ids) order = position (suc k) pk ids (if id == pk then k else order)

-- `bulk_update` of the user's boards.
abbrev pub placed : ℕ → List ℕ → OrderedBoard → OrderedBoard
placed user ids b =
    if b.submitter == user
    then record b { display_order = position 1 b.pk ids b.display_order }
    else b

unfoldable pub write_order : ℕ → List ℕ → List OrderedBoard → List OrderedBoard
unfolding position
write_order user ids boards = map (placed user ids) boards

pub data OrderError : Type 0 where
  board_order_changed : OrderError

pub record OrderReport : Type 0 where
  pub version : ℕ
  pub board_ids : List ℕ

-- `snapshot`.
unfoldable pub snapshot : (ℕ → List ℕ → ℕ) → ℕ → List OrderedBoard → OrderReport
unfolding ordered_ids
snapshot version user boards =
    let ids = ordered_ids user boards in record { version = version user ids; board_ids = ids }

-- `save`.
unfoldable pub save_order :
    (ℕ → List ℕ → ℕ)
    → ℕ
    → ℕ
    → List ℕ
    → List OrderedBoard
    → Result OrderError (List OrderedBoard × OrderReport)
unfolding canonical_ids write_order
save_order version user given board_ids boards =
    let current_ids = canonical_ids (own_boards user boards) in
    let current_version = version user current_ids in
    if same_list board_ids current_ids
    then done (boards, record { version = current_version; board_ids = current_ids })
    else refuse_if
        (not (given == current_version)
          || not (length board_ids == length current_ids)
          || not (same_list (sorted_set board_ids) (sorted_set current_ids)))
        board_order_changed
        (done (
          write_order user board_ids boards,
          record { version = version user board_ids; board_ids = board_ids },
        ))
