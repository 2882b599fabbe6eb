-- ===== src/Bulk/Previews.antt =====
-- The selection, the preview and the guard of core/services/bulk_pin_management.py and core/models.py
-- agree on which pins of a board are exclusive to it.
use svrx_pinry.Prelude.{
  ℕ, zero, suc, ◌+◌, ◌≤◌, ◌≡◌, ◌↔◌, refl, sym, ◌∙◌, Bool, true, false, ◌&&◌, ◌||◌, not, Option,
  none, some, List, [], ◌∷◌, map, ltb, ◌==◌, find, select, count, length, Result, done, done_inj,
  refused, ◌>>=◌, Ensures, returns, stops, Ensures-weaken, Ensures-refuse_if, arith,
}
use svrx_pinry.Database.{Pin, Board, Through, Db}
use svrx_pinry.Boards.Members.{is_member}
use svrx_pinry.Boards.Cover.{pin_of}
use svrx_pinry.Boards.Membership.{lock_source_board_and_pin}
use svrx_pinry.Bulk.Results.{BulkOperationError}
use svrx_pinry.Bulk.Exclusive.{owned_board}
use svrx_pinry.Bulk.Selection.{
  board_count, board_query, is_exclusive, selection_query, insert_desc, order_by_id_desc, take,
  Selection, selected, selection_ids, DeletePreview, preview_of, board_delete_preview,
  locked_exclusive_pin_status,
}

length-select {ℓ} :
    {A : Type ℓ} (test : A → Bool) (xs : List A) → length (select test xs) ≡ count test xs
length-select test [] = refl
length-select test (x ∷ xs) = ground (arith, length-select test xs)

length-take {ℓ} :
    {A : Type ℓ} (n : ℕ) (xs : List A)
    → length (take (suc n) xs) ≤ n
    → length (take (suc n) xs) ≡ length xs
unfolding take
length-take n [] h = refl
length-take zero (x ∷ xs) h = ground arith
length-take (suc n) (x ∷ xs) h = let rest = length-take n xs (omega arith) in omega arith

length-insert_desc : (p : Pin) (ps : List Pin) → length (insert_desc p ps) ≡ suc (length ps)
unfolding insert_desc
length-insert_desc p [] = refl
length-insert_desc p (q ∷ qs) = ground (arith, length-insert_desc p qs)

length-order : (ps : List Pin) → length (order_by_id_desc ps) ≡ length ps
unfolding order_by_id_desc
length-order [] = refl
length-order (p ∷ ps) =
    let rest = length-order ps in length-insert_desc p (order_by_id_desc ps) ∙ omega arith

selected-count :
    (user max_ids : ℕ) (pins : List Pin)
    → Ensures (λ (s : Selection). s.count ≡ length pins) (selected user max_ids pins)
unfolding selected
selected-count user max_ids pins =
    Ensures-refuse_if _ _ _ λ fits.
      returns (length-take max_ids (order_by_id_desc pins) (ground arith) ∙ length-order pins)

-- A pin of the board is in at least one.
member-count :
    (board : ℕ) (p : Pin) (rows : List Through)
    → is_member rows board p.pk ≡ true
    → 1 ≤ count (λ t. t.pin == p.pk) rows
unfolding is_member
member-count board p [] h = ground arith
member-count board p (t ∷ rows) h = ground (arith, member-count board p rows)

preview-partition :
    (user : ℕ) (board : Board) (db : Db) (pins : List Pin)
    → let q =
        select
          (λ p. is_member db.through board.pk p.pk && (not p.private || p.submitter == user))
          pins in
      (preview_of user db q).exclusive_owned_count
        + (preview_of user db q).shared_owned_count
        + (preview_of user db q).non_owned_count
      ≡ length q
unfolding preview_of board_count
preview-partition user board db [] = refl
preview-partition user board db (p ∷ ps) =
    ground (arith, preview-partition user board db ps, member-count board.pk p db.through)

-- The preview of a board's deletion counts each pin of the board that the user may see exactly once:
-- a selection of the board, if it is not too large, has as many rows as the three counts add
-- up to, and a selection of its exclusive pins as many as the first of them.
pub board_delete_preview-counts :
    (max_ids user board_id : ℕ) (db : Db) (preview : DeletePreview)
    → board_delete_preview user board_id db ≡ done preview
    → Ensures
        (λ s.
          s.count
          ≡ preview.exclusive_owned_count + preview.shared_owned_count + preview.non_owned_count)
        (selection_ids max_ids user
          (record { board_id = some board_id; exclusive_owned = false })
          db)
      × Ensures
          (λ s. s.count ≡ preview.exclusive_owned_count)
          (selection_ids max_ids user
            (record { board_id = some board_id; exclusive_owned = true })
            db)
unfolding board_delete_preview selection_ids selection_query board_query preview_of board_count
board_delete_preview-counts max_ids user board_id db preview h =
    by_board (owned_board user board_id db) h
  where
    by_board :
        (r : Result BulkOperationError Board)
        → (r >>= λ board. done (preview_of user db (board_query user board db))) ≡ done preview
        → Ensures
            (λ s.
              s.count
              ≡ preview.exclusive_owned_count + preview.shared_owned_count
                + preview.non_owned_count)
            ((r >>= λ board. done (some board)) >>= λ (b : Option Board).
              selection_query user b false db >>= λ pins. selected user max_ids pins)
          × Ensures
              (λ s. s.count ≡ preview.exclusive_owned_count)
              ((r >>= λ board. done (some board)) >>= λ (b : Option Board).
                selection_query user b true db >>= λ pins. selected user max_ids pins)
    by_board (refused e) h = (stops, stops)
    by_board (done board) h =
        let q = board_query user board db in
        let same : preview_of user db q ≡ preview = done_inj h in
        rw (← same) (
          Ensures-weaken _ _ (selected user max_ids q)
              (λ s e. e ∙ sym (preview-partition user board db db.pins))
              (selected-count user max_ids q),
          Ensures-weaken _ _ (selected user max_ids (select (is_exclusive user db) q))
              (λ s e. e ∙ length-select (is_exclusive user db) q)
              (selected-count user max_ids (select (is_exclusive user db) q)),
        )

-- Reading two rows is enough to see whether there are several.
two-boards :
    (test : Through → Bool) (rows : List Through)
    → ltb 1 (length (take 2 (map (λ t. t.board) (select test rows)))) ≡ ltb 1 (count test rows)
unfolding take
two-boards test rows = rw (← length-select test rows) (by_length (select test rows))
  where
    by_length :
        (ts : List Through) → ltb 1 (length (take 2 (map (λ t. t.board) ts))) ≡ ltb 1 (length ts)
    by_length [] = refl
    by_length (t ∷ []) = refl
    by_length (t ∷ u ∷ ts) = ground arith

-- For a board that exists and a pin that is the one of its key, the guard of an exclusive
-- deletion lets the pin through exactly if the board holds it, the user owns it, and it stands on
-- one board only, which is the filter of the selection of exclusive pins.
pub exclusive-status :
    (user board_id : ℕ) (db : Db) (board : Board) (p : Pin)
    → find (λ b. b.pk == board_id) db.boards ≡ some board
    → pin_of p.pk db.pins ≡ some p
    → (locked_exclusive_pin_status user board_id p.pk db ≡ none)
      ↔ ((is_member db.through board_id p.pk && is_exclusive user db p) ≡ true)
unfolding locked_exclusive_pin_status lock_source_board_and_pin board_count
exclusive-status user board_id db board p b q =
    rw (b, locked_exclusive_pin_status, lock_source_board_and_pin)
      (rw q (
        ground
          (arith, two-boards (λ t. t.pin == p.pk) db.through, member-count board_id p db.through)))
