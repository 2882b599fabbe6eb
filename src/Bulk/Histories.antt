-- ===== src/Bulk/Histories.antt =====
-- Every history of the operations on boards and pins, of core/services/pin_membership.py,
-- core/services/board_cover.py and core/services/bulk_pin_management.py, from an empty database on.
use svrx_pinry.Prelude.{
  ℕ, ◌≡◌, refl, Bool, Option, none, List, ◌==◌, find, All-map, done, Ensures-done,
}
use svrx_pinry.Database.{Pin, Board, Db, delete_pin}
use svrx_pinry.Boards.Cover.{pin_of, reconcile_locked_board, set_cover}
use svrx_pinry.Boards.Membership.{
  MemberStatus, add_owned_pins, move_pins, update_board_membership, add_new_pin_to_locked_boards,
  delete_board,
}
use svrx_pinry.Boards.Invariant.{IsCovered, IsStored, IsKeyed}
use svrx_pinry.Boards.Keyed.{
  reconcile_locked_board-IsKeyed, add_owned_pins-IsKeyed, move_pins-IsKeyed,
  update_board_membership-IsKeyed, add_new_pin_to_locked_boards-IsKeyed, delete_board-IsKeyed,
  delete_pin-IsKeyed, set_cover-IsKeyed,
}
use svrx_pinry.Boards.Covers.{
  add_owned_pins-IsCovered, move_pins-IsCovered, update_board_membership-IsCovered,
  add_new_pin_to_locked_boards-IsCovered,
}
use svrx_pinry.Boards.Chosen.{set_cover-IsCovered}
use svrx_pinry.Boards.Deletions.{delete_board-IsCovered, delete_pin-IsCovered}
use svrx_pinry.Bulk.Results.{Summary}
use svrx_pinry.Bulk.Operations.{TagMode, Changes, update_pins}
use svrx_pinry.Bulk.Privacy.{update_pins-IsCovered}
use svrx_pinry.Bulk.Keeps.{
  insert_pin, insert_board, insert_pin-cover_ok, insert_board-IsKeyed,
  reconcile_locked_board-IsCovered, update_pins-IsKeyed,
}

-- The operations that succeeded, one after the other; a board's own privacy is not edited.
pub data BoardReach (a : Db) : Db → Type 0 where
  here : BoardReach a a
  new_pin :
      {b : Db} (p : Pin)
      → BoardReach a b
      → pin_of p.pk b.pins ≡ none
      → BoardReach a (insert_pin p b)
  new_board :
      {b : Db} (pk user : ℕ) (private : Bool)
      → BoardReach a b
      → find (λ x. x.pk == pk) b.boards ≡ none
      → BoardReach a (insert_board pk user private b)
  adds :
      {b c : Db} (user board : ℕ) (pins : List ℕ) (statuses : List MemberStatus)
      → BoardReach a b
      → add_owned_pins user board pins b ≡ done (c, statuses)
      → BoardReach a c
  moves :
      {b c : Db} (user source target : ℕ) (pins : List ℕ) (statuses : List MemberStatus)
      → BoardReach a b
      → move_pins user source target pins b ≡ done (c, statuses)
      → BoardReach a c
  edits :
      {b c : Db} (user board : ℕ) (add_ids remove_ids : List ℕ)
      → BoardReach a b
      → update_board_membership user board add_ids remove_ids b ≡ done c
      → BoardReach a c
  imports :
      {b : Db} (pin : ℕ) (bs : List Board)
      → BoardReach a b
      → BoardReach a (add_new_pin_to_locked_boards pin bs b)
  covers :
      {b c : Db} (user board : ℕ) (pin : Option ℕ)
      → BoardReach a b
      → set_cover user board pin b ≡ done c
      → BoardReach a c
  reconciles :
      {b : Db} (board : Board)
      → BoardReach a b
      → IsStored board b.boards
      → BoardReach a (reconcile_locked_board board b).0
  drops :
      {b c : Db} (user board : ℕ)
      → BoardReach a b
      → delete_board user board b ≡ done c
      → BoardReach a c
  deletes : {b : Db} (pin : ℕ) → BoardReach a b → BoardReach a (delete_pin pin b)
  updates :
      {b c : Db} (tag : TagMode → List ℕ → List ℕ → List ℕ) (meanwhile : Db → Db) (user : ℕ)
      (pins : List ℕ) (changes : Changes) (summary : Summary)
      → BoardReach a b
      → BoardReach a (meanwhile b)
      → update_pins tag meanwhile user pins changes b ≡ done (c, summary)
      → BoardReach a c

pub record IsGood (db : Db) : Type 0 where
  pub covered : IsCovered db
  pub keyed : IsKeyed db.boards

-- From a database where every cover is valid and the keys of the boards are unique, every history of new
-- pins and boards, of the operations of the membership and the cover service, of bulk updates (with
-- any other history while they wait for their locks) and of deletions leads to one where that holds:
-- a public board's cover is a public pin that it holds. No step edits a board's own privacy.
pub BoardReach-IsGood : {a b : Db} → BoardReach a b → IsGood a → IsGood b
BoardReach-IsGood here g = g
BoardReach-IsGood (new_pin {b} p r new) g =
    let h = BoardReach-IsGood r g in
    record {
      covered = record {
        covers =
            All-map b.boards (λ x. insert_pin-cover_ok p b.pins b.through x new) h.covered.covers;
      };
      keyed = h.keyed;
    }
BoardReach-IsGood (new_board {b} pk user private r new) g =
    let h = BoardReach-IsGood r g in
    record {
      covered = record { covers = (refl, h.covered.covers) };
      keyed = insert_board-IsKeyed pk user private b new h.keyed;
    }
BoardReach-IsGood (adds {b} user board pins statuses r e) g =
    let h = BoardReach-IsGood r g in
    record {
      covered = Ensures-done (add_owned_pins-IsCovered user board pins b h.covered) e;
      keyed = Ensures-done (add_owned_pins-IsKeyed user board pins b h.keyed) e;
    }
BoardReach-IsGood (moves {b} user source target pins statuses r e) g =
    let h = BoardReach-IsGood r g in
    record {
      covered = Ensures-done (move_pins-IsCovered user source target pins b h.keyed h.covered) e;
      keyed = Ensures-done (move_pins-IsKeyed user source target pins b h.keyed) e;
    }
BoardReach-IsGood (edits {b} user board add_ids remove_ids r e) g =
    let h = BoardReach-IsGood r g in
    record {
      covered =
          Ensures-done
            (update_board_membership-IsCovered user board add_ids remove_ids b h.keyed h.covered) e;
      keyed =
          Ensures-done (update_board_membership-IsKeyed user board add_ids remove_ids b h.keyed) e;
    }
BoardReach-IsGood (imports {b} pin bs r) g =
    let h = BoardReach-IsGood r g in
    record {
      covered = add_new_pin_to_locked_boards-IsCovered pin bs b h.covered;
      keyed = add_new_pin_to_locked_boards-IsKeyed pin bs b h.keyed;
    }
BoardReach-IsGood (covers {b} user board pin r e) g =
    let h = BoardReach-IsGood r g in
    record {
      covered = Ensures-done (set_cover-IsCovered user board pin b h.keyed h.covered) e;
      keyed = Ensures-done (set_cover-IsKeyed user board pin b h.keyed) e;
    }
BoardReach-IsGood (reconciles {b} board r stored) g =
    let h = BoardReach-IsGood r g in
    record {
      covered = reconcile_locked_board-IsCovered board b stored h.covered;
      keyed = reconcile_locked_board-IsKeyed board b h.keyed;
    }
BoardReach-IsGood (drops {b} user board r e) g =
    let h = BoardReach-IsGood r g in
    record {
      covered = Ensures-done (delete_board-IsCovered user board b h.covered) e;
      keyed = Ensures-done (delete_board-IsKeyed user board b h.keyed) e;
    }
BoardReach-IsGood (deletes {b} pin r) g =
    let h = BoardReach-IsGood r g in
    record {
      covered = delete_pin-IsCovered pin b h.covered;
      keyed = delete_pin-IsKeyed pin b h.keyed;
    }
BoardReach-IsGood (updates {b} tag meanwhile user pins changes summary r m e) g =
    let h = BoardReach-IsGood r g in
    let k = BoardReach-IsGood m g in
    record {
      covered =
          Ensures-done (update_pins-IsCovered tag meanwhile user pins changes b h.covered k.covered)
            e;
      keyed =
          Ensures-done (update_pins-IsKeyed tag meanwhile user pins changes b h.keyed k.keyed) e;
    }
