-- ===== src/Tests/Bulk.antt =====
-- Examples for the theorems on core/services/bulk_pin_management.py.
use svrx_pinry.Prelude.{
  ℕ, ◌+◌, ◌*◌, ◌≡◌, ◌↔◌, refl, true, false, ◌&&◌, Option, none, some, [], ◌∷◌, Ensures,
}
use svrx_pinry.Boards.Invariant.{IsCovered}
use svrx_pinry.Boards.Members.{is_member}
use svrx_pinry.Bulk.Results.{Vendor, BulkFault}
use svrx_pinry.Bulk.Operations.{Context, update_pins, delete_one, delete_pins}
use svrx_pinry.Bulk.Exclusive.{delete_if_exclusive_to_board, ExclusiveOutcome, owned_board}
use svrx_pinry.Bulk.Privacy.{update_pins-IsCovered}
use svrx_pinry.Bulk.Accounts.{IsDeletion, delete_pins-IsDeletion}
use svrx_pinry.Bulk.Gone.{IsExclusiveDeletion, delete_if_exclusive_to_board-IsExclusiveDeletion}
use svrx_pinry.Bulk.Selection.{
  is_exclusive, selection_ids, board_delete_preview, locked_exclusive_pin_status, board_query,
  preview_of, board_count, parse_selection_query,
}
use svrx_pinry.Bulk.Previews.{board_delete_preview-counts, exclusive-status}
use svrx_pinry.Database.{Db, delete_pin}
use svrx_pinry.Tests.Data.{leased_db, leased_db-IsCovered, leased_db-IsKeyed}
use svrx_pinry.Bulk.Queries.{IsSelection, parse_selection_query-IsSelection}
use svrx_pinry.Bulk.Histories.{here, deletes, IsGood, BoardReach-IsGood}

update_pins-IsCovered_example :
    Ensures
      (λ r. IsCovered r.0)
      (update_pins
        (λ mode new old. new)
        (λ db. db)
        1
        (10 ∷ [])
        (record { private = some true; tags = none })
        leased_db)
update_pins-IsCovered_example =
    update_pins-IsCovered (λ mode new old. new) (λ db. db) 1 (10 ∷ [])
      (record { private = some true; tags = none }) leased_db leased_db-IsCovered
      leased_db-IsCovered

-- The clock passes the deadline after one pin.
abbrev context : Context
context = record {
  vendor = Vendor.sqlite;
  is_busy_text = λ t. true;
  fetch_total_timeout = 15;
  clock = λ k. (k + 1) * 10;
}

abbrev delete_any : ℕ → Db → Db × Option BulkFault
delete_any id db = (delete_pin id db, none)

delete_pins-IsDeletion_example :
    Ensures
      (IsDeletion context (delete_one context delete_any) (10 ∷ 11 ∷ []) 0 leased_db)
      (delete_pins context delete_any 1 (10 ∷ 11 ∷ []) 0 leased_db)
delete_pins-IsDeletion_example =
    delete_pins-IsDeletion context delete_any 1 (10 ∷ 11 ∷ []) 0 leased_db

abbrev delete_exclusive : ℕ → Db → Db × ExclusiveOutcome
delete_exclusive id db = (delete_pin id db, ExclusiveOutcome.was_deleted)

delete_if_exclusive_to_board-IsExclusiveDeletion_example :
    Ensures
      (IsExclusiveDeletion context delete_exclusive (10 ∷ 77 ∷ []) 0 leased_db)
      (delete_if_exclusive_to_board context delete_exclusive 1 20 (10 ∷ 77 ∷ []) 0 leased_db)
delete_if_exclusive_to_board-IsExclusiveDeletion_example =
    delete_if_exclusive_to_board-IsExclusiveDeletion context delete_exclusive 1 20 (10 ∷ 77 ∷ []) 0
      leased_db

board_delete_preview-counts_example :
    Ensures
      (λ s. s.count ≡ 1 + 1 + 0)
      (selection_ids 50000 1 (record { board_id = some 20; exclusive_owned = false }) leased_db)
    × Ensures
        (λ s. s.count ≡ 1)
        (selection_ids 50000 1 (record { board_id = some 20; exclusive_owned = true }) leased_db)
unfolding board_delete_preview owned_board board_query preview_of board_count is_member
board_delete_preview-counts_example =
    board_delete_preview-counts 50000 1 20 leased_db
      (record { exclusive_owned_count = 1; shared_owned_count = 1; non_owned_count = 0 }) refl

exclusive-status_example : (locked_exclusive_pin_status 1 20 10 leased_db ≡ none) ↔ (
    (is_member leased_db.through 20 10
      && is_exclusive 1 leased_db (record { pk = 10; submitter = 1; private = false; tags = [] }))
    ≡ true)
exclusive-status_example =
    exclusive-status 1 20 leased_db
      (record { pk = 20; submitter = 1; private = false; cover_pin = some 10 })
      (record { pk = 10; submitter = 1; private = false; tags = [] }) refl refl

-- The cover of board 20 is deleted.
abbrev shrunk_db : Db
shrunk_db = (delete_pin 10 leased_db)

BoardReach-IsGood_example : IsGood shrunk_db
BoardReach-IsGood_example =
    BoardReach-IsGood {a = leased_db} {b = shrunk_db} (deletes 10 here)
      (record { covered = leased_db-IsCovered; keyed = leased_db-IsKeyed })

parse_selection_query-IsSelection_example :
    Ensures IsSelection
      (parse_selection_query (("board_id", "20" ∷ []) ∷ ("exclusive_owned", "true" ∷ []) ∷ []))
parse_selection_query-IsSelection_example =
    parse_selection_query-IsSelection
      (("board_id", "20" ∷ []) ∷ ("exclusive_owned", "true" ∷ []) ∷ [])
