-- ===== src/Bulk/Exclusive.antt =====
-- The deletion of the pins that are exclusive to a board, in core/services/bulk_pin_management.py.
use svrx_pinry.Prelude.{
  ℕ, ◌+◌, Bool, true, false, ◌&&◌, none, some, List, ◌==◌, if◌then◌else◌, find, select, contains,
  Result, done, refused, ◌>>=◌,
}
use svrx_pinry.Database.{Pin, Board, Db}
use svrx_pinry.Boards.Cover.{pin_of}
use svrx_pinry.Bulk.Results.{
  BulkCode, internal_error, shared_pin, non_owned_pin, source_membership_changed, board_not_found,
  BulkOperationError, deleted, ItemResult, succeeded_with, preserved_with, failed_with, BulkFault,
  Summary, summarize,
}
use svrx_pinry.Bulk.Operations.{Context, error_of, exception_failure, attempt_each}

-- What `delete_if_exclusive_to_board` reports of a pin, or raises.
pub data ExclusiveOutcome : Type 0 where
  was_deleted : ExclusiveOutcome
  was_preserved : BulkCode → ExclusiveOutcome
  unexpected : ExclusiveOutcome
  faulted : BulkFault → ExclusiveOutcome

-- `_PRESERVED_CODES`
abbrev pub is_preserved_code : BulkCode → Bool
is_preserved_code shared_pin = true
is_preserved_code non_owned_pin = true
is_preserved_code source_membership_changed = true
is_preserved_code _ = false

unfoldable pub exclusive_result : Context → ℕ → ExclusiveOutcome → ItemResult
unfolding exception_failure
exclusive_result c id was_deleted = succeeded_with deleted id
exclusive_result c id (was_preserved code) =
    if is_preserved_code code then preserved_with code id else failed_with internal_error false id
exclusive_result c id unexpected = failed_with internal_error false id
exclusive_result c id (faulted e) = exception_failure c id e

-- One round of `_delete_if_exclusive_to_board`; `existing` are the pins read before the loop.
unfoldable pub delete_exclusive_one :
    Context → List Pin → (ℕ → Db → Db × ExclusiveOutcome) → ℕ → Db → Db × ItemResult
delete_exclusive_one c existing delete id db = elim (pin_of id existing) [
  | none ↦ (db, preserved_with source_membership_changed id)
  | some pin ↦ let (db', outcome) = delete id db in (db', exclusive_result c id outcome)
]

-- `_owned_board`.
unfoldable pub owned_board : ℕ → ℕ → Db → Result BulkOperationError Board
owned_board user board_id db =
    elim (find (λ b. b.pk == board_id && b.submitter == user) db.boards) [
      | none ↦ refused (error_of board_not_found 404)
      | some b ↦ done b
    ]

-- `_delete_if_exclusive_to_board`.
unfoldable pub delete_if_exclusive_to_board :
    Context
    → (ℕ → Db → Db × ExclusiveOutcome)
    → ℕ
    → ℕ
    → List ℕ
    → ℕ
    → Db
    → Result BulkOperationError (Db × Summary)
unfolding owned_board
delete_if_exclusive_to_board c delete user board_id pin_ids started_at db = do
  board ← owned_board user board_id db
  let existing = select (λ p. contains p.pk pin_ids) db.pins
  let (db', results) =
      attempt_each c (started_at + c.fetch_total_timeout) (delete_exclusive_one c existing delete)
        false 0 pin_ids db
  done (db', summarize results)
