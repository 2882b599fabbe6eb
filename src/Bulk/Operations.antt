-- ===== src/Bulk/Operations.antt =====
-- `BulkPinManagementService` of core/services/bulk_pin_management.py: its five operations. The
-- deletion of one pin, tag changes and the clock are arguments.
use svrx_pinry.Prelude.{
  ℕ, suc, ◌+◌, String, Bool, true, false, ◌||◌, not, Option, none, some, List, [], ◌∷◌, map, leb,
  ◌==◌, any, select, update, contains, length, Result, done, refused, refuse_if, ◌>>=◌,
}
use svrx_pinry.Database.{Pin, Db}
use svrx_pinry.Boards.Cover.{CoverCode, pin_privacy_transition}
use svrx_pinry.Boards.Membership
use svrx_pinry.Boards.Membership.{MembershipCode, MemberStatus, add_owned_pins, move_pins}
use svrx_pinry.Bulk.Results.{
  BulkCode, internal_error, board_not_found, pin_not_found, pin_membership_changed,
  board_cover_changed, BulkOperationError, ItemStatus, deleted, updated, moved, unchanged,
  ItemResult, succeeded_with, failed_with, deadline_failure, Vendor, BulkFault,
  normalize_bulk_exception, Summary, summarize,
}

-- The parts of the process that the service only uses.
pub record Context : Type 0 where
  pub vendor : Vendor
  pub is_busy_text : String → Bool
  pub fetch_total_timeout : ℕ  -- the setting, in the clock's unit
  pub clock : ℕ → ℕ  -- the readings of `self.clock()`, one after the other

abbrev pub error_of : BulkCode → ℕ → BulkOperationError
error_of code status = record { code = code; status_code = status }

-- `_exception_failure`.
unfoldable pub exception_failure : Context → ℕ → BulkFault → ItemResult
unfolding normalize_bulk_exception
exception_failure c id fault =
    let (code, retryable) = normalize_bulk_exception c.vendor c.is_busy_text fault in
    failed_with code retryable id

-- `_owned_pins`.
unfoldable pub owned_pins : ℕ → List ℕ → Db → Result BulkOperationError (List Pin)
owned_pins user pin_ids db =
    let pins = select (λ p. contains p.pk pin_ids) db.pins in
    refuse_if (not (length pins == length pin_ids) || any (λ p. not (p.submitter == user)) pins)
      (error_of pin_not_found 404) (done pins)

-- The loop of a deletion: `attempt` is what is done for one pin before the deadline. Once the clock
-- has passed the deadline it is not read again.
module _ (c : Context) (deadline : ℕ) (attempt : ℕ → Db → Db × ItemResult) where
  unfoldable pub attempt_each : Bool → ℕ → List ℕ → Db → Db × List ItemResult
  attempt_each expired k [] db = (db, [])
  attempt_each true k (id ∷ ids) db =
      let (db', rest) = attempt_each true k ids db in (db', deadline_failure id ∷ rest)
  attempt_each false k (id ∷ ids) db = elim (leb deadline (c.clock k)) [
    | true ↦ let (db', rest) = attempt_each true (suc k) ids db in (db', deadline_failure id ∷ rest)
    | false ↦
        let (db', result) = attempt id db in
        let (db'', rest) = attempt_each false (suc k) ids db' in (db'', result ∷ rest)
  ]

-- One round of `_delete`.
unfoldable pub delete_one : Context → (ℕ → Db → Db × Option BulkFault) → ℕ → Db → Db × ItemResult
delete_one c delete id db =
    let (db', fault) = delete id db in
    (db', elim fault [ none ↦ succeeded_with deleted id | some e ↦ exception_failure c id e ])

-- `_delete`.
unfoldable pub delete_pins :
    Context
    → (ℕ → Db → Db × Option BulkFault)
    → ℕ
    → List ℕ
    → ℕ
    → Db
    → Result BulkOperationError (Db × Summary)
unfolding owned_pins
delete_pins c delete user pin_ids started_at db = do
  pins ← owned_pins user pin_ids db
  let (db', results) =
      attempt_each c (started_at + c.fetch_total_timeout) (delete_one c delete) false 0 pin_ids db
  done (db', summarize results)

-- The handler of `MembershipConflict` in `execute`; the other exception is no conflict, and the
-- view answers it as an internal error.
abbrev pub membership_error : MembershipCode → BulkOperationError
membership_error Membership.board_not_found = error_of board_not_found 404
membership_error Membership.pin_not_found = error_of pin_not_found 404
membership_error Membership.pin_membership_changed = error_of pin_membership_changed 409
membership_error Membership.user_missing = error_of internal_error 500

abbrev pub on_conflict {ℓ} : {A : Type ℓ} → Result MembershipCode A → Result BulkOperationError A
on_conflict (done a) = done a
on_conflict (refused e) = refused (membership_error e)

-- `"updated" if item_status == "added" else item_status`.
abbrev pub item_status : MemberStatus → ItemStatus
item_status Membership.unchanged = unchanged
item_status Membership.added = updated
item_status Membership.moved = moved

-- `zip(pin_ids, statuses)`.
unfoldable pub zip_results : List ℕ → List MemberStatus → List ItemResult
zip_results [] statuses = []
zip_results (id ∷ ids) [] = []
zip_results (id ∷ ids) (s ∷ ss) = succeeded_with (item_status s) id ∷ zip_results ids ss

-- `_add_to_board`.
unfoldable pub add_to_board : ℕ → ℕ → List ℕ → Db → Result BulkOperationError (Db × Summary)
unfolding zip_results
add_to_board user board_id pin_ids db = do
  r ← on_conflict (add_owned_pins user board_id pin_ids db)
  done (r.0, summarize (zip_results pin_ids r.1))

-- `_move_between_boards`.
unfoldable pub move_between_boards :
    ℕ → ℕ → ℕ → List ℕ → Db → Result BulkOperationError (Db × Summary)
unfolding zip_results
move_between_boards user source target pin_ids db = do
  r ← on_conflict (move_pins user source target pin_ids db)
  done (r.0, summarize (zip_results pin_ids r.1))

pub data TagMode : Type 0 where
  add remove replace : TagMode

-- The validated `changes` of an update: the privacy, the tags, or both.
pub record Changes : Type 0 where
  pub private : Option Bool
  pub tags : Option (TagMode × List ℕ)

-- One pin after `_apply_locked_updates`; `tag` is what the tag manager makes of the pin's tags.
unfoldable pub updated_pin : (TagMode → List ℕ → List ℕ → List ℕ) → Changes → Pin → Pin
updated_pin tag changes p =
    let p' : Pin = elim changes.private [ none ↦ p | some b ↦ record p { private = b } ] in
    elim changes.tags [
      | none ↦ p'
      | some (mode, values) ↦ record p' { tags = tag mode values p'.tags }
    ]

-- `_apply_locked_updates`: each pin of the request is written in turn.
unfoldable pub apply_locked_updates :
    (TagMode → List ℕ → List ℕ → List ℕ) → Changes → List ℕ → Db → Db
unfolding updated_pin
apply_locked_updates tag changes [] db = db
apply_locked_updates tag changes (id ∷ ids) db =
    apply_locked_updates tag changes ids
      (record db { pins = update (λ p. p.pk == id) (updated_pin tag changes) db.pins })

-- The handler of `BoardCoverError` in `_update`; no other code reaches it.
abbrev pub cover_error : CoverCode → BulkOperationError
cover_error CoverCode.board_cover_changed = error_of board_cover_changed 409
cover_error CoverCode.pin_not_found = error_of pin_not_found 404
cover_error _ = error_of internal_error 500

abbrev pub on_cover_error : Result CoverCode Db → Result BulkOperationError Db
on_cover_error (done a) = done a
on_cover_error (refused e) = refused (cover_error e)

-- `_update`.
unfoldable pub update_pins :
    (TagMode → List ℕ → List ℕ → List ℕ)
    → (Db → Db)
    → ℕ
    → List ℕ
    → Changes
    → Db
    → Result BulkOperationError (Db × Summary)
unfolding owned_pins
update_pins tag meanwhile user pin_ids changes db = do
  db' ← elim changes.private [
    | some target ↦ on_cover_error (
        pin_privacy_transition user pin_ids target meanwhile
          (λ pins. apply_locked_updates tag changes pin_ids) db)
    | none ↦
        owned_pins user pin_ids db >>= λ pins. done (apply_locked_updates tag changes pin_ids db)
  ]
  done (db', summarize (map (succeeded_with updated) pin_ids))
