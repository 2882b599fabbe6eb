-- ===== src/Boards/Membership.antt =====
-- `PinMembershipService` of core/services/pin_membership.py. Each method runs in one transaction, so
-- that one that raises leaves the tables as they were; the row locks serialise the methods.
use svrx_pinry.Prelude.{
  ℕ, Bool, ◌&&◌, ◌||◌, not, Option, none, some, List, [], ◌∷◌, ◌++◌, map, ◌==◌, if◌then◌else◌, any,
  find, select, contains, sorted_set, length, Result, done, refused, refuse_if, ◌>>=◌,
}
use svrx_pinry.Database.{Pin, Board, Db}
use svrx_pinry.Boards.Members.{is_member, add_members, remove_members}
use svrx_pinry.Boards.Cover.{pin_of, clear_if_removed}

pub data MembershipCode : Type 0 where
  board_not_found pin_not_found pin_membership_changed user_missing : MembershipCode

-- `_lock_owned_boards`.
unfoldable pub lock_owned_boards : ℕ → List ℕ → Db → Result MembershipCode (List Board)
lock_owned_boards user board_ids db =
    let expected = sorted_set board_ids in
    let boards = select (λ b. b.submitter == user && contains b.pk expected) db.boards in
    refuse_if (not (length boards == length expected)) board_not_found (done boards)

-- `_lock_pins`.
unfoldable pub lock_pins : List ℕ → Db → List Pin
lock_pins pin_ids db = select (λ p. contains p.pk (sorted_set pin_ids)) db.pins

-- `len({pin.pk: pin for pin in pins}) != len(set(requested_ids))`.
unfoldable pub some_missing : List Pin → List ℕ → Bool
some_missing pins requested =
    not (length (sorted_set (map (λ p. p.pk) pins)) == length (sorted_set requested))

-- What a method reports of one pin.
pub data MemberStatus : Type 0 where
  unchanged added moved : MemberStatus

-- `add_owned_pins`.
unfoldable pub add_owned_pins : ℕ → ℕ → List ℕ → Db → Result MembershipCode (Db × List MemberStatus)
unfolding lock_owned_boards lock_pins some_missing
add_owned_pins user board_id requested db = do
  boards ← lock_owned_boards user (board_id ∷ []) db
  let pins = lock_pins requested db
  refuse_if (some_missing pins requested || any (λ p. not (p.submitter == user)) pins) pin_not_found
      (let existing = is_member db.through board_id in
        let to_add = select (λ id. not (existing id)) requested in
        done (
          record db { through = add_members board_id to_add db.through },
          map (λ id. if existing id then unchanged else added) requested,
        ))

-- The writes of `move_pins`, by the source's row as it was locked.
unfoldable pub move_members : Board → ℕ → List ℕ → Db → Db × List MemberStatus
unfolding clear_if_removed
move_members source target requested db =
    let in_source = is_member db.through source.pk in
    let to_remove = select in_source requested in
    let to_add = select (λ id. not (is_member db.through target id)) requested in
    let db' = (clear_if_removed source to_remove db).0 in
    (
      record db' {
        through = add_members target to_add (remove_members source.pk to_remove db'.through);
      },
      map (λ id. if in_source id then moved else unchanged) requested,
    )

-- `move_pins`; the source is among the locked boards, since every expected key is found.
unfoldable pub move_pins : ℕ → ℕ → ℕ → List ℕ → Db → Result MembershipCode (Db × List MemberStatus)
unfolding lock_owned_boards lock_pins some_missing move_members
move_pins user source_id target_id requested db = do
  boards ← lock_owned_boards user (source_id ∷ target_id ∷ []) db
  let pins = lock_pins requested db
  refuse_if (some_missing pins requested || any (λ p. p.private && not (p.submitter == user)) pins)
      pin_not_found
      (refuse_if
        (any
          (λ id. not (is_member db.through source_id id) && not (is_member db.through target_id id))
          requested)
        pin_membership_changed
        (elim (find (λ b. b.pk == source_id) boards) [
          | none ↦ refused board_not_found
          | some source ↦ done (move_members source target_id requested db)
        ]))

-- The writes of `update_board_membership`, by the board's row as it was locked.
unfoldable pub change_members : ℕ → Board → List ℕ → List ℕ → Db → Db
unfolding lock_pins clear_if_removed
change_members user board add_ids remove_ids db =
    let pins = lock_pins (add_ids ++ remove_ids) db in
    let visible =
      λ (id : ℕ). any (λ p. p.pk == id && (not p.private || p.submitter == user)) pins in
    let existed = is_member db.through board.pk in
    let additions = select visible add_ids in
    let removals = select visible remove_ids in
    let db' = record db { through = add_members board.pk additions db.through } in
    let db'' = (clear_if_removed board (select existed removals) db').0 in
    record db'' { through = remove_members board.pk removals db''.through }

-- `update_board_membership`.
unfoldable pub update_board_membership : ℕ → ℕ → List ℕ → List ℕ → Db → Result MembershipCode Db
unfolding lock_owned_boards change_members
update_board_membership user board_id add_ids remove_ids db = do
  boards ← lock_owned_boards user (board_id ∷ []) db
  elim (find (λ b. b.pk == board_id) boards) [
    | none ↦ refused board_not_found
    | some board ↦ done (change_members user board add_ids remove_ids db)
  ]

-- `add_new_pin_to_locked_boards`.
unfoldable pub add_new_pin_to_locked_boards : ℕ → List Board → Db → Db
add_new_pin_to_locked_boards pin [] db = db
add_new_pin_to_locked_boards pin (b ∷ bs) db =
    add_new_pin_to_locked_boards pin bs
      (record db { through = add_members b.pk (pin ∷ []) db.through })

-- `lock_source_board_and_pin`.
unfoldable pub lock_source_board_and_pin : ℕ → ℕ → Db → Option Board × Option Pin
lock_source_board_and_pin board pin db = (find (λ b. b.pk == board) db.boards, pin_of pin db.pins)

-- The deletions of `delete_board`: the relation's rows that were read, then the board with what
-- rows of it are left.
unfoldable pub drop_board : ℕ → Db → Db
drop_board board db =
    let member_ids = map (λ t. t.pin) (select (λ t. t.board == board) db.through) in
    let rows = select (λ t. not (t.board == board && contains t.pin member_ids)) db.through in
    record db {
      through = select (λ t. not (t.board == board)) rows;
      boards = select (λ b. not (b.pk == board)) db.boards;
    }

-- `delete_board`.
unfoldable pub delete_board : ℕ → ℕ → Db → Result MembershipCode Db
unfolding lock_owned_boards drop_board
delete_board user board_id db =
    refuse_if (not (contains user db.users)) user_missing
      (do boards ← lock_owned_boards user (board_id ∷ []) db; done (drop_board board_id db))
