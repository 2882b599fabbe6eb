-- ===== src/Boards/Cover.antt =====
-- `BoardCoverService` of core/services/board_cover.py. A board's cover is kept in its row.
use svrx_pinry.Prelude.{
  ℕ, Bool, true, false, ◌&&◌, ◌||◌, not, Option, none, some, List, [], ◌∷◌, map, ltb, ◌==◌, opt_eq,
  if◌then◌else◌, find, select, update, contains, sorted_set, length, Result, done, refused,
  refuse_if,
}
use svrx_pinry.Database.{Pin, Board, Db}
use svrx_pinry.Boards.Members.{is_member}

pub data CoverCode : Type 0 where
  board_not_found pin_not_found board_cover_changed board_cover_invalid board_cover_private_pin :
      CoverCode

-- `Pin.objects.filter(pk=pk).first()`.
abbrev pub pin_of : ℕ → List Pin → Option Pin
pin_of pk pins = find (λ p. p.pk == pk) pins

-- `board.cover_pin = cover` and `board.save(update_fields=("cover_pin",))`.
unfoldable pub save_cover : ℕ → Option ℕ → Db → Db
save_cover board cover db = record db {
  boards = update (λ b. b.pk == board) (λ b. record b { cover_pin = cover }) db.boards;
}

-- The test `valid` of `reconcile_locked_board`, for the cover that was read.
unfoldable pub is_valid_cover : Board → Db → Option Pin → Bool
is_valid_cover board db none = false
is_valid_cover board db (some cover) =
    is_member db.through board.pk cover.pk && (board.private || not cover.private)

-- `reconcile_locked_board`: whether it cleared the cover.
unfoldable pub reconcile_locked_board : Board → Db → Db × Bool
unfolding save_cover is_valid_cover
reconcile_locked_board board db = elim board.cover_pin [
  | none ↦ (db, false)
  | some cover ↦
      if is_valid_cover board db (pin_of cover db.pins)
      then (db, false)
      else (save_cover board.pk none db, true)
]

-- `value in collection` for a column that may be NULL.
abbrev pub opt_contains : Option ℕ → List ℕ → Bool
opt_contains none pins = false
opt_contains (some p) pins = contains p pins

-- `clear_if_removed`, for the board's row as it was locked.
unfoldable pub clear_if_removed : Board → List ℕ → Db → Db × Bool
unfolding save_cover
clear_if_removed board removed db =
    if not (opt_contains board.cover_pin removed)
    then (db, false)
    else (save_cover board.pk none db, true)

-- The filter `private=False, cover_pin_id__in=ids` of the boards.
abbrev pub is_public_cover : List ℕ → Board → Bool
is_public_cover ids b = not b.private && opt_contains b.cover_pin ids

-- The keys of those boards, where the pins become private; they are read twice.
unfoldable pub probed_boards : Bool → List ℕ → Db → List ℕ
probed_boards target_private ids db =
    if target_private
    then sorted_set (map (λ b. b.pk) (select (is_public_cover ids) db.boards))
    else []

abbrev pub same_list : List ℕ → List ℕ → Bool
same_list [] [] = true
same_list [] (y ∷ ys) = false
same_list (x ∷ xs) [] = false
same_list (x ∷ xs) (y ∷ ys) = x == y && same_list xs ys

-- The UPDATE that ends the transition.
unfoldable pub clear_public_covers : Bool → List ℕ → List ℕ → Db → Db
clear_public_covers target_private current ids db =
    if target_private
    then record db {
      boards =
          update (λ b. contains b.pk current && is_public_cover ids b)
            (λ b. record b { cover_pin = none }) db.boards;
    }
    else db

-- `pin_privacy_transition`: `meanwhile` is what others commit between the first query and the
-- locks, and `body` is the block under `with`.
unfoldable pub pin_privacy_transition :
    ℕ → List ℕ → Bool → (Db → Db) → (List Pin → Db → Db) → Db → Result CoverCode Db
unfolding probed_boards clear_public_covers
pin_privacy_transition user pin_ids target_private meanwhile body db =
    let ordered = sorted_set pin_ids in
    let probed = probed_boards target_private ordered db in
    let db' = meanwhile db in
    let pins = select (λ p. contains p.pk ordered && p.submitter == user) db'.pins in
    let current = probed_boards target_private ordered db' in
    refuse_if (not (length pins == length ordered)) pin_not_found (
      refuse_if (not (same_list current probed)) board_cover_changed
        (done (clear_public_covers target_private current ordered (body pins db'))))

-- `eligible_pins`, for the user of the request, if one is signed in.
unfoldable pub eligible_pins : Board → Option ℕ → Db → List Pin
eligible_pins board user db =
    let members = select (λ p. is_member db.through board.pk p.pk) db.pins in
    if not board.private
    then select (λ p. not p.private) members
    else select (λ p. not p.private || opt_eq (some p.submitter) user) members

-- `order_by("pk").first()`.
unfoldable pub first_by_pk : List Pin → Option Pin
first_by_pk [] = none
first_by_pk (p ∷ ps) = elim (first_by_pk ps) [
  | none ↦ some p
  | some q ↦ if ltb q.pk p.pk then some q else some p
]

-- `resolve`: the pin to show, and its key where it was chosen by hand.
unfoldable pub resolve : Board → Option ℕ → Db → Option Pin × Option ℕ
unfolding eligible_pins first_by_pk
resolve board user db =
    let pins = eligible_pins board user db in
    let manual : Option Pin = elim board.cover_pin [
      | none ↦ none
      | some cover ↦ pin_of cover pins
    ] in
    elim manual [ some pin ↦ (some pin, some pin.pk) | none ↦ (first_by_pk pins, none) ]

-- `board.private` and `board.cover_pin` come from the row that `set_cover` has locked.
unfoldable pub set_cover_to : ℕ → Board → ℕ → Db → Result CoverCode Db
unfolding save_cover
set_cover_to user board pin_id db = elim (pin_of pin_id db.pins) [
  | none ↦ refused board_cover_invalid
  | some pin ↦
      refuse_if
        (not (is_member db.through board.pk pin_id) || (pin.private && not (pin.submitter == user)))
        board_cover_invalid
        (refuse_if (not board.private && pin.private) board_cover_private_pin
          (done (save_cover board.pk (some pin_id) db)))
]

-- `set_cover(user, board_id, pin_id)`.
unfoldable pub set_cover : ℕ → ℕ → Option ℕ → Db → Result CoverCode Db
unfolding set_cover_to
set_cover user board_id pin_id db =
    elim (find (λ b. b.pk == board_id && b.submitter == user) db.boards) [
      | none ↦ refused board_not_found
      | some board ↦ elim pin_id [
        | none ↦ done (save_cover board.pk none db)
        | some pin ↦ set_cover_to user board pin db
      ]
    ]
