-- ===== src/Boards/Keyed.antt =====
-- The services of core/services/pin_membership.py and core/services/board_cover.py keep the primary key
-- of the boards.
use svrx_pinry.Prelude.{
  ℕ, refl, inl, inr, Bool, not, Option, none, some, List, [], ◌∷◌, ◌==◌, if_elim, find, select,
  Option-cases, Result, done, Ensures, Ensures-refuse_if, Ensures-bind, returns, stops, ◌&&◌,
  opt_eq,
}
use svrx_pinry.Database.{Board, Db, delete_pin}
use svrx_pinry.Boards.Members.{is_member}
use svrx_pinry.Boards.Cover.{
  CoverCode, pin_of, save_cover, clear_if_removed, opt_contains, is_valid_cover,
  reconcile_locked_board, set_cover_to, set_cover,
}
use svrx_pinry.Boards.Membership.{
  lock_owned_boards, add_owned_pins, move_members, move_pins, change_members,
  update_board_membership, drop_board, delete_board, add_new_pin_to_locked_boards,
}
use svrx_pinry.Boards.Invariant.{IsKeyed}
use svrx_pinry.Boards.Keys.{select-IsKeyed, update-IsKeyed}

pub save_cover-IsKeyed :
    (board : ℕ) (cover : Option ℕ) (db : Db)
    → IsKeyed db.boards
    → IsKeyed (save_cover board cover db).boards
unfolding save_cover
save_cover-IsKeyed board cover db k =
    update-IsKeyed (λ b. b.pk == board) (λ b. record b { cover_pin = cover }) (λ b. refl) db.boards
      k

clear_if_removed-IsKeyed :
    (board : Board) (removed : List ℕ) (db : Db)
    → IsKeyed db.boards
    → IsKeyed (clear_if_removed board removed db).0.boards
unfolding clear_if_removed
clear_if_removed-IsKeyed board removed db k =
    if_elim (λ (r : Db × Bool). IsKeyed r.0.boards) (not (opt_contains board.cover_pin removed)) _ _
      k (save_cover-IsKeyed board.pk none db k)

pub reconcile_locked_board-IsKeyed :
    (board : Board) (db : Db)
    → IsKeyed db.boards
    → IsKeyed (reconcile_locked_board board db).0.boards
unfolding reconcile_locked_board
reconcile_locked_board-IsKeyed board db k = elim (Option-cases board.cover_pin) [
  | inl e ↦ rw (e, reconcile_locked_board) k
  | inr (c, e) ↦
      rw (e, reconcile_locked_board)
        (if_elim (λ (r : Db × Bool). IsKeyed r.0.boards)
          (is_valid_cover board db (pin_of c db.pins)) _ _ k
          (save_cover-IsKeyed board.pk none db k))
]

pub add_owned_pins-IsKeyed :
    (user board : ℕ) (pins : List ℕ) (db : Db)
    → IsKeyed db.boards
    → Ensures (λ r. IsKeyed r.0.boards) (add_owned_pins user board pins db)
unfolding add_owned_pins
add_owned_pins-IsKeyed user board pins db k =
    Ensures-bind (lock_owned_boards user (board ∷ []) db) _
      λ boards _. Ensures-refuse_if _ _ _ λ _. returns k

pub move_pins-IsKeyed :
    (user source target : ℕ) (pins : List ℕ) (db : Db)
    → IsKeyed db.boards
    → Ensures (λ r. IsKeyed r.0.boards) (move_pins user source target pins db)
unfolding move_pins move_members
move_pins-IsKeyed user source target pins db k =
    Ensures-bind (lock_owned_boards user (source ∷ target ∷ []) db) _ λ boards _.
      Ensures-refuse_if _ _ _ λ _. Ensures-refuse_if _ _ _ λ _.
        elim (Option-cases (find (λ b. b.pk == source) boards)) [
          | inl e ↦ rw e stops
          | inr (b, e) ↦
              rw e (
                returns (clear_if_removed-IsKeyed b (select (is_member db.through b.pk) pins) db k))
        ]

pub update_board_membership-IsKeyed :
    (user board : ℕ) (add_ids remove_ids : List ℕ) (db : Db)
    → IsKeyed db.boards
    → Ensures (λ d. IsKeyed d.boards) (update_board_membership user board add_ids remove_ids db)
unfolding update_board_membership change_members
update_board_membership-IsKeyed user board add_ids remove_ids db k =
    Ensures-bind (lock_owned_boards user (board ∷ []) db) _ λ boards _.
      elim (Option-cases (find (λ b. b.pk == board) boards)) [
        | inl e ↦ rw e stops
        | inr (b, e) ↦ rw e (returns (clear_if_removed-IsKeyed b _ _ k))
      ]

pub add_new_pin_to_locked_boards-IsKeyed :
    (pin : ℕ) (bs : List Board) (db : Db)
    → IsKeyed db.boards
    → IsKeyed (add_new_pin_to_locked_boards pin bs db).boards
unfolding add_new_pin_to_locked_boards
add_new_pin_to_locked_boards-IsKeyed pin [] db k = k
add_new_pin_to_locked_boards-IsKeyed pin (b ∷ bs) db k =
    add_new_pin_to_locked_boards-IsKeyed pin bs _ k

pub delete_board-IsKeyed :
    (user board : ℕ) (db : Db)
    → IsKeyed db.boards
    → Ensures (λ d. IsKeyed d.boards) (delete_board user board db)
unfolding delete_board drop_board
delete_board-IsKeyed user board db k = Ensures-refuse_if _ _ _ λ _.
    Ensures-bind (lock_owned_boards user (board ∷ []) db) _
      λ boards _. returns (select-IsKeyed (λ b. not (b.pk == board)) db.boards k)

pub delete_pin-IsKeyed :
    (pin : ℕ) (db : Db) → IsKeyed db.boards → IsKeyed (delete_pin pin db).boards
unfolding delete_pin
delete_pin-IsKeyed pin db k =
    update-IsKeyed (λ b. opt_eq (some pin) b.cover_pin) (λ b. record b { cover_pin = none })
      (λ b. refl) db.boards k

set_cover_to-IsKeyed :
    (user : ℕ) (board : Board) (pin : ℕ) (db : Db)
    → IsKeyed db.boards
    → Ensures (λ d. IsKeyed d.boards) (set_cover_to user board pin db)
unfolding set_cover_to
set_cover_to-IsKeyed user board pin db k = elim (Option-cases (pin_of pin db.pins)) [
  | inl e ↦ rw (e, set_cover_to) stops
  | inr (p, e) ↦
      rw (e, set_cover_to)
        (Ensures-refuse_if _ _ _
          λ _. Ensures-refuse_if _ _ _ λ _. returns (save_cover-IsKeyed board.pk (some pin) db k))
]

pub set_cover-IsKeyed :
    (user board : ℕ) (pin : Option ℕ) (db : Db)
    → IsKeyed db.boards
    → Ensures (λ d. IsKeyed d.boards) (set_cover user board pin db)
unfolding set_cover
set_cover-IsKeyed user board pin db k =
    elim (Option-cases (find (λ b. b.pk == board && b.submitter == user) db.boards)) [
      | inl e ↦ rw (e, set_cover) stops
      | inr (b, e) ↦ rw (e, set_cover) (by_pin b pin)
    ]
  where
    by_pin :
        (b : Board) (o : Option ℕ)
        → Ensures
            (λ d. IsKeyed d.boards)
            (elim o as (λ _. Result CoverCode Db) [
              | none ↦ done (save_cover b.pk none db)
              | some pin ↦ set_cover_to user b pin db
            ])
    by_pin b none = returns (save_cover-IsKeyed b.pk none db k)
    by_pin b (some p) = set_cover_to-IsKeyed user b p db k
