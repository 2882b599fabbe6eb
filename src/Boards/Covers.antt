-- ===== src/Boards/Covers.antt =====
-- Every operation on boards and pins keeps the covers valid.
use svrx_pinry.Prelude.{
  ℕ, ◌≡◌, refl, sym, ap, inl, inr, Bool, true, false, ◌&&◌, ◌||◌, not, none, some, ==_iff, List, [],
  ◌∷◌, ◌++◌, ◌==◌, any, find, find-All, select, update, contains, contains-select, sorted_set, All,
  All-select, All-write, All-always, All-both, update-id, done, refuse_if, Ensures,
  Ensures-refuse_if, Ensures-bind, returns, stops, arith, Bool-cases, Option-cases,
}
use svrx_pinry.Database.{Board, Db}
use svrx_pinry.Boards.Members.{is_member, add_members, remove_members}
use svrx_pinry.Boards.Cover.{clear_if_removed, opt_contains}
use svrx_pinry.Boards.Membership.{
  lock_owned_boards, lock_pins, add_owned_pins, move_members, move_pins, change_members,
  update_board_membership, add_new_pin_to_locked_boards,
}
use svrx_pinry.Boards.Invariant.{
  cover_ok, IsCovered, IsStored, IsKeyed, add_members-IsCovered, cover_ok-release,
}

-- `clear_if_removed` as one conditional UPDATE.
boards-cleared :
    (board : Board) (removed : List ℕ) (db : Db)
    → (clear_if_removed board removed db).0 ≡ record db {
      boards =
          update
            (λ x. opt_contains board.cover_pin removed && x.pk == board.pk)
            (λ x. record x { cover_pin = none })
            db.boards;
    }
unfolding clear_if_removed
boards-cleared board removed db = elim (Bool-cases (opt_contains board.cover_pin removed)) [
  | inl e ↦ rw e refl
  | inr e ↦ rw e (
      ap (λ (bs : List Board). record db { boards = bs })
        (sym (
          update-id (λ (x : Board). false) (λ x. record x { cover_pin = none }) db.boards
            (All-always _ db.boards (λ x. refl)))))
]

pub release-IsCovered :
    (board : Board) (removed removals : List ℕ) (db : Db)
    → IsStored board db.boards
    → ((p : ℕ) → board.cover_pin ≡ some p → contains p removals ≡ true → contains p removed ≡ true)
    → IsCovered db
    → let db' = (clear_if_removed board removed db).0 in
      IsCovered (record db' { through = remove_members board.pk removals db'.through })
release-IsCovered board removed removals db stored cover h =
    rw (boards-cleared board removed db) (record {
      covers =
          All-write (λ x. (x.pk ≡ board.pk → x ≡ board) × (cover_ok db.pins db.through x ≡ true))
            (λ x. cover_ok db.pins (remove_members board.pk removals db.through) x ≡ true)
            (λ x. opt_contains board.cover_pin removed && x.pk == board.pk)
            (λ x. record x { cover_pin = none }) db.boards
            (λ x (same, ok).
              cover_ok-release db.pins db.through board removed removals x cover same ok)
            (All-both _ _ db.boards stored h.covers);
    })

-- A board that was found among the locked ones is stored.
locked-IsStored :
    (user : ℕ) (ids : List ℕ) (k : ℕ) (db : Db) (boards : List Board) {b : Board}
    → IsKeyed db.boards
    → lock_owned_boards user ids db ≡ done boards
    → find (λ x. x.pk == k) boards ≡ some b
    → IsStored b db.boards × (b.pk ≡ k)
unfolding lock_owned_boards refuse_if
locked-IsStored user ids k db boards {b} keyed locked f =
    let expected = sorted_set ids in
    let mine : Board → Bool = λ x. x.submitter == user && contains x.pk expected in
    let same : select mine db.boards ≡ boards = ground arith in
    let all : All (λ x. IsStored x db.boards) boards =
      rw (← same) (All-select (λ x. IsStored x db.boards) mine db.boards keyed) in
    let (stored, key) = find-All (λ x. IsStored x db.boards) (λ x. x.pk == k) boards all f in
    (stored, (==_iff b.pk k).0 key)

locked-cover_ok :
    (user : ℕ) (ids : List ℕ) (k : ℕ) (db : Db) (boards : List Board) {b : Board}
    → IsCovered db
    → lock_owned_boards user ids db ≡ done boards
    → find (λ x. x.pk == k) boards ≡ some b
    → cover_ok db.pins db.through b ≡ true
unfolding lock_owned_boards refuse_if
locked-cover_ok user ids k db boards {b} h locked f =
    let expected = sorted_set ids in
    let mine : Board → Bool = λ x. x.submitter == user && contains x.pk expected in
    let same : select mine db.boards ≡ boards = ground arith in
    let all : All (λ x. cover_ok db.pins db.through x ≡ true) boards =
      rw (← same)
        (All-select (λ x. cover_ok db.pins db.through x ≡ true) mine db.boards h.covers) in
    (find-All (λ x. cover_ok db.pins db.through x ≡ true) (λ x. x.pk == k) boards all f).0

-- `add_owned_pins` keeps the covers valid.
pub add_owned_pins-IsCovered :
    (user board_id : ℕ) (requested : List ℕ) (db : Db)
    → IsCovered db
    → Ensures (λ r. IsCovered r.0) (add_owned_pins user board_id requested db)
unfolding add_owned_pins
add_owned_pins-IsCovered user board_id requested db h =
    Ensures-bind (lock_owned_boards user (board_id ∷ []) db) _
      λ boards _. Ensures-refuse_if _ _ _ λ _. returns (add_members-IsCovered board_id _ db h)

move_members-IsCovered :
    (source : Board) (target : ℕ) (requested : List ℕ) (db : Db)
    → IsStored source db.boards
    → IsCovered db
    → IsCovered (move_members source target requested db).0
unfolding move_members
move_members-IsCovered source target requested db stored h =
    let moving = select (is_member db.through source.pk) requested in
    add_members-IsCovered target _ _
      (release-IsCovered source moving moving db stored (λ p e m. m) h)

-- `move_pins` keeps the covers valid, that of the source included.
pub move_pins-IsCovered :
    (user source target : ℕ) (requested : List ℕ) (db : Db)
    → IsKeyed db.boards
    → IsCovered db
    → Ensures (λ r. IsCovered r.0) (move_pins user source target requested db)
unfolding move_pins
move_pins-IsCovered user source target requested db keyed h =
    Ensures-bind (lock_owned_boards user (source ∷ target ∷ []) db) _ λ boards locked.
      Ensures-refuse_if _ _ _ λ _. Ensures-refuse_if _ _ _ λ _.
        elim (Option-cases (find (λ b. b.pk == source) boards)) [
          | inl e ↦ rw e stops
          | inr (b, e) ↦ rw e (
              returns (
                move_members-IsCovered b target requested db
                  (locked-IsStored user (source ∷ target ∷ []) source db boards keyed locked e).0
                  h))
        ]

change_members-IsCovered :
    (user : ℕ) (board : Board) (add_ids remove_ids : List ℕ) (db : Db)
    → IsStored board db.boards
    → cover_ok db.pins db.through board ≡ true
    → IsCovered db
    → IsCovered (change_members user board add_ids remove_ids db)
unfolding change_members
change_members-IsCovered user board add_ids remove_ids db stored ok h =
    let pins = lock_pins (add_ids ++ remove_ids) db in
    let visible : ℕ → Bool =
      λ id. any (λ p. p.pk == id && (not p.private || p.submitter == user)) pins in
    release-IsCovered board (select (is_member db.through board.pk) (select visible remove_ids))
      (select visible remove_ids)
      (record db { through = add_members board.pk (select visible add_ids) db.through }) stored
      (λ p e m.
        ground
          (arith, contains-select p (is_member db.through board.pk) (select visible remove_ids)))
      (add_members-IsCovered board.pk (select visible add_ids) db h)

-- `update_board_membership` keeps the covers valid, also where it adds and removes one pin.
pub update_board_membership-IsCovered :
    (user board_id : ℕ) (add_ids remove_ids : List ℕ) (db : Db)
    → IsKeyed db.boards
    → IsCovered db
    → Ensures IsCovered (update_board_membership user board_id add_ids remove_ids db)
unfolding update_board_membership
update_board_membership-IsCovered user board_id add_ids remove_ids db keyed h =
    Ensures-bind (lock_owned_boards user (board_id ∷ []) db) _ λ boards locked.
      elim (Option-cases (find (λ b. b.pk == board_id) boards)) [
        | inl e ↦ rw e stops
        | inr (b, e) ↦ rw e (
            returns (
              change_members-IsCovered user b add_ids remove_ids db
                (locked-IsStored user (board_id ∷ []) board_id db boards keyed locked e).0
                (locked-cover_ok user (board_id ∷ []) board_id db boards h locked e) h))
      ]

pub add_new_pin_to_locked_boards-IsCovered :
    (pin : ℕ) (bs : List Board) (db : Db)
    → IsCovered db
    → IsCovered (add_new_pin_to_locked_boards pin bs db)
unfolding add_new_pin_to_locked_boards
add_new_pin_to_locked_boards-IsCovered pin [] db h = h
add_new_pin_to_locked_boards-IsCovered pin (b ∷ bs) db h =
    add_new_pin_to_locked_boards-IsCovered pin bs _ (add_members-IsCovered b.pk (pin ∷ []) db h)
