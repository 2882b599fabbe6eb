-- ===== src/Boards/Invariant.antt =====
-- The cover of a board is one of its pins, and the cover of a public board is a public pin.
use svrx_pinry.Prelude.{
  ℕ, ◌≡◌, inl, inr, Bool, true, false, ◌&&◌, ◌||◌, not, Option, none, some, List, ◌==◌,
  if◌then◌else◌, contains, All, All-map, arith, Option-cases,
}
use svrx_pinry.Database.{Pin, Board, Through, Db}
use svrx_pinry.Boards.Members.{
  is_member, add_members, remove_members, is_member-add_members, is_member-remove_members,
}
use svrx_pinry.Boards.Cover.{pin_of, opt_contains}

-- The promise about one board.
abbrev pub is_public_pin : Option Pin → Bool → Bool
is_public_pin none private = false
is_public_pin (some p) private = private || not p.private

abbrev pub cover_ok : List Pin → List Through → Board → Bool
cover_ok pins rows b = elim b.cover_pin [
  | none ↦ true
  | some c ↦ is_member rows b.pk c && is_public_pin (pin_of c pins) b.private
]

pub record IsCovered (db : Db) : Type 0 where
  pub covers : All (λ b. cover_ok db.pins db.through b ≡ true) db.boards

-- Rows of the board's key are that board: the primary key.
abbrev pub IsStored : Board → List Board → Type 0
IsStored b boards = All (λ x. x.pk ≡ b.pk → x ≡ b) boards

abbrev pub IsKeyed : List Board → Type 0
IsKeyed boards = All (λ b. IsStored b boards) boards

pub cover_ok-grow :
    (pins : List Pin) (rows rows' : List Through) (b : Board)
    → ((board p : ℕ) → is_member rows board p ≡ true → is_member rows' board p ≡ true)
    → cover_ok pins rows b ≡ true
    → cover_ok pins rows' b ≡ true
cover_ok-grow pins rows rows' b grow h = elim (Option-cases b.cover_pin) [
  | inl e ↦ ground arith
  | inr (c, e) ↦ ground (arith, grow b.pk c)
]

pub add_members-IsCovered :
    (board : ℕ) (pins : List ℕ) (db : Db)
    → IsCovered db
    → IsCovered (record db { through = add_members board pins db.through })
add_members-IsCovered board pins db h = record {
  covers =
      All-map db.boards
        (λ b.
          cover_ok-grow db.pins db.through (add_members board pins db.through) b
            (λ x p m. ground (arith, is_member-add_members board x p pins db.through)))
        h.covers;
}

-- The row of `x` after `board`'s cover was cleared, if it was among `removed`.
abbrev pub cleared : Board → List ℕ → Board → Board
cleared board removed x =
    if opt_contains board.cover_pin removed && x.pk == board.pk
    then record x { cover_pin = none }
    else x

pub cover_ok-release :
    (pins : List Pin) (rows : List Through) (board : Board) (removed removals : List ℕ) (x : Board)
    → ((p : ℕ) → board.cover_pin ≡ some p → contains p removals ≡ true → contains p removed ≡ true)
    → (x.pk ≡ board.pk → x ≡ board)
    → cover_ok pins rows x ≡ true
    → cover_ok pins (remove_members board.pk removals rows) (cleared board removed x) ≡ true
cover_ok-release pins rows board removed removals x cover same h = elim (Option-cases x.cover_pin) [
  | inl e ↦ ground arith
  | inr (c, e) ↦ ground (arith, is_member-remove_members board.pk x.pk c removals rows, cover c)
]
