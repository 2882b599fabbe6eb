-- ===== src/Boards/Deletions.antt =====
-- Deleting a board or a pin (core/services/pin_membership.py, core/models.py) keeps the covers valid.
use svrx_pinry.Prelude.{
  ℕ, ◌≡◌, refl, inl, inr, Bool, true, false, ◌&&◌, not, none, some, List, [], ◌∷◌, map, ◌==◌,
  opt_eq, if◌then◌else◌, if_cases, find, select, contains, All, All-map, All-write, Ensures,
  Ensures-refuse_if, Ensures-bind, returns, arith, Bool-cases, Option-cases,
}
use svrx_pinry.Database.{Board, Through, Db, delete_pin}
use svrx_pinry.Boards.Members.{is_member}
use svrx_pinry.Boards.Membership.{lock_owned_boards, drop_board, delete_board}
use svrx_pinry.Boards.Invariant.{cover_ok, IsCovered}

-- Rows and pins that a deletion is not about.
is_member-select :
    (test : Through → Bool) (board p : ℕ) (rows : List Through)
    → ((t : Through) → (t.board == board && t.pin == p) ≡ true → test t ≡ true)
    → is_member (select test rows) board p ≡ is_member rows board p
unfolding is_member
is_member-select test board p [] keep = refl
is_member-select test board p (t ∷ rows) keep =
    ground (arith, keep t, is_member-select test board p rows keep)

find-select {ℓ} :
    {A : Type ℓ} (choose test : A → Bool) (xs : List A)
    → ((x : A) → choose x ≡ true → test x ≡ true)
    → find choose (select test xs) ≡ find choose xs
find-select choose test [] keep = refl
find-select choose test (x ∷ xs) keep = elim (Bool-cases (test x)) [
  | inl t ↦ rw (t, find-select choose test xs keep) refl
  | inr t ↦ elim (Bool-cases (choose x)) [
    | inl c ↦ ground (arith, keep x)
    | inr c ↦ rw (t, c) (find-select choose test xs keep)
  ]
]

All-selected {ℓ κ} :
    {A : Type ℓ} (P : A → Type κ) (test : A → Bool) (xs : List A)
    → All P xs
    → All (λ x. P x × (test x ≡ true)) (select test xs)
All-selected P test [] h = tt
All-selected P test (x ∷ xs) (h, hs) =
    if_cases (All (λ y. P y × (test y ≡ true))) (test x) _ _
      (λ e. ((h, e), All-selected P test xs hs)) (λ _. All-selected P test xs hs)

drop_board-cover_ok :
    (board : ℕ) (db : Db) (b : Board)
    → (b.pk == board) ≡ false
    → cover_ok db.pins db.through b ≡ true
    → cover_ok db.pins (drop_board board db).through b ≡ true
unfolding drop_board
drop_board-cover_ok board db b other h = elim (Option-cases b.cover_pin) [
  | inl e ↦ ground arith
  | inr (c, e) ↦
      let members = map (λ t. t.pin) (select (λ t. t.board == board) db.through) in
      ground (
        arith,
        is_member-select (λ t. not (t.board == board)) b.pk c
            (select (λ t. not (t.board == board && contains t.pin members)) db.through)
            (λ t k. ground arith),
        is_member-select (λ t. not (t.board == board && contains t.pin members)) b.pk c db.through
            (λ t k. ground arith),
      )
]

pub drop_board-IsCovered : (board : ℕ) (db : Db) → IsCovered db → IsCovered (drop_board board db)
unfolding drop_board
drop_board-IsCovered board db h = record {
  covers =
      All-map (select (λ b. not (b.pk == board)) db.boards)
        (λ b (k : (cover_ok db.pins db.through b ≡ true) × (not (b.pk == board) ≡ true)).
          drop_board-cover_ok board db b (ground arith) k.0)
        (All-selected (λ b. cover_ok db.pins db.through b ≡ true) (λ b. not (b.pk == board))
          db.boards h.covers);
}

-- `delete_board` keeps the covers of the other boards valid.
pub delete_board-IsCovered :
    (user board : ℕ) (db : Db) → IsCovered db → Ensures IsCovered (delete_board user board db)
unfolding delete_board
delete_board-IsCovered user board db h = Ensures-refuse_if _ _ _ λ _.
    Ensures-bind (lock_owned_boards user (board ∷ []) db) _
      λ boards _. returns (drop_board-IsCovered board db h)

delete_pin-cover_ok :
    (pin : ℕ) (db : Db) (b : Board)
    → cover_ok db.pins db.through b ≡ true
    → cover_ok
        (delete_pin pin db).pins
        (delete_pin pin db).through
        (if opt_eq (some pin) b.cover_pin then record b { cover_pin = none } else b)
      ≡ true
unfolding delete_pin
delete_pin-cover_ok pin db b h = elim (Option-cases b.cover_pin) [
  | inl e ↦ ground arith
  | inr (c, e) ↦ elim (Bool-cases (pin == c)) [
    | inl same ↦ ground arith
    | inr other ↦ ground (
      arith,
      is_member-select (λ t. not (t.pin == pin)) b.pk c db.through (λ t k. ground arith),
      find-select (λ p. p.pk == c) (λ p. not (p.pk == pin)) db.pins (λ p k. ground arith),
    )
  ]
]

-- The deletion of a pin takes it off every cover.
pub delete_pin-IsCovered : (pin : ℕ) (db : Db) → IsCovered db → IsCovered (delete_pin pin db)
unfolding delete_pin
delete_pin-IsCovered pin db h = record {
  covers =
      All-write (λ b. cover_ok db.pins db.through b ≡ true)
        (λ b. cover_ok (delete_pin pin db).pins (delete_pin pin db).through b ≡ true)
        (λ b. opt_eq (some pin) b.cover_pin) (λ b. record b { cover_pin = none }) db.boards
        (λ b. delete_pin-cover_ok pin db b) h.covers;
}
