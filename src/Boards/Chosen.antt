-- ===== src/Boards/Chosen.antt =====
-- The operations of core/services/board_cover.py that choose a cover, or follow the privacy of a pin,
-- keep the covers valid.
use svrx_pinry.Prelude.{
  ℕ, ◌≡◌, refl, sym, subst, inl, inr, true, ◌&&◌, Option, none, some, ==_iff, ◌==◌, if_cases, find,
  find-All, All-write, All-both, Result, done, Ensures, Ensures-refuse_if, returns, stops, arith,
  Option-cases,
}
use svrx_pinry.Database.{Board, Db}
use svrx_pinry.Boards.Cover.{CoverCode, pin_of, save_cover, set_cover, set_cover_to}
use svrx_pinry.Boards.Invariant.{cover_ok, IsCovered, IsStored, IsKeyed}

-- A new cover: no other board's row changes.
pub save_cover-IsCovered :
    (board : Board) (cover : Option ℕ) (db : Db)
    → IsStored board db.boards
    → cover_ok db.pins db.through (record board { cover_pin = cover }) ≡ true
    → IsCovered db
    → IsCovered (save_cover board.pk cover db)
unfolding save_cover
save_cover-IsCovered board cover db stored ok h = record {
  covers =
      All-write (λ x. (x.pk ≡ board.pk → x ≡ board) × (cover_ok db.pins db.through x ≡ true))
        (λ x. cover_ok db.pins db.through x ≡ true) (λ x. x.pk == board.pk)
        (λ x. record x { cover_pin = cover }) db.boards
        (λ x (same, ok').
          if_cases (λ z. cover_ok db.pins db.through z ≡ true) (x.pk == board.pk) _ _
            (λ e.
              subst
                (λ (z : Board). cover_ok db.pins db.through (record z { cover_pin = cover }) ≡ true)
                (sym (same ((==_iff x.pk board.pk).0 e))) ok)
            (λ _. ok'))
        (All-both _ _ db.boards stored h.covers);
}

set_cover_to-IsCovered :
    (user : ℕ) (board : Board) (pin : ℕ) (db : Db)
    → IsStored board db.boards
    → IsCovered db
    → Ensures IsCovered (set_cover_to user board pin db)
unfolding set_cover_to
set_cover_to-IsCovered user board pin db stored h = elim (Option-cases (pin_of pin db.pins)) [
  | inl e ↦ rw (e, set_cover_to) stops
  | inr (p, e) ↦
      rw (e, set_cover_to)
        (Ensures-refuse_if _ _ _ λ a.
          Ensures-refuse_if _ _ _
            λ b. returns (save_cover-IsCovered board (some pin) db stored (ground arith) h))
]

-- `set_cover` accepts only a cover that is valid.
pub set_cover-IsCovered :
    (user board_id : ℕ) (pin : Option ℕ) (db : Db)
    → IsKeyed db.boards
    → IsCovered db
    → Ensures IsCovered (set_cover user board_id pin db)
unfolding set_cover
set_cover-IsCovered user board_id pin db keyed h =
    elim (Option-cases (find (λ b. b.pk == board_id && b.submitter == user) db.boards)) [
      | inl e ↦ rw (e, set_cover) stops
      | inr (b, e) ↦
          let stored = (find-All (λ x. IsStored x db.boards) _ db.boards keyed e).0 in
          rw (e, set_cover) (by_pin b stored pin)
    ]
  where
    by_pin :
        (b : Board)
        → IsStored b db.boards
        → (o : Option ℕ)
        → Ensures IsCovered (elim o as (λ _. Result CoverCode Db) [
          | none ↦ done (save_cover b.pk none db)
          | some pin ↦ set_cover_to user b pin db
        ])
    by_pin b stored none = returns (save_cover-IsCovered b none db stored refl h)
    by_pin b stored (some p) = set_cover_to-IsCovered user b p db stored h
