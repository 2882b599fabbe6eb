-- ===== src/Bulk/Keeps.antt =====
-- What new pins and boards, the reconciliation of a cover and a bulk update keep of the boards
-- (core/services/board_cover.py, core/services/bulk_pin_management.py).
use svrx_pinry.Prelude.{
  ℕ, ◌≡◌, ◌≢◌, refl, sym, subst, ==_iff, inl, inr, Bool, true, false, ◌&&◌, Option, none, some,
  List, [], ◌∷◌, ◌==◌, if_elim, find, contains, All, All-map, All-both, Option-cases, Bool-cases,
  Result, done, ◌>>=◌, Ensures, Ensures-refuse_if, Ensures-bind, returns, stops, arith,
}
use svrx_pinry.Database.{Pin, Board, Through, Db}
use svrx_pinry.Boards.Cover.{
  CoverCode, pin_of, is_valid_cover, reconcile_locked_board, is_public_cover, clear_public_covers,
  pin_privacy_transition,
}
use svrx_pinry.Boards.Invariant.{cover_ok, IsCovered, IsStored, IsKeyed}
use svrx_pinry.Boards.Keys.{update-IsKeyed}
use svrx_pinry.Boards.Chosen.{save_cover-IsCovered}
use svrx_pinry.Bulk.Results.{BulkOperationError, Summary}
use svrx_pinry.Bulk.Operations.{
  TagMode, Changes, apply_locked_updates, owned_pins, update_pins, on_cover_error,
}
use svrx_pinry.Bulk.Privacy.{boards-apply}

-- A new pin has a new key.
abbrev pub insert_pin : Pin → Db → Db
insert_pin p db = record db { pins = p ∷ db.pins }

-- A new board has a new key and no cover.
abbrev pub insert_board : ℕ → ℕ → Bool → Db → Db
insert_board pk user private db = record db {
  boards = record { pk = pk; submitter = user; private = private; cover_pin = none } ∷ db.boards;
}

pub insert_pin-cover_ok :
    (p : Pin) (pins : List Pin) (rows : List Through) (b : Board)
    → pin_of p.pk pins ≡ none
    → cover_ok pins rows b ≡ true
    → cover_ok (p ∷ pins) rows b ≡ true
insert_pin-cover_ok p pins rows b new h = elim (Option-cases b.cover_pin) [
  | inl e ↦ ground arith
  | inr (c, e) ↦
      let same = λ (t : (p.pk == c) ≡ true).
        subst (λ (n : ℕ). pin_of n pins ≡ none) ((==_iff p.pk c).0 t) new in
      ground (arith, same)
]

find-none {ℓ} :
    {A : Type ℓ} (test : A → Bool) (xs : List A)
    → find test xs ≡ none
    → All (λ x. test x ≡ false) xs
find-none test [] h = tt
find-none test (x ∷ xs) h = elim (Bool-cases (test x)) [
  | inl t ↦ ground arith
  | inr t ↦ (t, find-none test xs (rw t at h))
]

pub insert_board-IsKeyed :
    (pk user : ℕ) (private : Bool) (db : Db)
    → find (λ x. x.pk == pk) db.boards ≡ none
    → IsKeyed db.boards
    → IsKeyed (insert_board pk user private db).boards
insert_board-IsKeyed pk user private db new k =
    let fresh = find-none (λ x. x.pk == pk) db.boards new in
    (
      (λ e. refl, All-map db.boards (λ x (f : (x.pk == pk) ≡ false) e. absurd (unlike f e)) fresh),
      All-map db.boards
          (λ b (f : ((b.pk == pk) ≡ false) × IsStored b db.boards).
            (λ e. absurd (unlike f.0 (sym e)), f.1))
          (All-both _ _ db.boards fresh k),
    )
  where
    unlike : {x : ℕ} → (x == pk) ≡ false → x ≢ pk
    unlike f e = ground arith

pub reconcile_locked_board-IsCovered :
    (board : Board) (db : Db)
    → IsStored board db.boards
    → IsCovered db
    → IsCovered (reconcile_locked_board board db).0
unfolding reconcile_locked_board
reconcile_locked_board-IsCovered board db stored h = elim (Option-cases board.cover_pin) [
  | inl e ↦ rw (e, reconcile_locked_board) h
  | inr (c, e) ↦
      rw (e, reconcile_locked_board)
        (if_elim (λ (r : Db × Bool). IsCovered r.0) (is_valid_cover board db (pin_of c db.pins)) _ _
          h (save_cover-IsCovered board none db stored refl h))
]

cleared-IsKeyed :
    (t : Bool) (current ids : List ℕ) (db : Db)
    → IsKeyed db.boards
    → IsKeyed (clear_public_covers t current ids db).boards
unfolding clear_public_covers
cleared-IsKeyed t current ids db k =
    if_elim (λ (d : Db). IsKeyed d.boards) t _ db
      (update-IsKeyed (λ b. contains b.pk current && is_public_cover ids b)
        (λ b. record b { cover_pin = none }) (λ b. refl) db.boards k)
      k

-- `on_cover_error` and what follows keep the boards of the result.
then-IsKeyed :
    {E : Type 0} (r : Result E Db) (f : Db → Summary)
    → Ensures (λ d. IsKeyed d.boards) r
    → Ensures (λ (x : Db × Summary). IsKeyed x.0.boards) (r >>= λ d. done (d, f d))
then-IsKeyed _ f (returns h) = returns h
then-IsKeyed _ f stops = stops

on_cover_error-IsKeyed :
    (r : Result CoverCode Db)
    → Ensures (λ d. IsKeyed d.boards) r
    → Ensures (λ d. IsKeyed d.boards) (on_cover_error r)
on_cover_error-IsKeyed _ (returns h) = returns h
on_cover_error-IsKeyed _ stops = stops

pub update_pins-IsKeyed :
    (tag : TagMode → List ℕ → List ℕ → List ℕ) (meanwhile : Db → Db) (user : ℕ) (ids : List ℕ)
    (changes : Changes) (db : Db)
    → IsKeyed db.boards
    → IsKeyed (meanwhile db).boards
    → Ensures (λ r. IsKeyed r.0.boards) (update_pins tag meanwhile user ids changes db)
unfolding update_pins pin_privacy_transition
update_pins-IsKeyed tag meanwhile user ids changes db k m =
    then-IsKeyed _ _ (by_change changes.private)
  where
    by_change :
        (o : Option Bool)
        → Ensures
            (λ d. IsKeyed d.boards)
            (elim o as (λ _. Result BulkOperationError Db) [
              | some target ↦ on_cover_error (
                  pin_privacy_transition user ids target meanwhile
                    (λ pins. apply_locked_updates tag changes ids)
                    db)
              | none ↦
                  owned_pins user ids db >>= λ pins. done (apply_locked_updates tag changes ids db)
            ])
    by_change none =
        Ensures-bind (owned_pins user ids db) _
          λ pins _. returns (rw (boards-apply tag changes ids db) k)
    by_change (some target) = on_cover_error-IsKeyed _ (
        Ensures-refuse_if _ _ _ λ _. Ensures-refuse_if _ _ _ λ _. returns (
          cleared-IsKeyed target _ _ (apply_locked_updates tag changes ids (meanwhile db))
            (rw (boards-apply tag changes ids (meanwhile db)) m)))
