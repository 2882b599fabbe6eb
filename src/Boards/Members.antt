-- ===== src/Boards/Members.antt =====
-- The relation `Board.pins` of core/models.py as a table: Django's `add` and `remove` of its manager.
use svrx_pinry.Prelude.{
  ℕ, ◌≡◌, refl, Bool, ◌&&◌, ◌||◌, not, List, [], ◌∷◌, arith, ◌==◌, if◌then◌else◌, any, select,
  contains,
}
use svrx_pinry.Database.{Through}

-- `board.pins.filter(pk=pin).exists()`.
unfoldable pub is_member : List Through → ℕ → ℕ → Bool
is_member rows board pin = any (λ t. t.board == board && t.pin == pin) rows

-- `board.pins.add(*pins)` inserts the rows that are not there.
unfoldable pub add_members : ℕ → List ℕ → List Through → List Through
unfolding is_member
add_members board [] rows = rows
add_members board (p ∷ ps) rows =
    let rest = add_members board ps rows in
    if is_member rest board p then rest else record { board = board; pin = p } ∷ rest

-- `board.pins.remove(*pins)`.
unfoldable pub remove_members : ℕ → List ℕ → List Through → List Through
remove_members board pins rows = select (λ t. not (t.board == board && contains t.pin pins)) rows

pub is_member-add_members :
    (board b p : ℕ) (ps : List ℕ) (rows : List Through)
    → is_member (add_members board ps rows) b p
      ≡ (is_member rows b p || (board == b && contains p ps))
unfolding add_members
is_member-add_members board b p [] rows = ground arith
is_member-add_members board b p (q ∷ ps) rows =
    ground (arith, is_member-add_members board b p ps rows)

pub is_member-remove_members :
    (board b p : ℕ) (ps : List ℕ) (rows : List Through)
    → is_member (remove_members board ps rows) b p
      ≡ (is_member rows b p && not (board == b && contains p ps))
unfolding remove_members is_member
is_member-remove_members board b p ps [] = refl
is_member-remove_members board b p ps (t ∷ rows) =
    ground (arith, is_member-remove_members board b p ps rows)
