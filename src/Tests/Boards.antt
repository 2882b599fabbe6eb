-- ===== src/Tests/Boards.antt =====
-- Examples for the theorems on core/services/pin_membership.py and core/services/board_cover.py.
use svrx_pinry.Prelude.{refl, [], ◌∷◌, Ensures}
use svrx_pinry.Boards.Membership.{add_owned_pins, move_pins}
use svrx_pinry.Boards.Effects.{IsAddition, add_owned_pins_lem}
use svrx_pinry.Boards.Moves.{IsMove, move_pins-IsMove}
use svrx_pinry.Tests.Data.{leased_db}

add_owned_pins_lem_example :
    Ensures
      (IsAddition 1 21 (10 ∷ 11 ∷ []) leased_db)
      (add_owned_pins 1 21 (10 ∷ 11 ∷ []) leased_db)
add_owned_pins_lem_example = add_owned_pins_lem 1 21 (10 ∷ 11 ∷ []) leased_db

move_pins-IsMove_example :
    Ensures (IsMove 20 21 (10 ∷ []) leased_db) (move_pins 1 20 21 (10 ∷ []) leased_db)
move_pins-IsMove_example = move_pins-IsMove 1 20 21 (10 ∷ []) leased_db refl
