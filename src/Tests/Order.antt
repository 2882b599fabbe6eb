-- ===== src/Tests/Order.antt =====
-- An example for the theorem on core/services/board_ordering.py.
use svrx_pinry.Prelude.{refl, List, [], ◌∷◌, Ensures}
use svrx_pinry.Order.Service.{OrderedBoard, save_order}
use svrx_pinry.Order.Kept.{IsSaved, save_order-IsSaved}

-- Three boards of user 1 with no order yet, and one of user 2.
abbrev boards : List OrderedBoard
boards =
    record { pk = 5; submitter = 1; display_order = 0 }
    ∷ record { pk = 6; submitter = 2; display_order = 0 }
    ∷ record { pk = 7; submitter = 1; display_order = 0 }
    ∷ record { pk = 8; submitter = 1; display_order = 0 }
    ∷ []

save_order-IsSaved_example :
    Ensures
      (IsSaved (λ user ids. 9) 1 (7 ∷ 8 ∷ 5 ∷ []) boards)
      (save_order (λ user ids. 9) 1 9 (7 ∷ 8 ∷ 5 ∷ []) boards)
save_order-IsSaved_example =
    save_order-IsSaved (λ user ids. 9) 1 9 (7 ∷ 8 ∷ 5 ∷ []) boards (refl, (refl, (refl, tt)))
