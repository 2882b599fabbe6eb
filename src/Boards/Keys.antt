-- ===== src/Boards/Keys.antt =====
-- The primary key of the boards: what the services write keeps it.
use svrx_pinry.Prelude.{
  ◌≡◌, refl, sym, ap, Bool, List, ◌∙◌, if◌then◌else◌, if_elim, select, update, All-map, All-select,
  All-write,
}
use svrx_pinry.Database.{Board}
use svrx_pinry.Boards.Invariant.{IsStored, IsKeyed}

pub select-IsKeyed :
    (test : Board → Bool) (boards : List Board) → IsKeyed boards → IsKeyed (select test boards)
select-IsKeyed test boards h =
    All-select (λ b. IsStored b (select test boards)) test boards
      (All-map boards
        (λ b (s : IsStored b boards). All-select (λ x. x.pk ≡ b.pk → x ≡ b) test boards s) h)

module _ (test : Board → Bool) (write : Board → Board)
    (keep : (b : Board) → (write b).pk ≡ b.pk) where
  abbrev written : Board → Board
  written b = if test b then write b else b

  written-pk : (b : Board) → (written b).pk ≡ b.pk
  written-pk b = if_elim (λ (x : Board). x.pk ≡ b.pk) (test b) _ _ (keep b) refl

  update-IsStored :
      (b : Board) (boards : List Board)
      → IsStored b boards
      → IsStored (written b) (update test write boards)
  update-IsStored b boards s =
      All-write (λ x. x.pk ≡ b.pk → x ≡ b) (λ x. x.pk ≡ (written b).pk → x ≡ written b) test write
        boards (λ x same e. ap written (same (sym (written-pk x) ∙ e ∙ written-pk b))) s

  pub update-IsKeyed : (boards : List Board) → IsKeyed boards → IsKeyed (update test write boards)
  update-IsKeyed boards h =
      All-write (λ b. IsStored b boards) (λ b. IsStored b (update test write boards)) test write
        boards (λ b s. update-IsStored b boards s) h
