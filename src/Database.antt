-- ===== src/Database.antt =====
-- The tables of core/models.py that the services read and write: users, `Pin`, `Board`, the rows of
-- the relation `Board.pins` and `BatchImportItem`. A foreign key that may be NULL is an `Option`.
use svrx_pinry.Prelude.{ℕ, Bool, not, Option, none, some, List, ◌==◌, opt_eq, select, update}
use svrx_pinry.Idempotency.Rows.{Row}

pub record Pin : Type 0 where
  pub pk : ℕ
  pub submitter : ℕ
  pub private : Bool
  pub tags : List ℕ

pub record Board : Type 0 where
  pub pk : ℕ
  pub submitter : ℕ
  pub private : Bool
  pub cover_pin : Option ℕ

-- A row of the table behind `Board.pins`.
pub record Through : Type 0 where
  pub board : ℕ
  pub pin : ℕ

pub record Db : Type 0 where
  pub users : List ℕ
  pub pins : List Pin
  pub boards : List Board
  pub through : List Through
  pub items : List Row
  pub next_item_pk : ℕ

-- The row deletion behind `Pin.delete`: the relation's rows go with the pin, and the covers and the
-- import items that name it are set to NULL (`on_delete=models.SET_NULL`).
unfoldable pub delete_pin : ℕ → Db → Db
delete_pin pin db = record db {
  pins = select (λ p. not (p.pk == pin)) db.pins;
  through = select (λ t. not (t.pin == pin)) db.through;
  boards =
      update (λ b. opt_eq (some pin) b.cover_pin) (λ b. record b { cover_pin = none }) db.boards;
  items = update (λ i. opt_eq (some pin) i.pin_id) (λ i. record i { pin_id = none }) db.items;
}
