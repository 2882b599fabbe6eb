-- ===== src/Idempotency/Steps.antt =====
-- Every atomic write to the items as a step, and what others do meanwhile as a sequence of steps.
use svrx_pinry.Prelude.{ℕ, List, ◌∷◌, ◌≡◌, true, Option, some, update}
use svrx_pinry.Idempotency.Rows.{Instant, ItemState, Row, safe_code, ClaimResult}
use svrx_pinry.Idempotency.Claim.{reclaimable, reclaimed, new_item, create_item}
use svrx_pinry.Idempotency.Owner.{Reported, stored, reported, fence, record_failure, record_success}
use svrx_pinry.Database.{Pin, Board, Through, Db, delete_pin}

-- A `StoredError` was built by its constructor, so its code has the safe format.
abbrev pub IsSafe : Reported → Type 0
IsSafe (stored e) = safe_code e.code ≡ true
IsSafe (reported code retryable) = Unit

-- The UPDATE of `_reclaim`, by a row that was read at any earlier time.
abbrev pub reclaim_update : Row → Instant → ItemState → ℕ → Instant → Db → Db
reclaim_update read now expected uuid expires db = record db {
  items = update (reclaimable read now expected) (reclaimed read now uuid expires) db.items;
}

-- The creation of a pin, which may be put on boards and become their cover; the items stay.
abbrev pub add_pin : Pin → List Board → List Through → Db → Db
add_pin pin boards through db = record db {
  pins = pin ∷ db.pins;
  boards = boards;
  through = through;
}

pub data Step (db : Db) : Db → Type 0 where
  creates :
      (user batch_id client_item_id fingerprint uuid : ℕ) (expires created : Instant) (db' : Db)
      → expires.aware ≡ true
      → create_item (new_item user batch_id client_item_id fingerprint uuid expires created) db
        ≡ some db'
      → Step db db'
  reclaims :
      (read : Row) (now : Instant) (expected : ItemState) (uuid : ℕ) (expires : Instant)
      → expires.aware ≡ true
      → Step db (reclaim_update read now expected uuid expires db)
  fences : (c : ClaimResult) (now : Instant) → Step db (fence c now db).0
  fails :
      (c : ClaimResult) (error : Reported) (now : Instant)
      → IsSafe error
      → Step db (record_failure c error now db).0
  succeeds :
      (c : ClaimResult) (pin : Option ℕ) (now : Instant) → Step db (record_success c pin now db).0
  deletes_pin : (pin : ℕ) → Step db (delete_pin pin db)
  adds_pin :
      (pin : Pin) (boards : List Board) (through : List Through)
      → Step db (add_pin pin boards through db)

pub data Reach (db : Db) : Db → Type 0 where
  here : Reach db db
  next : {a b : Db} → Reach db a → Step a b → Reach db b

pub Reach-trans : {a b c : Db} → Reach a b → Reach b c → Reach a c
Reach-trans r here = r
Reach-trans r (next s st) = next (Reach-trans r s) st

-- What every step keeps holds after any history.
pub Reach-keeps {ℓ} :
    {a b : Db} (P : Db → Type ℓ) → ((c d : Db) → Step c d → P c → P d) → Reach a b → P a → P b
Reach-keeps P keep here h = h
Reach-keeps P keep (next r st) h = keep _ _ st (Reach-keeps P keep r h)
