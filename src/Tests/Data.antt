-- ===== src/Tests/Data.antt =====
-- A small database for the examples: one user with two pins, two boards, and an item under a lease.
use svrx_pinry.Prelude.{ℕ, ◌*◌, refl, true, false, none, some, [], ◌∷◌, arith}
use svrx_pinry.Idempotency.Rows.{Instant, Row, ClaimResult}
use svrx_pinry.Idempotency.Store.{IdempotencyStore, claimed_result, valid_pending}
use svrx_pinry.Idempotency.Claim.{new_item}
use svrx_pinry.Idempotency.Steps.{Reach, here}
use svrx_pinry.Idempotency.Invariant.{IsValid}
use svrx_pinry.Boards.Invariant.{IsCovered, IsKeyed}
use svrx_pinry.Boards.Members.{is_member}
use svrx_pinry.Database.{Db}

abbrev pub at_second : ℕ → Instant
at_second n = record { micros = n * 1000000; aware = true }

abbrev pub a_store : IdempotencyStore
a_store = record { lease_seconds = 30 }

abbrev pub alone : ℕ → Db → Db
alone k db = db

pub alone-Reach : (k : ℕ) (db : Db) → Reach db (alone k db)
alone-Reach k db = here

-- User 1, item 3 of batch 7 with the fingerprint 5, under the lease 100 until second 30.
abbrev pub leased_row : Row
leased_row = new_item 1 7 3 5 100 (at_second 30) (at_second 0) 1

abbrev pub leased_db : Db
leased_db = record {
  users = 1 ∷ [];
  pins =
      record { pk = 10; submitter = 1; private = false; tags = [] }
      ∷ record { pk = 11; submitter = 1; private = false; tags = [] }
      ∷ [];
  boards =
      record { pk = 20; submitter = 1; private = false; cover_pin = some 10 }
      ∷ record { pk = 21; submitter = 1; private = false; cover_pin = none }
      ∷ [];
  through =
      record { board = 20; pin = 10 }
      ∷ record { board = 20; pin = 11 }
      ∷ record { board = 21; pin = 11 }
      ∷ [];
  items = leased_row ∷ [];
  next_item_pk = 2;
}

abbrev pub owner : ClaimResult
owner = claimed_result 1 100 1

pub leased_db-IsValid : IsValid leased_db
unfolding valid_pending
leased_db-IsValid = record { fresh = (omega arith, tt); shaped = (refl, tt) }

pub leased_db-IsCovered : IsCovered leased_db
unfolding is_member
leased_db-IsCovered = record { covers = (refl, (refl, tt)) }

pub leased_db-IsKeyed : IsKeyed leased_db.boards
leased_db-IsKeyed =
    ((λ e. refl, (λ e. ground arith, tt)), ((λ e. ground arith, (λ e. refl, tt)), tt))
