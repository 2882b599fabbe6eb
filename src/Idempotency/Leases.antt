-- ===== src/Idempotency/Leases.antt =====
-- A lease that was ended or taken over stays lost: its owner's writes change nothing any more.
use svrx_pinry.Prelude.{
  ℕ, ◌<◌, ◌≡◌, refl, Bool, true, false, ◌&&◌, ◌||◌, not, Option, none, some, All, All-map,
  All-update, update-id, count-zero, ltb, ◌==◌, ok, arith,
}
use svrx_pinry.Idempotency.Rows.{Instant, is_pending, Row, ClaimResult, StoredError}
use svrx_pinry.Idempotency.Store.{owned_pending, pin_owned}
use svrx_pinry.Idempotency.Claim.{reclaimable, reclaimed}
use svrx_pinry.Idempotency.Owner.{
  stored, fence, record_failure, record_success, write_one, write_success,
}
use svrx_pinry.Idempotency.Steps.{Reach, Reach-keeps}
use svrx_pinry.Idempotency.Changes.{
  Write, reclaim, touch, fail, succeed, write_test, write_row, Change, same, adds, writes, unpins,
  pins_one, Step-Change,
}
use svrx_pinry.Database.{Db, delete_pin}

-- The row can no longer be held under `generation`: it was reclaimed since, or is not pending.
abbrev pub is_past : ℕ → ℕ → Row → Bool
is_past pk generation row =
    not (row.pk == pk)
    || ltb generation row.lease_generation
    || (row.lease_generation == generation && not (is_pending row.state))

-- The claim's lease is over: its row id was given out, and no row is still held under it.
pub record IsOver (pk generation : ℕ) (db : Db) : Type 0 where
  pub known : pk < db.next_item_pk
  pub past : All (λ r. is_past pk generation r ≡ true) db.items

module _ (pk g : ℕ) where
  write_row-is_past :
      (w : Write) (db : Db) (r : Row)
      → write_test w db.pins r ≡ true
      → is_past pk g r ≡ true
      → is_past pk g (write_row w r) ≡ true
  unfolding reclaimable reclaimed
  write_row-is_past (reclaim read now expected uuid expires) db r m h = ground arith
  write_row-is_past (touch c now) db r m h = h
  write_row-is_past (fail c e now) db r m h = ground arith
  write_row-is_past (succeed c p now) db r m h = ground arith

  Change-IsOver : {a b : Db} → Change a b → IsOver pk g a → IsOver pk g b
  unfolding delete_pin
  Change-IsOver same h = h
  Change-IsOver {a} (adds user batch item f uuid expires created aware e) h =
      let known = h.known in record { known = omega arith; past = (ground arith, h.past) }
  Change-IsOver {a} (writes w sound) h = record {
    known = h.known;
    past = All-update _ _ a.items (write_row-is_past w a) h.past;
  }
  Change-IsOver {a} (unpins pin) h = record {
    known = h.known;
    past = All-update _ _ a.items (λ r m p. p) h.past;
  }
  Change-IsOver (pins_one pin boards through) h = record { known = h.known; past = h.past }

  -- Whatever is done to the items afterwards, the lease stays over.
  pub Reach-IsOver : {a b : Db} → Reach a b → IsOver pk g a → IsOver pk g b
  Reach-IsOver r h = Reach-keeps (IsOver pk g) (λ c d st. Change-IsOver (Step-Change st)) r h

  owned_pending-is_past :
      (c : ClaimResult) (now : Instant) (r : Row)
      → c.row_id ≡ some pk
      → c.lease_generation ≡ some g
      → is_past pk g r ≡ true
      → owned_pending c now r ≡ false
  unfolding owned_pending
  owned_pending-is_past c now r row_id generation h = ground arith

-- A write by a filter that no row meets.
write_one-none :
    (test : Row → Bool) (write : Row → Row) (db : Db)
    → All (λ r. test r ≡ false) db.items
    → write_one test write db ≡ (db, ok false)
write_one-none test write db h = rw (update-id test write db.items h, count-zero test db.items h)

-- What the owner of a lease gets once it is over, from a clock that gives aware times.
pub record IsRefused (c : ClaimResult) (db : Db) : Type 0 where
  pub no_fence : (now : Instant) → now.aware ≡ true → fence c now db ≡ (db, ok false)
  pub no_failure :
      (e : StoredError) (now : Instant)
      → now.aware ≡ true
      → record_failure c (stored e) now db ≡ (db, ok false)
  pub no_success :
      (pin : Option ℕ) (now : Instant)
      → now.aware ≡ true
      → record_success c pin now db ≡ (db, ok false)

module _ (pk g : ℕ) (c : ClaimResult) (row_id : c.row_id ≡ some pk)
    (generation : c.lease_generation ≡ some g) {db : Db} (over : IsOver pk g db) where
  none_owned : (now : Instant) → All (λ r. owned_pending c now r ≡ false) db.items
  none_owned now =
      All-map db.items (λ r h. owned_pending-is_past pk g c now r row_id generation h) over.past

  no_success-some : (p : ℕ) (now : Instant) → write_success c now db (some p) ≡ (db, ok false)
  unfolding write_success
  no_success-some p now =
      write_one-none (λ row. owned_pending c now row && pin_owned db.pins (some p) row.submitter) _
        db (All-map db.items (λ r h. ground arith) (none_owned now))

  IsOver-IsRefused : IsRefused c db
  unfolding fence record_failure record_success
  IsOver-IsRefused = record {
    no_fence = λ now aware. simp aware (write_one-none (owned_pending c now) _ db (none_owned now));
    no_failure =
        λ e now aware. simp aware (write_one-none (owned_pending c now) _ db (none_owned now));
    no_success = λ pin now aware.
        simp aware (elim pin as (λ p. write_success c now db p ≡ (db, ok false)) [
          | none ↦ refl
          | some p ↦ no_success-some p now
        ]);
  }

-- Once the lease that a claim names is over (its key was given out, and each row of the key has a
-- higher generation, or the same one and is not pending) it stays so after any steps of the
-- store: with an aware clock its fence, its failure and its success return False and leave the
-- database as it is.
pub lost_lease-IsRefused :
    (pk g : ℕ) (c : ClaimResult) {a b : Db}
    → c.row_id ≡ some pk
    → c.lease_generation ≡ some g
    → IsOver pk g a
    → Reach a b
    → IsRefused c b
lost_lease-IsRefused pk g c row_id generation over r =
    IsOver-IsRefused pk g c row_id generation (Reach-IsOver pk g r over)
