-- ===== src/Idempotency/Settled.antt =====
-- An item that has been imported stays imported: no later claim of it is granted, so that the same
-- client item never makes a second pin.
use svrx_pinry.Prelude.{
  ℕ, ◌≡◌, refl, ◌⊎◌, false, ◌&&◌, none, some, List, [], ◌∷◌, any, find, find-update, opt_eq, ◌==◌,
  if◌then◌else◌, arith,
}
use svrx_pinry.Idempotency.Rows.{succeeded, Row}
use svrx_pinry.Idempotency.Store.{owned_pending}
use svrx_pinry.Idempotency.Claim.{reclaimable, reclaimed, same_key, create_item}
use svrx_pinry.Idempotency.Steps.{Reach, Reach-keeps}
use svrx_pinry.Idempotency.Changes.{
  Write, reclaim, touch, fail, succeed, write_test, write_row, Change, same, adds, writes, unpins,
  pins_one, Step-Change,
}
use svrx_pinry.Database.{Db, delete_pin}

module _ (user item fingerprint pin : ℕ) where
  -- The row is a success for this request, with the pin or, where that was deleted, none.
  pub record IsImported (r : Row) : Type 0 where
    pub done : r.state ≡ succeeded
    pub request : r.request_fingerprint ≡ fingerprint
    pub made : (r.pin_id ≡ some pin) ⊎ (r.pin_id ≡ none)

  pub record IsSettled (db : Db) : Type 0 where
    pub row : Row
    pub found : find (same_key user item) db.items ≡ some row
    pub imported : IsImported row

  -- No write but a fence, which changes no more than a time, meets a success.
  write-IsImported :
      (w : Write) (db : Db) (r : Row)
      → IsImported r
      → IsImported (if write_test w db.pins r then write_row w r else r)
  unfolding reclaimable owned_pending
  write-IsImported (reclaim read now expected uuid expires) db r h = ground arith
  write-IsImported (touch c now) db r h = ground arith
  write-IsImported (fail c e now) db r h = ground arith
  write-IsImported (succeed c p now) db r h = ground arith

  write_row-same_key :
      (w : Write) (r : Row) → same_key user item (write_row w r) ≡ same_key user item r
  unfolding reclaimed
  write_row-same_key (reclaim read now expected uuid expires) r = refl
  write_row-same_key (touch c now) r = refl
  write_row-same_key (fail c e now) r = refl
  write_row-same_key (succeed c p now) r = refl

  unpin-IsImported :
      (gone : ℕ) (r : Row)
      → IsImported r
      → IsImported (if opt_eq (some gone) r.pin_id then record r { pin_id = none } else r)
  unpin-IsImported gone r h = ground arith

  -- A row of that key stands in the way of another one.
  found-any :
      (u t : ℕ) (rs : List Row) {r : Row}
      → any (same_key u t) rs ≡ false
      → find (same_key user item) rs ≡ some r
      → (u == user && t == item) ≡ false
  found-any u t [] a f = cc
  found-any u t (x ∷ rs) {r} a f = ground (arith, found-any u t rs {r = r})

  create-other :
      (make : ℕ → Row) (db db' : Db) {r : Row}
      → create_item make db ≡ some db'
      → find (same_key user item) db.items ≡ some r
      → same_key user item (make db.next_item_pk) ≡ false
  unfolding create_item
  create-other make db db' {r} e f = ground (
    arith,
    found-any (make db.next_item_pk).submitter (make db.next_item_pk).client_item_id db.items
        {r = r},
  )

  Change-IsSettled : {a b : Db} → Change a b → IsSettled a → IsSettled b
  unfolding delete_pin
  Change-IsSettled same h = h
  Change-IsSettled {a} (adds u batch t f uuid expires created aware e) h = record {
    row = h.row;
    found = rw (create-other _ a _ e h.found) h.found;
    imported = h.imported;
  }
  Change-IsSettled {a} (writes w sound) h = record {
    row = if write_test w a.pins h.row then write_row w h.row else h.row;
    found =
        find-update (same_key user item) (write_test w a.pins) (write_row w) a.items
          (write_row-same_key w) h.found;
    imported = write-IsImported w a h.row h.imported;
  }
  Change-IsSettled {a} (unpins gone) h = record {
    row = if opt_eq (some gone) h.row.pin_id then record h.row { pin_id = none } else h.row;
    found =
        find-update (same_key user item) (λ i. opt_eq (some gone) i.pin_id)
          (λ i. record i { pin_id = none }) a.items (λ r. refl) h.found;
    imported = unpin-IsImported gone h.row h.imported;
  }
  Change-IsSettled (pins_one p boards through) h = record {
    row = h.row;
    found = h.found;
    imported = h.imported;
  }

  pub Reach-IsSettled : {a b : Db} → Reach a b → IsSettled a → IsSettled b
  Reach-IsSettled r h = Reach-keeps IsSettled (λ c d st. Change-IsSettled (Step-Change st)) r h
