-- ===== src/Idempotency/Invariant.antt =====
-- Well-formed items: ascending keys, and in each state the columns that the checks `_valid_pending`,
-- `_valid_succeeded` and `_valid_failed` ask for.
use svrx_pinry.Prelude.{
  ℕ, ◌≡◌, refl, Bool, true, false, not, none, some, List, [], ◌∷◌, All, All-update, select, ◌==◌,
  opt_eq, if◌then◌else◌, update, arith, Option-cases, inl, inr, All-map,
}
use svrx_pinry.Idempotency.Rows.{ItemState, pending, succeeded, failed, Row}
use svrx_pinry.Idempotency.Store.{
  owned_pending, pin_owned, valid_pending, valid_succeeded, valid_failed,
}
use svrx_pinry.Idempotency.Claim.{reclaimable, reclaimed}
use svrx_pinry.Idempotency.Steps.{Reach, Reach-keeps}
use svrx_pinry.Idempotency.Changes.{
  Write, reclaim, touch, fail, succeed, write_test, write_row, IsSound, Change, same, adds, writes,
  unpins, pins_one, Step-Change,
}
use svrx_pinry.Idempotency.Unique.{Fresh, Fresh-update}
use svrx_pinry.Database.{Pin, Db, delete_pin}

-- The check that `_evaluate_existing` makes of a row in its state.
abbrev pub shape_of : ItemState → List Pin → Row → Bool
shape_of pending pins r = valid_pending r
shape_of succeeded pins r = valid_succeeded r (pin_owned pins r.pin_id r.submitter)
shape_of failed pins r = valid_failed r

abbrev pub is_shaped : List Pin → Row → Bool
is_shaped pins r = shape_of r.state pins r

pub record IsValid (db : Db) : Type 0 where
  pub fresh : Fresh db.next_item_pk db.items
  pub shaped : All (λ r. is_shaped db.pins r ≡ true) db.items

write_row-is_shaped :
    (w : Write) (pins : List Pin) (r : Row)
    → IsSound w
    → write_test w pins r ≡ true
    → is_shaped pins r ≡ true
    → is_shaped pins (write_row w r) ≡ true
unfolding reclaimable reclaimed valid_pending valid_succeeded valid_failed owned_pending
write_row-is_shaped (reclaim read now expected uuid expires) pins r s m h = ground arith
write_row-is_shaped (touch c now) pins r s m h = ground arith
write_row-is_shaped (fail c e now) pins r s m h = ground arith
write_row-is_shaped (succeed c p now) pins r s m h = ground arith

write_row-pk : (w : Write) (r : Row) → (write_row w r).pk ≡ r.pk
unfolding reclaimed
write_row-pk (reclaim read now expected uuid expires) r = refl
write_row-pk (touch c now) r = refl
write_row-pk (fail c e now) r = refl
write_row-pk (succeed c p now) r = refl

-- The owner of a pin that stays is still found.
pin_owned-select :
    (gone : ℕ) (pins : List Pin) (p submitter : ℕ)
    → (gone == p) ≡ false
    → pin_owned (select (λ x. not (x.pk == gone)) pins) (some p) submitter
      ≡ pin_owned pins (some p) submitter
unfolding pin_owned
pin_owned-select gone [] p submitter other = refl
pin_owned-select gone (x ∷ pins) p submitter other =
    ground (arith, pin_owned-select gone pins p submitter other)

unpin : ℕ → Row → Row
unpin gone r = if opt_eq (some gone) r.pin_id then record r { pin_id = none } else r

unpin-is_shaped :
    (gone : ℕ) (pins : List Pin) (r : Row)
    → is_shaped pins r ≡ true
    → is_shaped (select (λ x. not (x.pk == gone)) pins) (unpin gone r) ≡ true
unfolding unpin valid_pending valid_succeeded valid_failed
unpin-is_shaped gone pins r h = elim (Option-cases r.pin_id) [
  | inl e ↦ ground arith
  | inr (p, e) ↦ ground (arith, pin_owned-select gone pins p r.submitter)
]

All-unpin :
    (gone : ℕ) (pins : List Pin) (rs : List Row)
    → All (λ r. is_shaped pins r ≡ true) rs
    → All
        (λ r. is_shaped (select (λ x. not (x.pk == gone)) pins) r ≡ true)
        (update (λ i. opt_eq (some gone) i.pin_id) (λ i. record i { pin_id = none }) rs)
unfolding unpin
All-unpin gone pins [] h = tt
All-unpin gone pins (r ∷ rs) (h, hs) = (unpin-is_shaped gone pins r h, All-unpin gone pins rs hs)

-- Another pin takes no owner from an item.
added-is_shaped :
    (p : Pin) (pins : List Pin) (r : Row) → is_shaped pins r ≡ true → is_shaped (p ∷ pins) r ≡ true
unfolding valid_succeeded pin_owned
added-is_shaped p pins r h = ground arith

Change-IsValid : {a b : Db} → Change a b → IsValid a → IsValid b
unfolding delete_pin valid_pending
Change-IsValid same v = v
Change-IsValid (adds user batch item f uuid expires created aware e) v = record {
  fresh = (omega arith, v.fresh);
  shaped = (ground arith, v.shaped);
}
Change-IsValid {a} (writes w sound) v = record {
  fresh = Fresh-update _ _ a.next_item_pk a.items (write_row-pk w) v.fresh;
  shaped = All-update _ _ a.items (λ r. write_row-is_shaped w a.pins r sound) v.shaped;
}
Change-IsValid {a} (unpins pin) v = record {
  fresh = Fresh-update _ _ a.next_item_pk a.items (λ r. refl) v.fresh;
  shaped = All-unpin pin a.pins a.items v.shaped;
}
Change-IsValid {a} (pins_one pin boards through) v = record {
  fresh = v.fresh;
  shaped = All-map a.items (λ r h. added-is_shaped pin a.pins r h) v.shaped;
}

-- Every history of the store's writes and of creations and deletions of pins keeps the items well-formed: their
-- keys are ascending, and each row passes the check that `_evaluate_existing` makes of its state.
pub Reach-IsValid : {a b : Db} → Reach a b → IsValid a → IsValid b
Reach-IsValid r v = Reach-keeps IsValid (λ c d st. Change-IsValid (Step-Change st)) r v
