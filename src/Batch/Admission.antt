-- ===== src/Batch/Admission.antt =====
-- The deadline of a batch (core/services/batch_import.py): the items it admits, and those it does not.
use svrx_pinry.Prelude.{
  ℕ, suc, ◌+◌, ◌≤◌, ◌≡◌, refl, ap, ◌⊎◌, inl, inr, true, false, ◌&&◌, not, List, [], ◌∷◌, ◌++◌, map,
  leb, length, arith, Bool-cases,
}
use svrx_pinry.Batch.Errors.{ImportResult}
use svrx_pinry.Batch.Service.{
  Services, Item, BatchRequest, Seconds, finite, unusable, valid_positive_seconds,
  item_deadline_seconds,
}
use svrx_pinry.Batch.Process.{admitted_item, process_items, process, too_late, is_closing, report}
use svrx_pinry.Database.{Db}

plus_none : (k : ℕ) → k + 0 ≡ k
plus_none k = omega arith

plus_one : (k n : ℕ) → k + suc n ≡ suc k + n
plus_one k n = omega arith

module _ (s : Services) (batch_deadline user : ℕ) (request : BatchRequest) where
  -- The work on these items with no look at the clock.
  unfoldable pub run_all : ℕ → List Item → Db → Db × List ImportResult
  run_all k [] db = (db, [])
  run_all k (item ∷ items) db =
      let first = admitted_item s batch_deadline user request k item db in
      let rest = run_all (suc k) items first.0 in (rest.0, first.1 ∷ rest.1)

  module _ (reserve : ℕ) where
    -- Each of these items starts with time for itself and for the report.
    abbrev pub HaveRoom : ℕ → List Item → Type 0
    HaveRoom k [] = Unit
    HaveRoom k (item ∷ items) =
        (s.clock k + item_deadline_seconds + reserve ≤ batch_deadline) × HaveRoom (suc k) items

    -- The items are split at the first one that the clock refuses.
    pub record IsCut (k : ℕ) (items : List Item) (db : Db) (r : Db × List ImportResult)
        : Type 0 where
      pub before : List Item
      pub after : List Item
      pub split : items ≡ before ++ after
      pub room : HaveRoom k before
      pub closed : (after ≡ []) ⊎ (is_closing s batch_deadline reserve (k + length before) ≡ true)
      pub state : r.0 ≡ (run_all k before db).0
      pub results : r.1 ≡ (run_all k before db).1 ++ map too_late after

    closed-loop :
        (k : ℕ) (items : List Item) (db : Db)
        → process_items s batch_deadline reserve user request true k items db
          ≡ (db, map too_late items)
    unfolding process_items
    closed-loop k [] db = refl
    closed-loop k (item ∷ items) db = rw (closed-loop (suc k) items db) refl

    loop-IsCut :
        (k : ℕ) (items : List Item) (db : Db)
        → IsCut k items db (process_items s batch_deadline reserve user request false k items db)
    unfolding process_items run_all
    loop-IsCut k [] db = record {
      before = [];
      after = [];
      split = refl;
      room = tt;
      closed = inl refl;
      state = refl;
      results = refl;
    }
    loop-IsCut k (item ∷ items) db = elim (Bool-cases (is_closing s batch_deadline reserve k)) [
      | inl e ↦
          rw (e, process_items)
            (record {
              before = [];
              after = item ∷ items;
              split = refl;
              room = tt;
              closed = inr (rw (plus_none k) e);
              state = ap (λ (x : Db × List ImportResult). x.0) (closed-loop (suc k) items db);
              results = rw (closed-loop (suc k) items db) refl;
            })
      | inr e ↦
          let first = admitted_item s batch_deadline user request k item db in
          let rest = loop-IsCut (suc k) items first.0 in
          rw (e, process_items)
            (record {
              before = item ∷ rest.before;
              after = rest.after;
              split = ap (λ (xs : List Item). item ∷ xs) rest.split;
              room = (ground arith, rest.room);
              closed = elim rest.closed [
                | inl none_left ↦ inl none_left
                | inr c ↦ inr (rw (plus_one k (length rest.before)) c)
              ];
              state = rest.state;
              results = ap (λ (xs : List ImportResult). first.1 ∷ xs) rest.results;
            })
    ]

-- With usable settings, a batch is worked off as if without a clock up to the first item for which
-- the twelve seconds of an item and the reserve do not fit before the deadline. From there on every
-- item is reported as too late and nothing more is written.
pub process-IsCut :
    (s : Services) (batch reserve user : ℕ) (request : BatchRequest) (started_at : ℕ) (db : Db)
    → 1 ≤ batch
    → 1 ≤ reserve
    → let r = process s (finite batch) (finite reserve) user request started_at db in
      IsCut s (started_at + batch) user request reserve 0 request.items db (r.0, r.1.results)
unfolding process report
process-IsCut s batch reserve user request started_at db b r =
    let usable : (not (leb 1 batch && leb 1 reserve)) ≡ false = ground arith in
    rw usable (loop-IsCut s (started_at + batch) user request reserve 0 request.items db)

-- With a setting that is no positive number no item is worked on: each is reported as too late, and
-- the database stays as it was.
pub process-unusable :
    (s : Services) (batch reserve : Seconds) (user : ℕ) (request : BatchRequest) (started_at : ℕ)
    (db : Db)
    → (valid_positive_seconds batch && valid_positive_seconds reserve) ≡ false
    → let r = process s batch reserve user request started_at db in
      (r.0 ≡ db) × (r.1.results ≡ map too_late request.items)
unfolding process report
process-unusable s (finite b) (finite r) user request t db h =
    rw (h, closed-loop s (t + b) user request r 0 request.items db) (refl, refl)
process-unusable s (finite b) unusable user request t db h =
    rw (closed-loop s 0 user request 0 0 request.items db) (refl, refl)
process-unusable s unusable r user request t db h =
    rw (closed-loop s 0 user request 0 0 request.items db) (refl, refl)
