-- ===== src/Bulk/Accounts.antt =====
-- The summaries of core/services/bulk_pin_management.py account for every pin of a request once, and a
-- deletion stops its work at the deadline.
use svrx_pinry.Prelude.{
  ℕ, suc, ◌+◌, ◌<◌, ◌≡◌, refl, sym, ap, ◌∙◌, ◌⊎◌, inl, inr, true, false, Option, none, some, List,
  [], ◌∷◌, ◌++◌, map, leb, length, count, arith, Bool-cases, Ensures, returns, Ensures-bind,
}
use svrx_pinry.Database.{Db}
use svrx_pinry.Bulk.Results.{
  ItemStatus, ItemResult, BulkFault, Summary, succeeded_with, deadline_failure, is_success,
  is_preserved, is_failure, summarize,
}
use svrx_pinry.Bulk.Operations.{
  Context, attempt_each, delete_one, delete_pins, exception_failure, owned_pins,
}

-- One result for each pin, in the order of the request, each of them counted once.
pub record IsAccount (ids : List ℕ) (s : Summary) : Type 0 where
  pub in_order : map (λ r. r.id) s.results ≡ ids
  pub counted : s.succeeded_count + s.preserved_count + s.failed_count ≡ length ids

counted-once :
    (rs : List ItemResult)
    → count (λ r. is_success r.status) rs
        + count (λ r. is_preserved r.status) rs
        + count (λ r. is_failure r.status) rs
      ≡ length (map (λ r. r.id) rs)
counted-once [] = refl
counted-once (r ∷ rs) = ground (arith, counted-once rs)

pub summarize-IsAccount :
    (ids : List ℕ) (rs : List ItemResult) → map (λ r. r.id) rs ≡ ids → IsAccount ids (summarize rs)
unfolding summarize
summarize-IsAccount ids rs h = record {
  in_order = h;
  counted = counted-once rs ∙ ap (λ (xs : List ℕ). length xs) h;
}

module _ (c : Context) (deadline : ℕ) (attempt : ℕ → Db → Db × ItemResult) where
  -- The attempts on these pins with no look at the clock.
  unfoldable pub attempt_all : List ℕ → Db → Db × List ItemResult
  attempt_all [] db = (db, [])
  attempt_all (id ∷ ids) db =
      let first = attempt id db in let rest = attempt_all ids first.0 in (rest.0, first.1 ∷ rest.1)

  -- The clock, read for each of these pins in turn, is before the deadline.
  abbrev pub InTime : ℕ → List ℕ → Type 0
  InTime k [] = Unit
  InTime k (id ∷ ids) = (c.clock k < deadline) × InTime (suc k) ids

  -- The pins are split at the first reading that has reached the deadline.
  pub record IsStopped (k : ℕ) (ids : List ℕ) (db : Db) (r : Db × List ItemResult) : Type 0 where
    pub before : List ℕ
    pub after : List ℕ
    pub split : ids ≡ before ++ after
    pub in_time : InTime k before
    pub stopped : (after ≡ []) ⊎ (leb deadline (c.clock (k + length before)) ≡ true)
    pub state : r.0 ≡ (attempt_all before db).0
    pub results : r.1 ≡ (attempt_all before db).1 ++ map deadline_failure after

  expired-each :
      (k : ℕ) (ids : List ℕ) (db : Db)
      → attempt_each c deadline attempt true k ids db ≡ (db, map deadline_failure ids)
  unfolding attempt_each
  expired-each k [] db = refl
  expired-each k (id ∷ ids) db = rw (expired-each k ids db) refl

  plus_none : (k : ℕ) → k + 0 ≡ k
  plus_none k = omega arith

  plus_one : (k n : ℕ) → k + suc n ≡ suc k + n
  plus_one k n = omega arith

  pub attempt_each-IsStopped :
      (k : ℕ) (ids : List ℕ) (db : Db)
      → IsStopped k ids db (attempt_each c deadline attempt false k ids db)
  unfolding attempt_each attempt_all
  attempt_each-IsStopped k [] db = record {
    before = [];
    after = [];
    split = refl;
    in_time = tt;
    stopped = inl refl;
    state = refl;
    results = refl;
  }
  attempt_each-IsStopped k (id ∷ ids) db = elim (Bool-cases (leb deadline (c.clock k))) [
    | inl e ↦
        rw (e, attempt_each)
          (record {
            before = [];
            after = id ∷ ids;
            split = refl;
            in_time = tt;
            stopped = inr (rw (plus_none k) e);
            state = ap (λ (x : Db × List ItemResult). x.0) (expired-each (suc k) ids db);
            results = rw (expired-each (suc k) ids db) refl;
          })
    | inr e ↦
        let first = attempt id db in
        let rest = attempt_each-IsStopped (suc k) ids first.0 in
        rw (e, attempt_each)
          (record {
            before = id ∷ rest.before;
            after = rest.after;
            split = ap (λ (xs : List ℕ). id ∷ xs) rest.split;
            in_time = (ground arith, rest.in_time);
            stopped = elim rest.stopped [
              | inl none_left ↦ inl none_left
              | inr s ↦ inr (rw (plus_one k (length rest.before)) s)
            ];
            state = rest.state;
            results = ap (λ (xs : List ItemResult). first.1 ∷ xs) rest.results;
          })
  ]

  -- Attempts that report the pin they are made for.
  module _ (own : (id : ℕ) (db : Db) → (attempt id db).1.id ≡ id) where
    attempt_all-ids : (ids : List ℕ) (db : Db) → map (λ r. r.id) (attempt_all ids db).1 ≡ ids
    unfolding attempt_all
    attempt_all-ids [] db = refl
    attempt_all-ids (id ∷ ids) db = rw (own id db, attempt_all-ids ids (attempt id db).0) refl

    late-ids :
        (rs : List ItemResult) (after : List ℕ)
        → map (λ r. r.id) (rs ++ map deadline_failure after) ≡ map (λ r. r.id) rs ++ after
    late-ids [] [] = refl
    late-ids [] (id ∷ ids) = ap (λ (xs : List ℕ). id ∷ xs) (late-ids [] ids)
    late-ids (r ∷ rs) after = ap (λ (xs : List ℕ). r.id ∷ xs) (late-ids rs after)

    pub attempt_each-ids :
        (ids : List ℕ) (db : Db)
        → map (λ r. r.id) (attempt_each c deadline attempt false 0 ids db).1 ≡ ids
    attempt_each-ids ids db =
        let cut = attempt_each-IsStopped 0 ids db in
        rw
          (
            cut.results,
            late-ids (attempt_all cut.before db).1 cut.after,
            attempt_all-ids cut.before db,
          )
          (sym cut.split)

-- What a deletion of pins returns, by what one attempt does.
pub record IsDeletion (c : Context) (attempt : ℕ → Db → Db × ItemResult) (ids : List ℕ)
    (started_at : ℕ) (db : Db) (r : Db × Summary) : Type 0 where
  pub account : IsAccount ids r.1
  pub stopped : IsStopped c (started_at + c.fetch_total_timeout) attempt 0 ids db (r.0, r.1.results)

delete_one-own :
    (c : Context) (delete : ℕ → Db → Db × Option BulkFault) (id : ℕ) (db : Db)
    → (delete_one c delete id db).1.id ≡ id
unfolding delete_one exception_failure
delete_one-own c delete id db = by_fault (delete id db).1
  where
    by_fault :
        (f : Option BulkFault)
        → (elim f as (λ _. ItemResult) [
          | none ↦ succeeded_with ItemStatus.deleted id
          | some e ↦ exception_failure c id e
        ]).id
          ≡ id
    by_fault none = refl
    by_fault (some e) = refl

-- A deletion, if it is not refused, gives each pin of the request one result, counted once, and makes
-- an attempt for every pin up to the first one for which the deadline is reached and for none after
-- it; those are reported as failures that may be tried again.
pub delete_pins-IsDeletion :
    (c : Context) (delete : ℕ → Db → Db × Option BulkFault) (user : ℕ) (ids : List ℕ)
    (started_at : ℕ) (db : Db)
    → Ensures
        (IsDeletion c (delete_one c delete) ids started_at db)
        (delete_pins c delete user ids started_at db)
unfolding delete_pins summarize
delete_pins-IsDeletion c delete user ids started_at db =
    Ensures-bind (owned_pins user ids db) _ λ pins _. returns (record {
      account = summarize-IsAccount ids _ (
          attempt_each-ids c (started_at + c.fetch_total_timeout) (delete_one c delete)
            (delete_one-own c delete) ids db);
      stopped =
          attempt_each-IsStopped c (started_at + c.fetch_total_timeout) (delete_one c delete) 0 ids
            db;
    })
