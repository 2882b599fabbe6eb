-- ===== src/Idempotency/Claims.antt =====
-- What `claim` does under any interference: its writes are steps, and a granted lease is the only
-- one that is left on its row.
use svrx_pinry.Prelude.{
  ℕ, suc, ◌+◌, ◌<◌, ◌≡◌, refl, ◌≢◌, ◌⊎◌, inl, inr, Bool, true, ◌&&◌, ◌||◌, not, Option, none, some,
  List, [], ◌∷◌, All, All-write, opt_eq, find, ◌==◌, if◌then◌else◌, Outcome, ok, count, arith,
  Bool-cases,
}
use svrx_pinry.Idempotency.Rows.{Instant, ItemState, is_pending, Row, ClaimResult, claimed}
use svrx_pinry.Idempotency.Store.{IdempotencyStore, claimed_result}
use svrx_pinry.Idempotency.Claim.{reclaimable, reclaimed, reclaim, evaluate_existing}
use svrx_pinry.Idempotency.Steps.{reclaim_update, Reach}
use svrx_pinry.Idempotency.Invariant.{IsValid}
use svrx_pinry.Idempotency.Unique.{Fresh, count-keyed}
use svrx_pinry.Database.{Db}

module _ (store : IdempotencyStore) (meanwhile : Db → Db) (uuid : ℕ) (row : Row) (owned : Bool)
    (now : Instant) (db : Db) where
  -- What an evaluation leaves: the database as it was, with an answer, or the outcome of a reclaim.
  abbrev pub Evaluated : Db × Option ClaimResult → Type 0
  Evaluated r =
      ((r.0 ≡ db) × ((c : ClaimResult) × (r.1 ≡ some c) × (c.kind ≢ claimed)))
      ⊎ (r ≡ reclaim store meanwhile uuid row now row.state db)

  pub evaluate_existing-Evaluated :
      (fingerprint : ℕ)
      → Evaluated (evaluate_existing store meanwhile uuid row owned fingerprint now db)
  unfolding evaluate_existing
  evaluate_existing-Evaluated fingerprint = ground arith

-- Every row of that key is held under this generation and lease.
abbrev pub is_held : ℕ → ℕ → ℕ → Row → Bool
is_held pk generation uuid row =
    not (row.pk == pk)
    || (row.lease_generation == generation
        && opt_eq row.lease_uuid (some uuid)
        && is_pending row.state)

-- The claim names a lease that its row is under, and no other row has that key.
pub record IsGranted (c : ClaimResult) (db : Db) : Type 0 where
  pub pk : ℕ
  pub generation : ℕ
  pub uuid : ℕ
  pub names : c ≡ claimed_result pk uuid generation
  pub known : pk < db.next_item_pk
  pub held : All (λ r. is_held pk generation uuid r ≡ true) db.items

-- What `claim` promises under interference: its effect is a history of steps, and a result
-- `claimed` names a lease that the row is really under.
pub record IsSoundClaim (a : Db) (r : Db × Outcome ClaimResult) : Type 0 where
  pub reach : Reach a r.0
  pub grants : (c : ClaimResult) → r.1 ≡ ok c → c.kind ≡ claimed → IsGranted c r.0

All-known : (pk n : ℕ) (rs : List Row) → Fresh n rs → find (λ r. r.pk == pk) rs ≢ none → pk < n
All-known pk n [] h f = absurd (f refl)
All-known pk n (r ∷ rs) (h, hs) f = elim (Bool-cases (r.pk == pk)) [
  | inl e ↦ ground arith
  | inr e ↦ let below = All-known pk r.pk rs hs (λ z. f (rw e z)) in omega arith
]

counted-found :
    (test : Row → Bool) (pk m : ℕ) (rs : List Row)
    → ((r : Row) → test r ≡ true → r.pk ≡ pk)
    → count test rs ≡ suc m
    → find (λ r. r.pk == pk) rs ≢ none
counted-found test pk m [] keyed c = λ z. cc
counted-found test pk m (r ∷ rs) keyed c = elim (Bool-cases (test r)) [
  | inl e ↦ ground (arith, keyed r)
  | inr e ↦ let rest = counted-found test pk m rs keyed (rw e at c) in ground (arith, rest)
]

module _ (read : Row) (now : Instant) (expected : ItemState) (uuid : ℕ) (expires : Instant)
    (db : Db) where
  reclaimable-pk : (r : Row) → reclaimable read now expected r ≡ true → r.pk ≡ read.pk
  unfolding reclaimable
  reclaimable-pk r h = ground arith

  reclaimed-is_held :
      (r : Row)
      → (not (r.pk == read.pk) || reclaimable read now expected r) ≡ true
      → is_held read.pk
          (read.lease_generation + 1)
          uuid
          (if reclaimable read now expected r then reclaimed read now uuid expires r else r)
        ≡ true
  unfolding reclaimed
  reclaimed-is_held r h = ground arith

  pub reclaim_update-IsGranted :
      IsValid db
      → count (reclaimable read now expected) db.items ≡ 1
      → IsGranted
          (claimed_result read.pk uuid (read.lease_generation + 1))
          (reclaim_update read now expected uuid expires db)
  reclaim_update-IsGranted v c = record {
    pk = read.pk;
    generation = read.lease_generation + 1;
    uuid = uuid;
    names = refl;
    known =
        All-known read.pk db.next_item_pk db.items v.fresh
          (counted-found (reclaimable read now expected) read.pk 0 db.items reclaimable-pk c);
    held =
        All-write (λ r. (not (r.pk == read.pk) || reclaimable read now expected r) ≡ true)
          (λ r. is_held read.pk (read.lease_generation + 1) uuid r ≡ true)
          (reclaimable read now expected) (reclaimed read now uuid expires) db.items
          reclaimed-is_held
          (count-keyed (reclaimable read now expected) read.pk reclaimable-pk db.next_item_pk 0
            db.items v.fresh c);
  }
