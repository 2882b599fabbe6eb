-- ===== src/Idempotency/Interference.antt =====
-- `claim` of core/services/idempotency.py while other connections commit between its statements.
use svrx_pinry.Prelude.{
  ℕ, zero, suc, ◌+◌, ◌*◌, ◌<◌, ◌≡◌, refl, sym, inl, inr, Bool, true, not, Option, none, some,
  All-map, find, ◌==◌, if_cases, not-false, some_inj, ap, ◌∙◌, Outcome, ok, ok_inj, ==_iff, count,
  arith, Bool-cases, Option-cases,
}
use svrx_pinry.Idempotency.Rows.{Instant, Row, ClaimResult, claimed}
use svrx_pinry.Idempotency.Store.{IdempotencyStore, plus_seconds, pin_owned}
use svrx_pinry.Idempotency.Claim.{
  reclaimable, reclaim, same_key, new_item, create_item, reevaluate, answer_or_retry,
  created_or_existing, claim, cas_reevaluation_limit,
}
use svrx_pinry.Idempotency.Steps.{creates, reclaims, Reach, here, next, Reach-trans}
use svrx_pinry.Idempotency.Changes.{create_item-eq-some}
use svrx_pinry.Idempotency.Invariant.{IsValid, Reach-IsValid}
use svrx_pinry.Idempotency.Unique.{Fresh-below}
use svrx_pinry.Idempotency.Leases.{IsOver, IsRefused, lost_lease-IsRefused}
use svrx_pinry.Idempotency.Claims.{
  Evaluated, evaluate_existing-Evaluated, IsGranted, IsSoundClaim, is_held,
  reclaim_update-IsGranted,
}
use svrx_pinry.Database.{Db}

-- The annotation of the row that is read.
abbrev owner_found : Db → Row → Bool
owner_found db row = pin_owned db.pins row.pin_id row.submitter

module _ (store : IdempotencyStore) (world : ℕ → Db → Db)
    (steps : (k : ℕ) (d : Db) → Reach d (world k d)) (now : Instant) (aware : now.aware ≡ true)
    (a : Db) (valid : IsValid a) where
  -- The outcome of a reclaim, by whether its UPDATE met the row.
  reclaim-Sound :
      (k uuid : ℕ) (row : Row) (db : Db) (retry : Db → Db × Outcome ClaimResult)
      → Reach a db
      → ((d : Db) → Reach a d → IsSoundClaim a (retry d))
      → IsSoundClaim a (answer_or_retry retry (reclaim store (world k) uuid row now row.state db))
  unfolding reclaim
  reclaim-Sound k uuid row db retry reached rounds =
      let before : Reach a (world k db) = Reach-trans reached (steps k db) in
      let expires = plus_seconds now store.lease_seconds in
      let after = next before (reclaims row now row.state uuid expires aware) in
      elim (Bool-cases (count (reclaimable row now row.state) (world k db).items == 1)) [
        | inl e ↦ rw e (record {
          reach = after;
          grants = λ c h _. rw (← ok_inj h) (
              reclaim_update-IsGranted row now row.state uuid expires (world k db)
                (Reach-IsValid before valid) ((==_iff _ 1).0 e));
        })
        | inr e ↦ rw e (rounds _ after)
      ]

  -- An evaluation and what the loop makes of it.
  Evaluated-Sound :
      (k uuid : ℕ) (row : Row) (owned : Bool) (db : Db) (r : Db × Option ClaimResult)
      (retry : Db → Db × Outcome ClaimResult)
      → Reach a db
      → ((d : Db) → Reach a d → IsSoundClaim a (retry d))
      → Evaluated store (world k) uuid row owned now db r
      → IsSoundClaim a (answer_or_retry retry r)
  Evaluated-Sound k uuid row owned db r retry reached rounds (inl (same, (c, e, other))) =
      rw (e, same) (record { reach = reached; grants = λ d h k. absurd (other (rw (ok_inj h) k)) })
  Evaluated-Sound k uuid row owned db r retry reached rounds (inr e) =
      rw e (reclaim-Sound k uuid row db retry reached rounds)

  module _ (uuids : ℕ → ℕ) (user client_item_id fingerprint : ℕ) where
    reevaluate-Sound :
        (left k : ℕ) (last : Option ℕ) (db : Db)
        → Reach a db
        → IsSoundClaim a
            (reevaluate store world uuids user client_item_id fingerprint now left k last db)
    unfolding reevaluate
    reevaluate-Sound zero k last db reached = record {
      reach = reached;
      grants = λ c h k. ground arith;
    }
    reevaluate-Sound (suc left) k last db reached =
        let before : Reach a (world (2 * k + 1) db) = Reach-trans reached (steps (2 * k + 1) db) in
        elim (Option-cases (find (same_key user client_item_id) (world (2 * k + 1) db).items)) [
          | inl e ↦ rw (e, reevaluate) (record { reach = before; grants = λ c h k. cc })
          | inr (row, e) ↦
              rw (e, reevaluate)
                (Evaluated-Sound (2 * k + 2) (uuids (suc k)) row
                  (owner_found (world (2 * k + 1) db) row) (world (2 * k + 1) db) _
                  (reevaluate store world uuids user client_item_id fingerprint now left (suc k)
                    (some row.pk))
                  before (reevaluate-Sound left (suc k) (some row.pk))
                  (evaluate_existing-Evaluated store (world (2 * k + 2)) (uuids (suc k)) row
                    (owner_found (world (2 * k + 1) db) row) now (world (2 * k + 1) db)
                    fingerprint))
        ]

    created-Sound :
        (batch_id : ℕ) (created : Instant) (db : Db) (o : Option Db)
        → let make =
            new_item user batch_id client_item_id fingerprint
              (uuids 0)
              (plus_seconds now store.lease_seconds)
              created in
          Reach a db
          → create_item make db ≡ o
          → IsSoundClaim a
              (created_or_existing store world uuids user client_item_id fingerprint now db o)
    unfolding created_or_existing
    created-Sound batch_id created db none reached e =
        reevaluate-Sound cas_reevaluation_limit 0 none db reached
    created-Sound batch_id created db (some d) reached e = record {
      reach =
          next reached
            (creates user batch_id client_item_id fingerprint (uuids 0) _ created d aware e);
      grants = λ c h _. rw (← ok_inj h) (
          rw (create_item-eq-some _ db d e) (record {
            pk = db.next_item_pk;
            generation = 1;
            uuid = uuids 0;
            names = refl;
            known = omega arith;
            held = (
              ground arith,
              All-map db.items (λ r (p : r.pk < db.next_item_pk). ground arith)
                  (Fresh-below db.next_item_pk db.items (Reach-IsValid reached valid).fresh),
            );
          }));
    }

-- From well-formed items, and where what other connections commit between its statements are
-- steps of the store, `claim` only makes steps of the store, and where it reports `claimed` the
-- row it names is pending under just that lease and generation.
pub claim-IsSound :
    (store : IdempotencyStore) (world : ℕ → Db → Db) (uuids : ℕ → ℕ) (created : Instant)
    (user batch_id client_item_id fingerprint : ℕ) (now : Instant) (a : Db)
    → ((k : ℕ) (d : Db) → Reach d (world k d))
    → IsValid a
    → IsSoundClaim a
        (claim store world uuids created user batch_id client_item_id fingerprint now a)
unfolding claim
claim-IsSound store world uuids created user batch_id client_item_id fingerprint now a steps valid =
    if_cases (IsSoundClaim a) (not now.aware) _ _
      (λ _. record { reach = here; grants = λ c h k. cc })
      (λ e.
        created-Sound store world steps now (not-false e) a valid uuids user client_item_id
          fingerprint batch_id created (world 0 a) _ (Reach-trans here (steps 0 a)) refl)

-- A granted lease ends all earlier ones of its row.
pub granted-IsOver :
    (c : ClaimResult) (db : Db) (granted : IsGranted c db) (g : ℕ)
    → g < granted.generation
    → IsOver granted.pk g db
granted-IsOver c db granted g h = record {
  known = granted.known;
  past =
      All-map db.items
        (λ r (e : is_held granted.pk granted.generation granted.uuid r ≡ true). ground arith)
        granted.held;
}

-- From well-formed items, and whatever others commit by steps of the store meanwhile: once a
-- claim is granted a row under a higher generation than an older claim of the same row holds, the
-- older one is refused in every state that the steps of the store lead to. With an aware clock
-- its fence, failure and success return False and leave the database as it is.
pub older_claim-IsRefused :
    (store : IdempotencyStore) (world : ℕ → Db → Db) (uuids : ℕ → ℕ) (created : Instant)
    (user batch_id client_item_id fingerprint : ℕ) (now : Instant) (a b : Db)
    (old new : ClaimResult) (pk g h : ℕ)
    → ((k : ℕ) (d : Db) → Reach d (world k d))
    → IsValid a
    → let r = claim store world uuids created user batch_id client_item_id fingerprint now a in
      r.1 ≡ ok new
      → new.kind ≡ claimed
      → new.row_id ≡ some pk
      → new.lease_generation ≡ some h
      → old.row_id ≡ some pk
      → old.lease_generation ≡ some g
      → g < h
      → Reach r.0 b
      → IsRefused old b
older_claim-IsRefused store world uuids created user batch_id client_item_id fingerprint now a b old
      new pk g h steps valid is kind row generation old_row old_generation lt reach =
    let sound =
      claim-IsSound store world uuids created user batch_id client_item_id fingerprint now a steps
        valid in
    let granted = sound.grants new is kind in
    let same_pk : granted.pk ≡ pk =
      some_inj (ap (λ (c : ClaimResult). c.row_id) (sym granted.names) ∙ row) in
    let same_h : granted.generation ≡ h =
      some_inj (ap (λ (c : ClaimResult). c.lease_generation) (sym granted.names) ∙ generation) in
    lost_lease-IsRefused pk g old old_row old_generation
      (rw (← same_pk) (granted-IsOver new _ granted g (omega arith))) reach
