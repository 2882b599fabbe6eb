-- ===== src/Idempotency/Unique.antt =====
-- Primary keys: new rows get ascending keys, so that a key names one row of the list.
use svrx_pinry.Prelude.{
  ℕ, suc, ◌<◌, ◌≡◌, Bool, true, false, ◌||◌, not, List, [], ◌∷◌, All, All-map, ◌≢◌, inl, inr,
  Bool-cases, ◌==◌, update, count, count-zero, arith,
}
use native.Mathlib.Decide.{ℕ_discrete}
use svrx_pinry.Idempotency.Rows.{Row}

-- The keys fall along the list, from below `n`.
abbrev pub Fresh : ℕ → List Row → Type 0
Fresh n [] = Unit
Fresh n (r ∷ rs) = (r.pk < n) × Fresh r.pk rs

pub Fresh-below : (n : ℕ) (rs : List Row) → Fresh n rs → All (λ r. r.pk < n) rs
Fresh-below n [] h = tt
Fresh-below n (r ∷ rs) (h, hs) =
    (h, All-map rs (λ x (p : x.pk < r.pk). omega arith) (Fresh-below r.pk rs hs))

pub Fresh-update :
    (test : Row → Bool) (write : Row → Row) (n : ℕ) (rs : List Row)
    → ((r : Row) → (write r).pk ≡ r.pk)
    → Fresh n rs
    → Fresh n (update test write rs)
Fresh-update test write n [] keep h = tt
Fresh-update test write n (r ∷ rs) keep (h, hs) =
    let rest = Fresh-update test write r.pk rs keep hs in ground (arith, keep r)

module _ (test : Row → Bool) (k : ℕ) (keyed : (r : Row) → test r ≡ true → r.pk ≡ k) where
  -- Below the key there is no row that meets the test.
  none_below : (rs : List Row) → Fresh k rs → All (λ r. test r ≡ false) rs
  none_below rs h = All-map rs (λ r (p : r.pk < k). ground (arith, keyed r)) (Fresh-below k rs h)

  -- A row that is above rows of which one meets the test has another key.
  other_key :
      (r : Row) (rs : List Row)
      → Fresh r.pk rs
      → count test rs ≢ 0
      → (not (r.pk == k) || test r) ≡ true
  other_key r rs hs c = elim (ℕ_discrete r.pk k) [
    | yes e ↦ absurd (c (count-zero test rs (none_below rs (rw (← e) hs))))
    | no e ↦ ground arith
  ]

  -- A filter by key that some row meets is met by every row of that key.
  pub count-keyed :
      (n m : ℕ) (rs : List Row)
      → Fresh n rs
      → count test rs ≡ suc m
      → All (λ r. (not (r.pk == k) || test r) ≡ true) rs
  count-keyed n m [] h c = tt
  count-keyed n m (r ∷ rs) (h, hs) c = elim (Bool-cases (test r)) [
    | inl e ↦
        let same : r.pk ≡ k = keyed r e in
        (ground arith, All-map rs (λ x (p : x.pk < r.pk). ground arith) (Fresh-below r.pk rs hs))
    | inr e ↦
        let rest : count test rs ≡ suc m = rw e at c in
        (other_key r rs hs (λ z. cc (rest, z)), count-keyed r.pk m rs hs rest)
  ]
