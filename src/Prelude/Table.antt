-- ===== src/Prelude/Table.antt =====
-- Rows of a database table as a list, with Django's `filter(...).update(...)` and `exists()`.
use Prim.Native.Nat.{ℕ, suc}
use mathlib.Core.Path.{◌≡◌, refl}
use mathlib.Core.Bool.{Bool, true, false}
use mathlib.Core.List.{List, [], ◌∷◌}
use mathlib.Core.Logic.{inl, inr}
use svrx_pinry.Prelude.Tests.{if◌then◌else◌, Bool-cases}
use mathlib.Core.Option.{some}
use native.Mathlib.Omega.{arith}
use svrx_pinry.Prelude.Lists.{All, find}

module _ {ℓ} {R : Type ℓ} where
  -- `filter(test).update(...)`: the rows afterwards.
  abbrev pub update : (R → Bool) → (R → R) → List R → List R
  update test write [] = []
  update test write (r ∷ rs) = (if test r then write r else r) ∷ update test write rs

  -- `filter(test).count()`, also the number that `update` returns.
  abbrev pub count : (R → Bool) → List R → ℕ
  count test [] = 0
  count test (r ∷ rs) = let rest = count test rs in if test r then suc rest else rest

  pub All-update {κ} :
      {P : R → Type κ} (test : R → Bool) (write : R → R) (rs : List R)
      → ((r : R) → test r ≡ true → P r → P (write r))
      → All P rs
      → All P (update test write rs)
  All-update test write [] keep h = tt
  All-update {P} test write (r ∷ rs) keep (h, hs) = (
    elim (Bool-cases (test r)) [ inl e ↦ rw e (keep r e h) | inr e ↦ rw e h ],
    All-update {P = P} test write rs keep hs,
  )

  -- A filter that no row meets updates nothing.
  pub update-id :
      (test : R → Bool) (write : R → R) (rs : List R)
      → All (λ r. test r ≡ false) rs
      → update test write rs ≡ rs
  update-id test write [] h = refl
  update-id test write (r ∷ rs) (h, hs) = rw (h, update-id test write rs hs)

  pub count-zero :
      (test : R → Bool) (rs : List R) → All (λ r. test r ≡ false) rs → count test rs ≡ 0
  count-zero test [] h = refl
  count-zero test (r ∷ rs) (h, hs) = rw (h, count-zero test rs hs)

  pub All-write {κ κ'} :
      (P : R → Type κ) (Q : R → Type κ') (test : R → Bool) (write : R → R) (rs : List R)
      → ((r : R) → P r → Q (if test r then write r else r))
      → All P rs
      → All Q (update test write rs)
  All-write P Q test write [] keep h = tt
  All-write P Q test write (r ∷ rs) keep (h, hs) = (keep r h, All-write P Q test write rs keep hs)

  -- `first()` of a filter that the write does not affect finds the row as it was written.
  pub find-update :
      (choose test : R → Bool) (write : R → R) (rs : List R) {r : R}
      → ((x : R) → choose (write x) ≡ choose x)
      → find choose rs ≡ some r
      → find choose (update test write rs) ≡ some (if test r then write r else r)
  find-update choose test write [] keep f = cc
  find-update choose test write (x ∷ rs) {r} keep f = elim (Bool-cases (choose x)) [
    | inl e ↦ ground (arith, keep x)
    | inr e ↦ ground (arith, keep x, find-update choose test write rs {r = r} keep)
  ]
