-- ===== src/Exports/Fifo.antt =====
-- The order in which jobs are claimed, and that they are (exports/services/worker.py).
use svrx_pinry.Prelude.{
  ◌≡◌, refl, subst, inl, inr, Bool, true, false, none, some, some_inj, List, [], ◌∷◌, ◌==◌, ==_refl,
  Bool-cases, Option-cases, All, All-map, any, find, select, update, arith,
}
use svrx_pinry.Exports.Tables.{Job}
use svrx_pinry.Exports.Queries.{first_in, by_age}

by_age-later : (w z y : Job) → by_age w z ≡ false → by_age z y ≡ false → by_age w y ≡ false
by_age-later w z y a b = ground arith

by_age-asym : (z y : Job) → by_age z y ≡ true → by_age y z ≡ false
by_age-asym z y a = ground arith

by_age_irrefl : (y : Job) → by_age y y ≡ false
by_age_irrefl y = ground arith

pub first_in-none : (xs : List Job) → first_in by_age xs ≡ none → xs ≡ []
unfolding first_in
first_in-none [] h = refl
first_in-none (y ∷ ys) h = elim (Option-cases (first_in by_age ys)) [
  | inl e ↦ (let x = rw e at h in cc)
  | inr (z, e) ↦ elim (Bool-cases (by_age z y)) [
    | inl b ↦ (let x = rw (e, b) at h in cc)
    | inr b ↦ (let x = rw (e, b) at h in cc)
  ]
]

-- No row is before the first one.
pub first_in-first :
    (xs : List Job) {x : Job} → first_in by_age xs ≡ some x → All (λ y. by_age y x ≡ false) xs
unfolding first_in
first_in-first [] h = cc
first_in-first (y ∷ ys) {x} h = elim (Option-cases (first_in by_age ys)) [
  | inl e ↦
      let last : y ≡ x = some_inj (rw e at h) in
      subst (λ w. All (λ v. by_age v w ≡ false) (y ∷ ys)) last
        (rw (first_in-none ys e) (by_age_irrefl y, tt))
  | inr (z, e) ↦
      let rest = first_in-first ys {x = z} e in
      elim (Bool-cases (by_age z y)) [
        | inl b ↦
            let here : z ≡ x = some_inj (rw (e, b) at h) in
            subst (λ w. All (λ v. by_age v w ≡ false) (y ∷ ys)) here (by_age-asym z y b, rest)
        | inr b ↦
            let here : y ≡ x = some_inj (rw (e, b) at h) in
            subst (λ w. All (λ v. by_age v w ≡ false) (y ∷ ys)) here
              (by_age_irrefl y, All-map ys (λ w a. by_age-later w z y a b) rest)
      ]
]

pub select-first :
    (test : Job → Bool) (x : Job) (xs : List Job)
    → All (λ y. by_age y x ≡ false) (select test xs)
    → All (λ y. test y ≡ true → by_age y x ≡ false) xs
select-first test x [] h = tt
select-first test x (y ∷ ys) h = elim (Bool-cases (test y)) [
  | inl e ↦ (let (a, rest) = rw e at h in ((λ _. a), select-first test x ys rest))
  | inr e ↦ ((λ t. cc), select-first test x ys (rw e at h))
]

pub select-none :
    (test : Job → Bool) (xs : List Job) → select test xs ≡ [] → All (λ y. test y ≡ false) xs
select-none test [] h = tt
select-none test (y ∷ ys) h = elim (Bool-cases (test y)) [
  | inl e ↦ (let x = rw e at h in cc)
  | inr e ↦ (e, select-none test ys (rw e at h))
]

pub present : (xs : List Job) → All (λ x. any (λ k. k.pk == x.pk) xs ≡ true) xs
present [] = tt
present (x ∷ xs) = (ground (arith, ==_refl x.pk), All-map xs (λ k e. ground arith) (present xs))

-- The row that was saved is what the fence of its lease finds.
pub find-saved :
    (fence : Job → Bool) (job : Job) (js : List Job)
    → fence job ≡ true
    → ((k : Job) → (k.pk == job.pk) ≡ false → fence k ≡ false)
    → any (λ k. k.pk == job.pk) js ≡ true
    → find fence (update (λ k. k.pk == job.pk) (λ _. job) js) ≡ some job
find-saved fence job [] f others h = cc
find-saved fence job (j ∷ js) f others h = elim (Bool-cases (j.pk == job.pk)) [
  | inl e ↦ rw e (rw f refl)
  | inr e ↦ rw e (rw (others j e) (find-saved fence job js f others (rw e at h)))
]
