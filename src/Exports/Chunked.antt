-- ===== src/Exports/Chunked.antt =====
-- What the chunks of exports/services/targeting.py and exports/services/permissions.py are.
use svrx_pinry.Prelude.{
  ℕ, zero, suc, ◌≤◌, ◌≡◌, refl, sym, ap, ◌∙◌, subst, inl, inr, false, List, [], ◌∷◌, ◌++◌, ◌==◌,
  ==_iff, ◌≢◌, Bool-cases, All, length, length-append, arith, done, refuse_if, refuse_if-false,
}
use svrx_pinry.Exports.Maintenance.{first_of}
use svrx_pinry.Exports.Chunks.{without_first, slices, iter_chunks, fill, chunks_of, concat}

append-nil {ℓ} : {A : Type ℓ} (xs : List A) → xs ++ [] ≡ xs
append-nil [] = refl
append-nil (x ∷ xs) = ap (λ l. x ∷ l) (append-nil xs)

append_assoc {ℓ} : {A : Type ℓ} (xs ys zs : List A) → (xs ++ ys) ++ zs ≡ xs ++ (ys ++ zs)
append_assoc [] ys zs = refl
append_assoc (x ∷ xs) ys zs = ap (λ l. x ∷ l) (append_assoc xs ys zs)

module _ {ℓ} {A : Type ℓ} where
  first_of-rest : (n : ℕ) (xs : List A) → first_of n xs ++ without_first n xs ≡ xs
  unfolding first_of without_first
  first_of-rest zero xs = refl
  first_of-rest (suc n) [] = refl
  first_of-rest (suc n) (x ∷ xs) = ap (λ l. x ∷ l) (first_of-rest n xs)

  length-without : (n : ℕ) (xs : List A) → length (without_first n xs) ≤ length xs
  unfolding without_first
  length-without zero xs = omega arith
  length-without (suc n) [] = omega arith
  length-without (suc n) (x ∷ xs) = (let rest = length-without n xs in omega arith)

  -- A chunk: it is not empty, and no longer than the size.
  abbrev pub IsChunk : ℕ → List A → Type 0
  IsChunk size chunk = (1 ≤ length chunk) × (length chunk ≤ size)

  length-first : (n : ℕ) (xs : List A) → length (first_of n xs) ≤ n
  unfolding first_of
  length-first zero xs = omega arith
  length-first (suc n) [] = omega arith
  length-first (suc n) (x ∷ xs) = (let rest = length-first n xs in omega arith)

  pub concat-slices :
      (n size : ℕ) (xs : List A) → length xs ≤ n → concat (slices n (suc size) xs) ≡ xs
  unfolding slices first_of without_first
  concat-slices zero size [] le = refl
  concat-slices zero size (x ∷ xs) le = ground arith
  concat-slices (suc n) size [] le = refl
  concat-slices (suc n) size (x ∷ xs) le =
      let rest =
        concat-slices n size (without_first size xs)
          (let shorter = length-without size xs in omega arith) in
      ap (λ l. x ∷ l) (ap (λ (l : List A). first_of size xs ++ l) rest ∙ first_of-rest size xs)

  slices-IsChunk : (n size : ℕ) (xs : List A) → All (IsChunk (suc size)) (slices n (suc size) xs)
  unfolding slices first_of without_first
  slices-IsChunk zero size xs = tt
  slices-IsChunk (suc n) size [] = tt
  slices-IsChunk (suc n) size (x ∷ xs) = (
    (let short = length-first size xs in (omega arith, omega arith)),
    slices-IsChunk n size (without_first size xs),
  )

  -- The chunks of `iter_chunks`.
  pub record IsChunking (values : List A) (size : ℕ) (chunks : List (List A)) : Type ℓ where
    pub joined : concat chunks ≡ values
    pub bounded : All (IsChunk size) chunks

-- The chunks that `iter_chunks` yields for a positive size are the values again, in their order, when
-- they are put together; none is empty or longer than the size.
pub iter_chunks-IsChunking {ℓ} :
    {A : Type ℓ} (values : List A) (size : ℕ)
    → 1 ≤ size
    → (chunks : List (List A)) × (iter_chunks values size ≡ done chunks)
      × IsChunking values size chunks
unfolding iter_chunks refuse_if
iter_chunks-IsChunking values zero le = ground arith
iter_chunks-IsChunking values (suc size) le = (
  slices (length values) (suc size) values,
  refuse_if-false (suc size == 0) _ _ (ground arith),
  record {
    joined = concat-slices (length values) size values (omega arith);
    bounded = slices-IsChunk (length values) size values;
  },
)

unequal : (a b : ℕ) → (a == b) ≡ false → a ≢ b
unequal a b h = ground arith

module _ {ℓ} {A : Type ℓ} where
  first_of-append : (k : ℕ) (xs ys : List A) → length xs ≡ k → first_of k (xs ++ ys) ≡ xs
  unfolding first_of
  first_of-append zero [] ys e = refl
  first_of-append (suc k) (x ∷ xs) ys e = ap (λ l. x ∷ l) (first_of-append k xs ys (omega arith))
  first_of-append zero (x ∷ xs) ys e = ground arith
  first_of-append (suc k) [] ys e = ground arith

  without-append : (k : ℕ) (xs ys : List A) → length xs ≡ k → without_first k (xs ++ ys) ≡ ys
  unfolding without_first
  without-append zero [] ys e = refl
  without-append (suc k) (x ∷ xs) ys e = without-append k xs ys (omega arith)
  without-append zero (x ∷ xs) ys e = ground arith
  without-append (suc k) [] ys e = ground arith

  first_of-all : (k : ℕ) (xs : List A) → length xs ≤ k → first_of k xs ≡ xs
  unfolding first_of
  first_of-all zero [] le = refl
  first_of-all zero (x ∷ xs) le = ground arith
  first_of-all (suc k) [] le = refl
  first_of-all (suc k) (x ∷ xs) le = ap (λ l. x ∷ l) (first_of-all k xs (omega arith))

  without-all : (k : ℕ) (xs : List A) → length xs ≤ k → without_first k xs ≡ []
  unfolding without_first
  without-all zero [] le = refl
  without-all zero (x ∷ xs) le = ground arith
  without-all (suc k) [] le = refl
  without-all (suc k) (x ∷ xs) le = without-all k xs (omega arith)

  slices-nil : (n size : ℕ) → slices {A = A} n size [] ≡ []
  unfolding slices
  slices-nil zero size = refl
  slices-nil (suc n) size = refl

  slices-step :
      (n size : ℕ) (xs : List A)
      → 1 ≤ length xs
      → length xs ≤ n
      → (m : ℕ) × (n ≡ suc m)
        × (slices n size xs ≡ first_of size xs ∷ slices m size (without_first size xs))
  unfolding slices
  slices-step zero size xs a b = ground arith
  slices-step (suc n) size [] a b = ground arith
  slices-step (suc n) size (x ∷ xs) a b = (n, refl, refl)

  fill-slices :
      (size n : ℕ) (chunk xs : List A)
      → length chunk ≤ size
      → length (chunk ++ xs) ≤ n
      → fill (suc size) chunk xs ≡ slices n (suc size) (chunk ++ xs)
  unfolding fill
  fill-slices size n [] [] a b = sym (slices-nil n (suc size))
  fill-slices size n (c ∷ chunk) [] a b =
      let whole = append-nil (c ∷ chunk) in
      let (m, e, step) =
        slices-step n (suc size) (c ∷ chunk) (omega arith)
          (subst (λ (l : List A). length l ≤ n) whole b) in
      let fits : length (c ∷ chunk) ≤ suc size = omega arith in
      sym (
        step
        ∙ ap (λ (l : List A). l ∷ slices m (suc size) (without_first (suc size) (c ∷ chunk)))
            (first_of-all (suc size) (c ∷ chunk) fits)
        ∙ ap (λ (l : List A). (c ∷ chunk) ∷ slices m (suc size) l)
            (without-all (suc size) (c ∷ chunk) fits)
        ∙ ap (λ l. (c ∷ chunk) ∷ l) (slices-nil m (suc size)))
      ∙ ap (λ (l : List A). slices n (suc size) l) (sym whole)
  fill-slices size n chunk (x ∷ xs) a b =
      let more = chunk ++ x ∷ [] in
      let len = length-append chunk (x ∷ []) in
      let moved = append_assoc chunk (x ∷ []) xs in
      let total = length-append more xs in
      let fits : length (more ++ xs) ≤ n = subst (λ (l : List A). length l ≤ n) (sym moved) b in
      elim (Bool-cases (length more == suc size)) [
        | inl e ↦
            let full = (==_iff (length more) (suc size)).0 e in
            let (m, eq, step) = slices-step n (suc size) (more ++ xs) (omega arith) fits in
            rw e (
              ap (λ l. more ∷ l) (fill-slices size m [] xs (omega arith) (omega arith))
              ∙ sym (
                  step
                  ∙ ap
                      (λ (l : List A).
                        l ∷ slices m (suc size) (without_first (suc size) (more ++ xs)))
                      (first_of-append (suc size) more xs full)
                  ∙ ap (λ (l : List A). more ∷ slices m (suc size) l)
                      (without-append (suc size) more xs full))
              ∙ ap (λ (l : List A). slices n (suc size) l) moved)
        | inr e ↦
            let short = unequal (length more) (suc size) e in
            rw e (
              fill-slices size n more xs (omega arith) fits
              ∙ ap (λ (l : List A). slices n (suc size) l) moved)
      ]

-- The generator `_chunks`, which fills a chunk value by value, yields what `iter_chunks` yields by
-- slices, for every positive size.
pub chunks_of-iter_chunks {ℓ} :
    {A : Type ℓ} (values : List A) (size : ℕ)
    → 1 ≤ size
    → iter_chunks values size ≡ done (chunks_of values size)
unfolding iter_chunks chunks_of
chunks_of-iter_chunks values zero le = ground arith
chunks_of-iter_chunks values (suc size) le =
    refuse_if-false (suc size == 0) _ _ (ground arith)
    ∙ ap (λ c. done c)
        (sym (fill-slices size (length values) [] values (omega arith) (omega arith)))

pub concat-chunks_of {ℓ} :
    {A : Type ℓ} (values : List A) (size : ℕ) → concat (chunks_of values (suc size)) ≡ values
unfolding chunks_of
concat-chunks_of values size =
    ap (λ c. concat c) (fill-slices size (length values) [] values (omega arith) (omega arith))
    ∙ concat-slices (length values) size values (omega arith)
