-- ===== src/Exports/Chunks.antt =====
-- Lists in chunks: `iter_chunks` of exports/services/targeting.py and `_chunks` of
-- exports/services/permissions.py.
use svrx_pinry.Prelude.{
  ℕ, zero, suc, List, [], ◌∷◌, ◌++◌, ◌==◌, min, length, if◌then◌else◌, Result, done, refuse_if,
}
use svrx_pinry.Exports.Contracts.{ExportFault, chunk_size_must_be_positive}
use svrx_pinry.Exports.Maintenance.{first_of}

-- `QUERY_CHUNK_SIZE`.
abbrev pub query_chunk_size : ℕ
query_chunk_size = 400

module _ {ℓ} {A : Type ℓ} where
  -- `values[n:]`.
  unfoldable pub without_first : ℕ → List A → List A
  without_first zero xs = xs
  without_first (suc n) [] = []
  without_first (suc n) (x ∷ xs) = without_first n xs

  -- The slices at the offsets `range(0, len(values), size)`; there are at most as many as values.
  unfoldable pub slices : ℕ → ℕ → List A → List (List A)
  unfolding first_of without_first
  slices zero size xs = []
  slices (suc n) size [] = []
  slices (suc n) size (x ∷ xs) =
      first_of size (x ∷ xs) ∷ slices n size (without_first size (x ∷ xs))

  -- `iter_chunks`, as the list of what it yields.
  unfoldable pub iter_chunks : List A → ℕ → Result ExportFault (List (List A))
  unfolding refuse_if slices
  iter_chunks values size =
      refuse_if (size == 0) chunk_size_must_be_positive (done (slices (length values) size values))

  -- The loop of `_chunks`, on the chunk that it fills.
  unfoldable pub fill : ℕ → List A → List A → List (List A)
  fill size [] [] = []
  fill size (c ∷ chunk) [] = (c ∷ chunk) ∷ []
  fill size chunk (x ∷ xs) =
      let full = fill size [] xs in
      let more = fill size (chunk ++ x ∷ []) xs in
      if length (chunk ++ x ∷ []) == size then (chunk ++ x ∷ []) ∷ full else more

  -- `_chunks`, as the list of what it yields.
  unfoldable pub chunks_of : List A → ℕ → List (List A)
  unfolding fill
  chunks_of values size = fill size [] values

  abbrev pub concat : List (List A) → List A
  concat [] = []
  concat (xs ∷ xss) = xs ++ concat xss

-- `_chunk_size`.
unfoldable pub chunk_size : ℕ → Result ExportFault ℕ
unfolding refuse_if
chunk_size value =
    refuse_if (value == 0) chunk_size_must_be_positive (done (min value query_chunk_size))
