-- ===== src/Tags/Walk.antt =====
-- The writes of `merge_tags` (core/services/tag_management.py) as one walk over the links.
use svrx_pinry.Prelude.{
  ℕ, ◌<◌, ◌≡◌, refl, sym, ap, ◌∙◌, inl, inr, Bool, true, false, ◌||◌, List, [], ◌∷◌, ◌==◌,
  if◌then◌else◌, select, contains, All, All-map, Bool-cases, arith,
}
use svrx_pinry.Tags.Merge.{TaggedItem, is_occupied, split_links, write_links}

-- The keys rise along the table, from above `n`.
abbrev pub IsRising : ℕ → List TaggedItem → Type 0
IsRising n [] = Unit
IsRising n (l ∷ ls) = (n < l.pk) × IsRising l.pk ls

pub IsRising-above : (n : ℕ) (ls : List TaggedItem) → IsRising n ls → All (λ l. n < l.pk) ls
IsRising-above n [] h = tt
IsRising-above n (l ∷ ls) (h, hs) =
    (h, All-map ls (λ x (p : l.pk < x.pk). omega arith) (IsRising-above l.pk ls hs))

module _ (target : ℕ) (sources : List ℕ) where
  abbrev is_moving : TaggedItem → Bool
  is_moving l = contains l.tag_id sources

  -- The links after the merge, where these identities have a link of the target already.
  unfoldable pub walk : List (ℕ × ℕ) → List TaggedItem → List TaggedItem
  walk occupied [] = []
  walk occupied (l ∷ ls) = elim (contains l.tag_id sources) [
    | true ↦ elim (is_occupied occupied l) [
      | true ↦ walk occupied ls
      | false ↦ record l { tag_id = target } ∷ walk ((l.content_type_id, l.object_id) ∷ occupied) ls
    ]
    | false ↦ l ∷ walk occupied ls
  ]

  module _ (occupied : List (ℕ × ℕ)) (l : TaggedItem) (ls : List TaggedItem) where
    pub walk-dropped :
        contains l.tag_id sources ≡ true
        → is_occupied occupied l ≡ true
        → walk occupied (l ∷ ls) ≡ walk occupied ls
    unfolding walk
    walk-dropped m e = rw (m, walk) (rw e refl)

    pub walk-moved :
        contains l.tag_id sources ≡ true
        → is_occupied occupied l ≡ false
        → walk occupied (l ∷ ls)
          ≡ record l { tag_id = target } ∷ walk ((l.content_type_id, l.object_id) ∷ occupied) ls
    unfolding walk
    walk-moved m e = rw (m, walk) (rw e refl)

    pub walk-other :
        contains l.tag_id sources ≡ false → walk occupied (l ∷ ls) ≡ l ∷ walk occupied ls
    unfolding walk
    walk-other m = rw (m, walk) refl

  -- Keys that a list of links does not reach.
  abbrev IsApart : ℕ → List ℕ × List ℕ → Type 0
  IsApart pk ids = (contains pk ids.0 ≡ false) × (contains pk ids.1 ≡ false)

  split-IsApart :
      (occupied : List (ℕ × ℕ)) (n : ℕ) (ls : List TaggedItem) (test : TaggedItem → Bool)
      → All (λ l. n < l.pk) ls
      → IsApart n (split_links occupied (select test ls))
  unfolding split_links
  split-IsApart occupied n [] test h = (refl, refl)
  split-IsApart occupied n (l ∷ ls) test (h, hs) =
      let a = split-IsApart occupied n ls test hs in
      let b = split-IsApart ((l.content_type_id, l.object_id) ∷ occupied) n ls test hs in
      elim (Bool-cases (test l)) [
        | inl t ↦ elim (Bool-cases (is_occupied occupied l)) [
          | inl e ↦ rw t (rw (e, split_links) (ground arith))
          | inr e ↦ rw t (rw (e, split_links) (ground arith))
        ]
        | inr t ↦ rw t a
      ]

  abbrev moved : List ℕ → TaggedItem → TaggedItem
  moved move l = if contains l.pk move then record l { tag_id = target } else l

  -- The first link on its own.
  write-first :
      (move drop : List ℕ) (l : TaggedItem) (ls : List TaggedItem)
      → write_links target sources (move, drop) (l ∷ ls) ≡ (
          if contains l.pk drop || contains (moved move l).tag_id sources
          then write_links target sources (move, drop) ls
          else moved move l ∷ write_links target sources (move, drop) ls)
  unfolding write_links
  write-first move drop l ls = elim (Bool-cases (contains l.pk drop)) [
    | inl d ↦ rw d refl
    | inr d ↦ rw d (elim (Bool-cases (contains (moved move l).tag_id sources)) [
      | inl m ↦ rw m refl
      | inr m ↦ rw m refl
    ])
  ]

  -- A key below the links makes no difference to them.
  write-move :
      (pk : ℕ) (move drop : List ℕ) (ls : List TaggedItem)
      → All (λ l. pk < l.pk) ls
      → write_links target sources (pk ∷ move, drop) ls ≡ write_links target sources (move, drop) ls
  unfolding write_links
  write-move pk move drop [] h = refl
  write-move pk move drop (l ∷ ls) (h, hs) =
      let other : (l.pk == pk) ≡ false = ground arith in
      write-first (pk ∷ move) drop l ls
      ∙ rw (other, write-move pk move drop ls hs) (sym (write-first move drop l ls))

  write-drop :
      (pk : ℕ) (move drop : List ℕ) (ls : List TaggedItem)
      → All (λ l. pk < l.pk) ls
      → write_links target sources (move, pk ∷ drop) ls ≡ write_links target sources (move, drop) ls
  unfolding write_links
  write-drop pk move drop [] h = refl
  write-drop pk move drop (l ∷ ls) (h, hs) =
      let other : (l.pk == pk) ≡ false = ground arith in
      write-first move (pk ∷ drop) l ls
      ∙ rw (other, write-drop pk move drop ls hs) (sym (write-first move drop l ls))

  write-dropped :
      (move drop : List ℕ) (l : TaggedItem) (ls : List TaggedItem)
      → contains l.pk drop ≡ true
      → write_links target sources (move, drop) (l ∷ ls)
        ≡ write_links target sources (move, drop) ls
  write-dropped move drop l ls d = write-first move drop l ls ∙ rw d refl

  write-kept :
      (move drop : List ℕ) (l l' : TaggedItem) (ls : List TaggedItem)
      → contains l.pk drop ≡ false
      → moved move l ≡ l'
      → contains l'.tag_id sources ≡ false
      → write_links target sources (move, drop) (l ∷ ls)
        ≡ l' ∷ write_links target sources (move, drop) ls
  write-kept move drop l l' ls d m k = write-first move drop l ls ∙ rw (d, m, k) refl

  write-none : (ids : List ℕ × List ℕ) → write_links target sources ids [] ≡ []
  unfolding write_links
  write-none (move, drop) = refl

  pub write_links-walk :
      (occupied : List (ℕ × ℕ)) (n : ℕ) (ls : List TaggedItem)
      → contains target sources ≡ false
      → IsRising n ls
      → write_links target sources (split_links occupied (select is_moving ls)) ls
        ≡ walk occupied ls
  unfolding split_links walk
  write_links-walk occupied n [] t h = write-none _
  write_links-walk occupied n (l ∷ ls) t (h, hs) =
      let above = IsRising-above l.pk ls hs in
      elim (Bool-cases (contains l.tag_id sources)) [
        | inl m ↦ elim (Bool-cases (is_occupied occupied l)) [
          | inl e ↦
              let ids = split_links occupied (select is_moving ls) in
              rw m (
                rw (e, split_links)
                  (write-dropped ids.0 (l.pk ∷ ids.1) l ls (ground arith)
                    ∙ write-drop l.pk ids.0 ids.1 ls above
                    ∙ write_links-walk occupied l.pk ls t hs
                    ∙ sym (walk-dropped occupied l ls m e)))
          | inr e ↦
              let occupied' = (l.content_type_id, l.object_id) ∷ occupied in
              let ids = split_links occupied' (select is_moving ls) in
              let apart = split-IsApart occupied' l.pk ls is_moving above in
              rw m (
                rw (e, split_links)
                  (write-kept (l.pk ∷ ids.0) ids.1 l (record l { tag_id = target }) ls apart.1
                      (ground arith) t
                    ∙ ap (λ (xs : List TaggedItem). record l { tag_id = target } ∷ xs)
                        (write-move l.pk ids.0 ids.1 ls above
                          ∙ write_links-walk occupied' l.pk ls t hs)
                    ∙ sym (walk-moved occupied l ls m e)))
        ]
        | inr m ↦
            let ids = split_links occupied (select is_moving ls) in
            let apart = split-IsApart occupied l.pk ls is_moving above in
            rw m (
              write-kept ids.0 ids.1 l l ls apart.1 (rw apart.0 refl) m
              ∙ ap (λ (xs : List TaggedItem). l ∷ xs) (write_links-walk occupied l.pk ls t hs)
              ∙ sym (walk-other occupied l ls m))
      ]
