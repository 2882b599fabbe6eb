-- ===== src/Tags/Merged.antt =====
-- What `merge_tags` of core/services/tag_management.py leaves: each object keeps its tags, with the target
-- in place of the others, and once.
use svrx_pinry.Prelude.{
  ℕ, ◌+◌, ◌≡◌, refl, sym, ◌∙◌, inl, inr, Bool, true, false, ◌&&◌, not, List, [], ◌∷◌, map, ltb,
  ◌==◌, if◌then◌else◌, any, find, select, contains, contains-select, contains-sorted_set,
  sorted_set, length, count, subst, ==_iff, Bool-cases, Option-cases, arith, Ensures,
  Ensures-refuse_if, returns, stops,
}
use svrx_pinry.Tags.Merge.{
  Tag, TaggedItem, TagDb, TagMergeResult, is_occupied, is_source, split_links, merge_checked,
  merge_tags,
}
use svrx_pinry.Tags.Walk.{IsRising, walk, walk-dropped, walk-moved, walk-other, write_links-walk}

-- The link of a tag to an object, and of a tag that is merged to it.
abbrev pub is_link : ℕ → ℕ → ℕ → TaggedItem → Bool
is_link tag ct object l = l.tag_id == tag && (l.content_type_id == ct && l.object_id == object)

abbrev pub is_merged_link : ℕ → List ℕ → ℕ → ℕ → TaggedItem → Bool
is_merged_link target selected ct object l =
    is_source target selected l.tag_id && (l.content_type_id == ct && l.object_id == object)

abbrev knows : List (ℕ × ℕ) → ℕ → ℕ → Bool
knows occupied ct object = any (λ i. i.0 == ct && i.1 == object) occupied

-- How many links to the target an object gets.
abbrev gained : Bool → Bool → ℕ
gained known asked = if known then 0 else if asked then 1 else 0

module _ (target : ℕ) (sources : List ℕ) (t : contains target sources ≡ false) (ct object : ℕ) where
  abbrev asks : TaggedItem → Bool
  asks l = contains l.tag_id sources && (l.content_type_id == ct && l.object_id == object)

  source-other : (tag : ℕ) → contains tag sources ≡ true → (tag == target) ≡ false
  source-other tag m = elim (Bool-cases (tag == target)) [
    | inl e ↦ absurd (
        false-true
          (sym t ∙ subst (λ (n : ℕ). contains n sources ≡ true) ((==_iff tag target).0 e) m))
    | inr e ↦ e
  ]
    where
      false-true : false ≡ true → ⊥
      false-true h = cc

  knows-of :
      (occupied : List (ℕ × ℕ)) (l : TaggedItem)
      → (l.content_type_id == ct && l.object_id == object) ≡ true
      → knows occupied ct object ≡ is_occupied occupied l
  knows-of [] l h = refl
  knows-of (i ∷ is) l h = ground (arith, knows-of is l h)

  count-walk-target :
      (occupied : List (ℕ × ℕ)) (ls : List TaggedItem)
      → count (is_link target ct object) (walk target sources occupied ls)
        ≡ count (is_link target ct object) ls + gained (knows occupied ct object) (any asks ls)
  unfolding walk
  count-walk-target occupied [] = ground arith
  count-walk-target occupied (l ∷ ls) =
      let occupied' = (l.content_type_id, l.object_id) ∷ occupied in
      let same = count-walk-target occupied ls in
      let more = count-walk-target occupied' ls in
      elim (Bool-cases (contains l.tag_id sources)) [
        | inl m ↦ elim (Bool-cases (is_occupied occupied l)) [
          | inl e ↦
              rw (walk-dropped target sources occupied l ls m e)
                (ground (arith, source-other l.tag_id m, knows-of occupied l))
          | inr e ↦
              rw (walk-moved target sources occupied l ls m e)
                (ground (arith, source-other l.tag_id m, knows-of occupied l))
        ]
        | inr m ↦ rw (walk-other target sources occupied l ls m) (ground arith)
      ]

  count-walk-other :
      (tag : ℕ) (occupied : List (ℕ × ℕ)) (ls : List TaggedItem)
      → (tag == target) ≡ false
      → count (is_link tag ct object) (walk target sources occupied ls)
        ≡ (if contains tag sources then 0 else count (is_link tag ct object) ls)
  unfolding walk
  count-walk-other tag occupied [] other = ground arith
  count-walk-other tag occupied (l ∷ ls) other =
      let occupied' = (l.content_type_id, l.object_id) ∷ occupied in
      let same = count-walk-other tag occupied ls other in
      let more = count-walk-other tag occupied' ls other in
      elim (Bool-cases (contains l.tag_id sources)) [
        | inl m ↦ elim (Bool-cases (is_occupied occupied l)) [
          | inl e ↦ rw (walk-dropped target sources occupied l ls m e) (ground arith)
          | inr e ↦ rw (walk-moved target sources occupied l ls m e) (ground arith)
        ]
        | inr m ↦ rw (walk-other target sources occupied l ls m) (ground arith)
      ]

  knows-targets :
      (ls : List TaggedItem)
      → knows
          (map (λ l. (l.content_type_id, l.object_id)) (select (λ l. l.tag_id == target) ls))
          ct
          object
        ≡ ltb 0 (count (is_link target ct object) ls)
  knows-targets [] = refl
  knows-targets (l ∷ ls) = ground (arith, knows-targets ls)

split_links-length :
    (occupied : List (ℕ × ℕ)) (ls : List TaggedItem)
    → length (split_links occupied ls).0 + length (split_links occupied ls).1 ≡ length ls
unfolding split_links
split_links-length occupied [] = refl
split_links-length occupied (l ∷ ls) = elim (Bool-cases (is_occupied occupied l)) [
  | inl e ↦ let n = split_links-length occupied ls in rw (e, split_links) (omega arith)
  | inr e ↦
      let n = split_links-length ((l.content_type_id, l.object_id) ∷ occupied) ls in
      rw (e, split_links) (omega arith)
]

-- What a merge leaves of the database `db`.
pub record IsMerge (target : ℕ) (selected : List ℕ) (db : TagDb) (r : TagDb × TagMergeResult)
    : Type 0 where
  pub on_target :
      (ct object : ℕ)
      → count (is_link target ct object) r.0.links
        ≡ count (is_link target ct object) db.links
          + gained
              (ltb 0 (count (is_link target ct object) db.links))
              (any (is_merged_link target selected ct object) db.links)
  pub on_others :
      (tag ct object : ℕ)
      → (tag == target) ≡ false
      → count (is_link tag ct object) r.0.links
        ≡ (if contains tag selected then 0 else count (is_link tag ct object) db.links)
  pub tags_left : r.0.tags ≡ select (λ t. not (is_source target selected t.pk)) db.tags
  pub counted :
      r.1.moved_link_count + r.1.duplicate_link_count
      ≡ count (λ l. is_source target selected l.tag_id) db.links

module _ (target : ℕ) (selected : List ℕ) where
  abbrev sources_of : List ℕ
  sources_of = select (λ id. not (id == target)) (sorted_set selected)

  contains-sources : (tag : ℕ) → contains tag sources_of ≡ is_source target selected tag
  contains-sources tag = ground (
    arith,
    contains-select tag (λ id. not (id == target)) (sorted_set selected),
    contains-sorted_set tag selected,
  )

  any-asks :
      (ct object : ℕ) (ls : List TaggedItem)
      → any
          (λ l. contains l.tag_id sources_of && (l.content_type_id == ct && l.object_id == object))
          ls
        ≡ any (is_merged_link target selected ct object) ls
  any-asks ct object [] = refl
  any-asks ct object (l ∷ ls) = rw (contains-sources l.tag_id, any-asks ct object ls) refl

  count-sources :
      (ls : List TaggedItem)
      → length (select (λ l. contains l.tag_id sources_of) ls)
        ≡ count (λ l. is_source target selected l.tag_id) ls
  count-sources [] = refl
  count-sources (l ∷ ls) = ground (arith, contains-sources l.tag_id, count-sources ls)

  select-tags :
      (ts : List Tag)
      → select (λ t. not (contains t.pk sources_of)) ts
        ≡ select (λ t. not (is_source target selected t.pk)) ts
  select-tags [] = refl
  select-tags (t ∷ ts) = rw (contains-sources t.pk, select-tags ts) refl

  merge_checked-IsMerge :
      (tag : Tag) (n : ℕ) (db : TagDb)
      → IsRising n db.links
      → IsMerge target selected db (merge_checked target (sorted_set selected) tag db)
  unfolding merge_checked
  merge_checked-IsMerge tag n db rising =
      let occupied =
        map (λ l. (l.content_type_id, l.object_id)) (select (λ l. l.tag_id == target) db.links) in
      let no_target : contains target sources_of ≡ false =
        ground (arith, contains-sources target) in
      let same = write_links-walk target sources_of occupied n db.links no_target rising in
      record {
        on_target = λ ct object. rw same (
            count-walk-target target sources_of no_target ct object occupied db.links
            ∙ rw
                (
                  knows-targets target sources_of no_target ct object db.links,
                  any-asks ct object db.links,
                )
                refl);
        on_others = λ t ct object other. rw same (
            count-walk-other target sources_of no_target ct object t occupied db.links other
            ∙ rw (contains-sources t) (ground arith));
        tags_left = select-tags db.tags;
        counted = split_links-length occupied _ ∙ count-sources db.links;
      }

-- A merge that is not refused, on a table of links with rising keys: an object that had the target keeps
-- its links to it, and one that had only tags that were merged gets exactly one; no link to a
-- merged tag is left, and those of the other tags are what they were; the merged tags are gone; and the
-- moved and the duplicate links that are reported add up to the links of the merged tags.
pub merge_tags-IsMerge :
    (target : ℕ) (selected : List ℕ) (n : ℕ) (db : TagDb)
    → IsRising n db.links
    → Ensures (IsMerge target selected db) (merge_tags target selected db)
unfolding merge_tags
merge_tags-IsMerge target selected n db rising =
    let tags = select (λ t. contains t.pk (sorted_set selected)) db.tags in
    Ensures-refuse_if _ _ _ λ _. Ensures-refuse_if _ _ _ λ _. Ensures-refuse_if _ _ _ λ _.
      elim (Option-cases (find (λ t. t.pk == target) tags)) [
        | inl e ↦ rw e stops
        | inr (tag, e) ↦ rw e (returns (merge_checked-IsMerge target selected tag n db rising))
      ]
