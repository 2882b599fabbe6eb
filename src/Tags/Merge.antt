-- ===== src/Tags/Merge.antt =====
-- `merge_tags` of core/services/tag_management.py, on the tables of django-taggit. The links are kept in
-- the order of their keys, as the function reads them.
use svrx_pinry.Prelude.{
  ℕ, String, Bool, true, false, ◌&&◌, not, none, some, List, [], ◌∷◌, map, ltb, ◌==◌, any, find,
  select, update, contains, length, sorted_set, Result, done, refused, refuse_if,
}
use svrx_pinry.Boards.Cover.{same_list}

-- `Tag` and `TaggedItem`.
pub record Tag : Type 0 where
  pub pk : ℕ
  pub name : String

pub record TaggedItem : Type 0 where
  pub pk : ℕ
  pub tag_id : ℕ
  pub content_type_id : ℕ
  pub object_id : ℕ

pub record TagDb : Type 0 where
  pub tags : List Tag
  pub links : List TaggedItem

-- The three messages of `TagMergeError`.
pub data TagMergeError : Type 0 where
  too_few_tags target_not_selected tags_changed : TagMergeError

pub record TagMergeResult : Type 0 where
  pub target_name : String
  pub selected_count : ℕ
  pub moved_link_count : ℕ
  pub duplicate_link_count : ℕ

-- `identity in occupied_links`
abbrev pub is_occupied : List (ℕ × ℕ) → TaggedItem → Bool
is_occupied occupied l = any (λ i. i.0 == l.content_type_id && i.1 == l.object_id) occupied

-- The loop over the source links: `move_ids` and `duplicate_ids`.
unfoldable pub split_links : List (ℕ × ℕ) → List TaggedItem → List ℕ × List ℕ
split_links occupied [] = ([], [])
split_links occupied (l ∷ ls) = elim (is_occupied occupied l) [
  | true ↦
      let (move_ids, duplicate_ids) = split_links occupied ls in (move_ids, l.pk ∷ duplicate_ids)
  | false ↦
      let (move_ids, duplicate_ids) =
        split_links ((l.content_type_id, l.object_id) ∷ occupied) ls in
      (l.pk ∷ move_ids, duplicate_ids)
]

-- A tag of the merge other than the target.
abbrev pub is_source : ℕ → List ℕ → ℕ → Bool
is_source target selected tag = contains tag selected && not (tag == target)

-- The writes: duplicates are deleted, the other source links moved, and the source tags deleted with
-- what links they still have.
unfoldable pub write_links : ℕ → List ℕ → List ℕ × List ℕ → List TaggedItem → List TaggedItem
write_links target source_ids (move_ids, duplicate_ids) links =
    select (λ l. not (contains l.tag_id source_ids))
      (update (λ l. contains l.pk move_ids) (λ l. record l { tag_id = target })
        (select (λ l. not (contains l.pk duplicate_ids)) links))

-- `merge_tags` after its checks, for the sorted keys.
unfoldable pub merge_checked : ℕ → List ℕ → Tag → TagDb → TagDb × TagMergeResult
unfolding split_links write_links
merge_checked target selected_ids target_tag db =
    let source_ids = select (λ id. not (id == target)) selected_ids in
    let occupied =
      map (λ l. (l.content_type_id, l.object_id)) (select (λ l. l.tag_id == target) db.links) in
    let ids = split_links occupied (select (λ l. contains l.tag_id source_ids) db.links) in
    (
      record {
        tags = select (λ t. not (contains t.pk source_ids)) db.tags;
        links = write_links target source_ids ids db.links;
      },
      record {
        target_name = target_tag.name;
        selected_count = length selected_ids;
        moved_link_count = length ids.0;
        duplicate_link_count = length ids.1;
      },
    )

-- `merge_tags`.
unfoldable pub merge_tags : ℕ → List ℕ → TagDb → Result TagMergeError (TagDb × TagMergeResult)
unfolding merge_checked
merge_tags target selected db =
    let selected_ids = sorted_set selected in
    refuse_if (ltb (length selected_ids) 2) too_few_tags (
      refuse_if (not (contains target selected_ids)) target_not_selected (
        let tags = select (λ t. contains t.pk selected_ids) db.tags in
        refuse_if (not (same_list (sorted_set (map (λ t. t.pk) tags)) selected_ids)) tags_changed
          (elim (find (λ t. t.pk == target) tags) [
            | none ↦ refused tags_changed
            | some tag ↦ done (merge_checked target selected_ids tag db)
          ])))
