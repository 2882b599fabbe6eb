-- ===== src/Tests/Tags.antt =====
-- An example for the theorem on core/services/tag_management.py.
use svrx_pinry.Prelude.{[], ◌∷◌, Ensures, arith}
use svrx_pinry.Tags.Merge.{TagDb, merge_tags}
use svrx_pinry.Tags.Merged.{IsMerge, merge_tags-IsMerge}

-- Object 9 has the tags 2 and 3, object 8 the tag 3 alone.
abbrev tag_db : TagDb
tag_db = record {
  tags =
      record { pk = 1; name = "cat" }
      ∷ record { pk = 2; name = "cats" }
      ∷ record { pk = 3; name = "kitten" }
      ∷ [];
  links =
      record { pk = 4; tag_id = 2; content_type_id = 1; object_id = 9 }
      ∷ record { pk = 5; tag_id = 3; content_type_id = 1; object_id = 9 }
      ∷ record { pk = 6; tag_id = 3; content_type_id = 1; object_id = 8 }
      ∷ [];
}

merge_tags-IsMerge_example :
    Ensures (IsMerge 1 (3 ∷ 1 ∷ 2 ∷ []) tag_db) (merge_tags 1 (3 ∷ 1 ∷ 2 ∷ []) tag_db)
merge_tags-IsMerge_example =
    merge_tags-IsMerge 1 (3 ∷ 1 ∷ 2 ∷ []) 0 tag_db (omega arith, (omega arith, (omega arith, tt)))
