-- ===== src/Record/Tags.antt =====
-- record_set_tags and record_add_relationship of src/memory/record.c. Allocation is assumed to
-- succeed; what is copied is then refused only for a NULL tag.
use aegisdb.Prelude.{ℕ, Bool, true, false, Option, none, some, List, [], ◌∷◌, ◌++◌}
use aegisdb.Record.{CString, MemoryRecord}

-- The loop over the tags, or `none` where one of them is NULL.
unfoldable pub dup_tags : List (Option CString) → Option (List CString)
dup_tags [] = some []
dup_tags (none ∷ ts) = none
dup_tags (some t ∷ ts) =
    let rest = dup_tags ts in elim rest [ none ↦ none | some copies ↦ some (t ∷ copies) ]

-- Whether the call succeeds, and the record: the old tags are gone in both cases.
unfoldable pub set_tags : MemoryRecord → List (Option CString) → Bool × MemoryRecord
set_tags r tags = elim (dup_tags tags) [
  | none ↦ (false, record r { tags = [] })
  | some copies ↦ (true, record r { tags = copies })
]

unfoldable pub add_relationship : MemoryRecord → ℕ → ℕ → Option CString → MemoryRecord
add_relationship r from to kind = record r {
  relationships = r.relationships ++ record { from_id = from; to_id = to; kind = kind } ∷ [];
}
