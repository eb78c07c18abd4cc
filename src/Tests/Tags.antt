-- ===== src/Tests/Tags.antt =====
-- An index with one tag in two records, built by calls.
use aegisdb.Prelude.{ℕ, ◌≡◌, true, false, [], ◌∷◌, ◌||◌, ◌&&◌}
use aegisdb.Record.{CString}
use aegisdb.CStrings.{is_same}
use aegisdb.TagIndex.{TagIndex, create, add, remove, query}
use aegisdb.TagIndex.Ids.{IsAscending, has}
use aegisdb.TagIndex.Postings.{
  IsValid, is_tagged, create-IsValid, add-IsValid_tags, remove-IsValid_tags, is_tagged-add,
  is_tagged-remove,
}
use aegisdb.TagIndex.Query.{every, any, query-every, query-any}

abbrev red : CString
red = 114 ∷ []

abbrev blue : CString
blue = 98 ∷ []

abbrev two_records : TagIndex
two_records = add (add create red 7) red 5

two_records-IsValid : IsValid two_records
two_records-IsValid =
    add-IsValid_tags (add create red 7) red 5 (add-IsValid_tags create red 7 create-IsValid)

add-IsValid_tags_example : IsValid (add two_records blue 5)
add-IsValid_tags_example = add-IsValid_tags two_records blue 5 two_records-IsValid

remove-IsValid_tags_example : IsValid (remove two_records red 5)
remove-IsValid_tags_example = remove-IsValid_tags two_records red 5 two_records-IsValid

is_tagged-add_example :
    is_tagged (add two_records blue 5) blue 5 ≡ is_tagged two_records blue 5 || true
unfolding is_same
is_tagged-add_example = is_tagged-add two_records blue 5 two_records-IsValid blue 5

is_tagged-remove_example :
    is_tagged (remove two_records red 5) red 7 ≡ is_tagged two_records red 7 && true
unfolding is_same
is_tagged-remove_example = is_tagged-remove two_records red 5 two_records-IsValid red 7

query-every_example :
    IsAscending (query two_records (red ∷ blue ∷ []) true)
    × ((id : ℕ)
        → has id (query two_records (red ∷ blue ∷ []) true)
          ≡ every two_records (red ∷ blue ∷ []) id)
query-every_example = query-every two_records red (blue ∷ []) two_records-IsValid

query-any_example :
    IsAscending (query two_records (red ∷ blue ∷ []) false)
    × ((id : ℕ)
        → has id (query two_records (red ∷ blue ∷ []) false) ≡ any two_records (red ∷ blue ∷ []) id)
query-any_example = query-any two_records (red ∷ blue ∷ []) two_records-IsValid
