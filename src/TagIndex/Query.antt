-- ===== src/TagIndex/Query.antt =====
-- tag_index_query against the set of pairs that the index stands for.
use aegisdb.Prelude.{
  ℕ, ◌<◌, ◌≡◌, refl, ap, ◌∙◌, ◌⊎◌, inl, inr, Bool, true, false, Bool-cases, none, some,
  Option-cases, List, [], ◌∷◌, ◌==◌, ◌&&◌, ◌||◌, if◌then◌else◌, All, arith,
}
use aegisdb.Record.{CString}
use aegisdb.TagIndex.{
  TagNode, TagIndex, insert_id, find_node, in_all, intersect, merge, union, query,
}
use aegisdb.TagIndex.Ids.{IsAscending, has, contains-has, insert_id-IsAscending, has-insert_id}
use aegisdb.TagIndex.Postings.{is_tagged, IsValid, postings-IsAscending}

-- Every one of the tags has the id; one of them has it.
unfoldable pub every : TagIndex → List CString → ℕ → Bool
every t [] id = true
every t (tag ∷ tags) id = is_tagged t tag id && every t tags id

unfoldable pub any : TagIndex → List CString → ℕ → Bool
any t [] id = false
any t (tag ∷ tags) id = is_tagged t tag id || any t tags id

found :
    (t : TagIndex) (tag : CString) (n : TagNode)
    → find_node t tag ≡ some n
    → IsValid t
    → IsAscending n.ids
found t tag n f v = rw f at (postings-IsAscending t tag v)

and_if : (b c : Bool) → (if b then c else false) ≡ b && c
and_if true c = refl
and_if false c = refl

in_all-every :
    (t : TagIndex) (tags : List CString) (id : ℕ) → IsValid t → in_all t tags id ≡ every t tags id
unfolding in_all every is_tagged has
in_all-every t [] id v = refl
in_all-every t (tag ∷ tags) id v = step (Option-cases (find_node t tag)) (in_all-every t tags id v)
  where
    step :
        (find_node t tag ≡ none) ⊎ ((n : TagNode) × (find_node t tag ≡ some n))
        → in_all t tags id ≡ every t tags id
        → in_all t (tag ∷ tags) id ≡ every t (tag ∷ tags) id
    step (inl f) ih = rw (f, in_all) refl
    step (inr (n, f)) ih =
        rw (f, in_all, contains-has id n.ids (found t tag n f v), ih)
          (and_if (has id n.ids) (every t tags id))

module _ (t : TagIndex) (tags : List CString) where
  in_all-eq : (x y : ℕ) → (x == y) ≡ true → in_all t tags x ≡ in_all t tags y
  in_all-eq x y e = ap (λ (z : ℕ). in_all t tags z) (ground arith)

  has-intersect :
      (id : ℕ) (ids : List ℕ) → has id (intersect t tags ids) ≡ has id ids && in_all t tags id
  unfolding intersect has
  has-intersect id [] = refl
  has-intersect id (x ∷ xs) = ground (arith, has-intersect id xs, in_all-eq x id)

  intersect-Above :
      (x : ℕ) (ids : List ℕ) → All (λ y. x < y) ids → All (λ y. x < y) (intersect t tags ids)
  unfolding intersect
  intersect-Above x [] h = tt
  intersect-Above x (y ∷ ys) (p, h) = elim (Bool-cases (in_all t tags y)) [
    | inl e ↦ rw e (p, intersect-Above x ys h)
    | inr d ↦ rw d (intersect-Above x ys h)
  ]

  intersect-IsAscending : (ids : List ℕ) → IsAscending ids → IsAscending (intersect t tags ids)
  unfolding intersect
  intersect-IsAscending [] h = tt
  intersect-IsAscending (y ∷ ys) (b, h) = elim (Bool-cases (in_all t tags y)) [
    | inl e ↦ rw e (intersect-Above y ys b, intersect-IsAscending ys h)
    | inr d ↦ rw d (intersect-IsAscending ys h)
  ]

-- On a valid index a query for all of its tags, at least one, returns in strictly ascending order
-- exactly the ids that every one of them has.
pub query-every :
    (t : TagIndex) (tag : CString) (tags : List CString)
    → IsValid t
    → IsAscending (query t (tag ∷ tags) true)
      × ((id : ℕ) → has id (query t (tag ∷ tags) true) ≡ every t (tag ∷ tags) id)
unfolding query every is_tagged has
query-every t tag tags v = elim (Option-cases (find_node t tag)) [
  | inl f ↦ rw (f, query) (tt, λ id. refl)
  | inr (n, f) ↦
      rw (f, query)
        (
          intersect-IsAscending t tags n.ids (found t tag n f v),
          λ id.
              has-intersect t tags id n.ids
              ∙ ap (λ (b : Bool). has id n.ids && b) (in_all-every t tags id v),
        )
]

merge-IsAscending : (acc ids : List ℕ) → IsAscending acc → IsAscending (merge acc ids)
unfolding merge
merge-IsAscending acc [] h = h
merge-IsAscending acc (x ∷ xs) h =
    merge-IsAscending (insert_id acc x) xs (insert_id-IsAscending acc x h)

has-merge :
    (id : ℕ) (acc ids : List ℕ)
    → IsAscending acc
    → has id (merge acc ids) ≡ has id acc || has id ids
unfolding merge has
has-merge id acc [] h = ground arith
has-merge id acc (x ∷ xs) h =
    has-merge id (insert_id acc x) xs (insert_id-IsAscending acc x h)
    ∙ rw (has-insert_id acc x h id) (ground arith)

union-any :
    (t : TagIndex) (tags : List CString) (acc : List ℕ)
    → IsValid t
    → IsAscending acc
    → IsAscending (union t acc tags)
      × ((id : ℕ) → has id (union t acc tags) ≡ has id acc || any t tags id)
unfolding union any is_tagged has
union-any t [] acc v h = (h, λ id. ground arith)
union-any t (tag ∷ tags) acc v h = elim (Option-cases (find_node t tag)) [
  | inl f ↦ let ih = union-any t tags acc v h in rw (f, union) (ih.0, ih.1)
  | inr (n, f) ↦
      let ih = union-any t tags (merge acc n.ids) v (merge-IsAscending acc n.ids h) in
      rw (f, union) (ih.0, λ id. ih.1 id ∙ rw (has-merge id acc n.ids h) (ground arith))
]

-- On a valid index a query for any of its tags returns in strictly ascending order exactly the ids
-- that one of them has, each once.
pub query-any :
    (t : TagIndex) (tags : List CString)
    → IsValid t
    → IsAscending (query t tags false) × ((id : ℕ) → has id (query t tags false) ≡ any t tags id)
query-any t [] v = unfold query any has in (tt, λ id. refl)
query-any t (tag ∷ tags) v =
    unfold query in
    (let h = union-any t (tag ∷ tags) [] v tt in (h.0, λ id. h.1 id ∙ unfold has in refl))
