-- ===== src/TagIndex/Chain.antt =====
-- What adding and removing do to one chain, tag by tag.
use aegisdb.Prelude.{
  ℕ, ◌<◌, ◌≡◌, refl, sym, ◌∙◌, inl, inr, true, false, Bool-cases, Option, none, some, Option-cases,
  List, [], ◌∷◌, ◌==◌, ◌&&◌, ◌||◌, not, length, length-append, take, drop, All, arith,
}
use aegisdb.Record.{CString}
use aegisdb.CStrings.{is_same, is_same→eq, other_string, same_to_third}
use aegisdb.TagIndex.{
  TagNode, new_node, insert_id, remove_id, add_to_node, find_in, update_in, add_in, remove_in,
  id_lower_bound,
}
use aegisdb.TagIndex.Ids.{
  IsAscending, has, insert_id-IsAscending, remove_id-IsAscending, has-insert_id, has-remove_id,
}

abbrev pub ids_of : Option TagNode → List ℕ
ids_of none = []
ids_of (some n) = n.ids

-- A node in use: ascending ids, at least one of them, and room for them.
pub record IsNode (n : TagNode) : Type 0 where
  pub ascending : IsAscending n.ids
  pub used : 0 < length n.ids

-- No tag has two nodes.
unfoldable pub IsDistinct : List TagNode → Type 0
IsDistinct [] = Unit
IsDistinct (n ∷ ns) = (find_in n.tag ns ≡ none) × IsDistinct ns

abbrev pub IsChain : List TagNode → Type 0
IsChain ns = All IsNode ns × IsDistinct ns

has-empty : (y : ℕ) (xs : List ℕ) → length xs ≡ 0 → has y xs ≡ false
unfolding has
has-empty y [] h = refl
has-empty y (x ∷ xs) h = absurd (omega arith)

pub find_in-IsAscending :
    (tag : CString) (ns : List TagNode) → All IsNode ns → IsAscending (ids_of (find_in tag ns))
unfolding find_in
find_in-IsAscending tag [] h = tt
find_in-IsAscending tag (n ∷ ns) (p, h) = elim (Bool-cases (is_same n.tag tag)) [
  | inl s ↦ rw s p.ascending
  | inr d ↦ rw d (find_in-IsAscending tag ns h)
]

module _ (tag : CString) (id : ℕ) where
  has-update_in :
      (tag' : CString) (y : ℕ) (ns : List TagNode) (n : TagNode)
      → All IsNode ns
      → find_in tag ns ≡ some n
      → has y (ids_of (find_in tag' (update_in tag id ns)))
        ≡ has y (ids_of (find_in tag' ns)) || (is_same tag tag' && id == y)
  unfolding find_in update_in add_to_node
  has-update_in tag' y [] n h f = cc
  has-update_in tag' y (m ∷ ns) n (p, h) f = elim (Bool-cases (is_same m.tag tag)) [
    | inl s ↦ elim (Bool-cases (is_same tag tag')) [
      | inl t ↦
          let u : is_same m.tag tag' ≡ true = rw (is_same→eq m.tag tag s) t in
          rw (s, t, u) (has-insert_id m.ids id p.ascending y)
      | inr t ↦ let u = other_string m.tag tag tag' s t in rw (s, t, u) (ground arith)
    ]
    | inr d ↦ elim (Bool-cases (is_same m.tag tag')) [
      | inl u ↦
          let t : is_same tag tag' ≡ false = elim (Bool-cases (is_same tag tag')) [
            | inr t ↦ t
            | inl t ↦ absurd (same_to_third m.tag tag tag' u t d)
          ] in
          rw (d, u, t) (ground arith)
      | inr u ↦ rw (d, u) (has-update_in tag' y ns n h (rw d at f))
    ]
  ]

  -- A call on a chain gives the id to the tag, and changes the ids of no other tag.
  pub has-add_in :
      (tag' : CString) (y : ℕ) (ns : List TagNode)
      → All IsNode ns
      → has y (ids_of (find_in tag' (add_in tag id ns)))
        ≡ has y (ids_of (find_in tag' ns)) || (is_same tag tag' && id == y)
  unfolding add_in
  has-add_in tag' y ns h = elim (Option-cases (find_in tag ns)) [
    | inr (n, f) ↦ rw (f, add_in) (has-update_in tag' y ns n h f)
    | inl f ↦ elim (Bool-cases (is_same tag tag')) [
      | inl t ↦
          let g : find_in tag' ns ≡ none = rw (← is_same→eq tag tag' t) f in
          rw (f, g, add_in) (unfold find_in add_to_node in rw t (has-insert_id [] id tt y))
      | inr t ↦ rw (f, add_in) (unfold find_in add_to_node in rw t (ground arith))
    ]
  ]

  insert_id-used : (ids : List ℕ) → 0 < length (insert_id ids id)
  unfolding insert_id
  insert_id-used ids =
      let pos = id_lower_bound ids id in
      ground (arith, length-append (take pos ids) (id ∷ drop pos ids))

  add_to_node-IsNode : (n : TagNode) → IsAscending n.ids → IsNode (add_to_node n id)
  unfolding add_to_node
  add_to_node-IsNode n h = record {
    ascending = insert_id-IsAscending n.ids id h;
    used = insert_id-used n.ids;
  }

  update_in-IsNode : (ns : List TagNode) → All IsNode ns → All IsNode (update_in tag id ns)
  unfolding update_in
  update_in-IsNode [] h = tt
  update_in-IsNode (n ∷ ns) (p, h) = elim (Bool-cases (is_same n.tag tag)) [
    | inl s ↦ rw s (add_to_node-IsNode n p.ascending, h)
    | inr d ↦ rw d (p, update_in-IsNode ns h)
  ]

  find_in-update_in-none :
      (tag' : CString) (ns : List TagNode)
      → find_in tag' ns ≡ none
      → find_in tag' (update_in tag id ns) ≡ none
  unfolding find_in update_in
  find_in-update_in-none tag' [] f = refl
  find_in-update_in-none tag' (n ∷ ns) f = elim (Bool-cases (is_same n.tag tag')) [
    | inl u ↦ absurd (some_none (rw u at f))
    | inr u ↦ elim (Bool-cases (is_same n.tag tag)) [
      | inl s ↦ rw s (unfold add_to_node in rw u (rw u at f))
      | inr d ↦ rw (d, u) (find_in-update_in-none tag' ns (rw u at f))
    ]
  ]
    where
      some_none : some n ≡ none → ⊥
      some_none e = cc

  update_in-IsDistinct : (ns : List TagNode) → IsDistinct ns → IsDistinct (update_in tag id ns)
  unfolding update_in IsDistinct
  update_in-IsDistinct [] h = tt
  update_in-IsDistinct (n ∷ ns) (p, h) = elim (Bool-cases (is_same n.tag tag)) [
    | inl s ↦ rw s (unfold add_to_node in (p, h))
    | inr d ↦ rw d (find_in-update_in-none n.tag ns p, update_in-IsDistinct ns h)
  ]

  pub add_in-IsChain : (ns : List TagNode) → IsChain ns → IsChain (add_in tag id ns)
  unfolding add_in
  add_in-IsChain ns (h, d) = elim (Option-cases (find_in tag ns)) [
    | inr (n, f) ↦ rw (f, add_in) (update_in-IsNode ns h, update_in-IsDistinct ns d)
    | inl f ↦
        rw (f, add_in)
          ((add_to_node-IsNode (new_node tag) tt, h), unfold IsDistinct add_to_node in (f, d))
  ]

  find_in-remove_in-none :
      (tag' : CString) (ns : List TagNode)
      → find_in tag' ns ≡ none
      → find_in tag' (remove_in tag id ns) ≡ none
  unfolding find_in remove_in
  find_in-remove_in-none tag' [] f = refl
  find_in-remove_in-none tag' (n ∷ ns) f = elim (Bool-cases (is_same n.tag tag')) [
    | inl u ↦ absurd (some_none (rw u at f))
    | inr u ↦ elim (Bool-cases (is_same n.tag tag)) [
      | inr d ↦ rw (d, u) (find_in-remove_in-none tag' ns (rw u at f))
      | inl s ↦ elim (Bool-cases (length (remove_id n.ids id) == 0)) [
        | inl e ↦ rw (s, e) (rw u at f)
        | inr k ↦ rw (s, k, u) (rw u at f)
      ]
    ]
  ]
    where
      some_none : some n ≡ none → ⊥
      some_none e = cc

  remove_in-IsNode : (ns : List TagNode) → All IsNode ns → All IsNode (remove_in tag id ns)
  unfolding remove_in
  remove_in-IsNode [] h = tt
  remove_in-IsNode (n ∷ ns) (p, h) = elim (Bool-cases (is_same n.tag tag)) [
    | inr d ↦ rw d (p, remove_in-IsNode ns h)
    | inl s ↦ elim (Bool-cases (length (remove_id n.ids id) == 0)) [
      | inl e ↦ rw (s, e) h
      | inr k ↦
          rw (s, k)
            (
              record {
                ascending = remove_id-IsAscending n.ids id p.ascending;
                used = ground arith;
              },
              h,
            )
    ]
  ]

  remove_in-IsDistinct : (ns : List TagNode) → IsDistinct ns → IsDistinct (remove_in tag id ns)
  unfolding remove_in IsDistinct
  remove_in-IsDistinct [] h = tt
  remove_in-IsDistinct (n ∷ ns) (p, h) = elim (Bool-cases (is_same n.tag tag)) [
    | inr d ↦ rw d (find_in-remove_in-none n.tag ns p, remove_in-IsDistinct ns h)
    | inl s ↦ elim (Bool-cases (length (remove_id n.ids id) == 0)) [
      | inl e ↦ rw (s, e) h
      | inr k ↦ rw (s, k) (p, h)
    ]
  ]

  pub remove_in-IsChain : (ns : List TagNode) → IsChain ns → IsChain (remove_in tag id ns)
  remove_in-IsChain ns (h, d) = (remove_in-IsNode ns h, remove_in-IsDistinct ns d)

  pub has-remove_in :
      (tag' : CString) (y : ℕ) (ns : List TagNode)
      → IsChain ns
      → has y (ids_of (find_in tag' (remove_in tag id ns)))
        ≡ has y (ids_of (find_in tag' ns)) && not (is_same tag tag' && id == y)
  unfolding find_in remove_in IsDistinct has
  has-remove_in tag' y [] h = unfold has in ground arith
  has-remove_in tag' y (n ∷ ns) ((p, h), (q, d)) = elim (Bool-cases (is_same n.tag tag)) [
    | inl s ↦ elim (Bool-cases (is_same tag tag')) [
      | inl t ↦
          let u : is_same n.tag tag' ≡ true = rw (is_same→eq n.tag tag s) t in
          let gone : find_in tag' ns ≡ none = rw (← is_same→eq n.tag tag' u) q in
          elim (Bool-cases (length (remove_id n.ids id) == 0)) [
            | inl e ↦
                rw (s, e, t, u, gone)
                  (sym (has-empty y (remove_id n.ids id) (ground arith))
                    ∙ has-remove_id n.ids id p.ascending y)
            | inr k ↦ rw (s, k, t, u) (has-remove_id n.ids id p.ascending y)
          ]
      | inr t ↦
          let u = other_string n.tag tag tag' s t in
          elim (Bool-cases (length (remove_id n.ids id) == 0)) [
            | inl e ↦ rw (s, e, t, u) (ground arith)
            | inr k ↦ rw (s, k, t, u) (ground arith)
          ]
    ]
    | inr e ↦ elim (Bool-cases (is_same n.tag tag')) [
      | inl u ↦
          let t : is_same tag tag' ≡ false = elim (Bool-cases (is_same tag tag')) [
            | inr t ↦ t
            | inl t ↦ absurd (same_to_third n.tag tag tag' u t e)
          ] in
          rw (e, u, t) (ground arith)
      | inr u ↦ rw (e, u) (has-remove_in tag' y ns (h, d))
    ]
  ]
