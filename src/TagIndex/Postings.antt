-- ===== src/TagIndex/Postings.antt =====
-- The index as a set of pairs of a tag and an id, and what add and remove do to it.
use aegisdb.Prelude.{
  ℕ, zero, suc, ◌<◌, ◌≡◌, ap, ◌∙◌, inl, inr, Bool, true, false, Bool-cases, List, [], ◌==◌, ◌&&◌,
  ◌||◌, not, if◌then◌else◌, length, length-set, length-replicate, get_or, set, replicate, All,
  All-set, All-get_or, get_or-set_same, get_or-set_other, arith,
}
use aegisdb.Record.{CString}
use aegisdb.CStrings.{is_same, is_same→eq}
use aegisdb.TagIndex.{
  TagNode, TagIndex, bucket_count, create, hash_str, add_in, remove_in, chain, find_node, add,
  remove,
}
use aegisdb.TagIndex.Ids.{IsAscending, has}
use aegisdb.TagIndex.Chain.{
  IsChain, IsDistinct, ids_of, find_in-IsAscending, has-add_in, has-remove_in, add_in-IsChain,
  remove_in-IsChain,
}

-- The ids of a tag, and whether it has one of them.
abbrev pub postings : TagIndex → CString → List ℕ
postings t tag = ids_of (find_node t tag)

unfoldable pub is_tagged : TagIndex → CString → ℕ → Bool
is_tagged t tag id = has id (postings t tag)

pub record IsValid (t : TagIndex) : Type 0 where
  pub size : length t.buckets ≡ bucket_count
  pub chains : All IsChain t.buckets

hash_str_lt : (s : CString) → hash_str s < bucket_count
unfolding hash_str
hash_str_lt s = omega arith

chain-IsChain : (t : TagIndex) (tag : CString) → IsValid t → IsChain (chain t tag)
chain-IsChain t tag v =
    All-get_or IsChain t.buckets (hash_str tag) [] (tt, unfold IsDistinct in tt) v.chains

pub postings-IsAscending : (t : TagIndex) (tag : CString) → IsValid t → IsAscending (postings t tag)
unfolding find_node
postings-IsAscending t tag v = find_in-IsAscending tag (chain t tag) (chain-IsChain t tag v).0

create-All : (n : ℕ) → All IsChain (replicate n [])
create-All zero = tt
create-All (suc n) = ((tt, unfold IsDistinct in tt), create-All n)

pub create-IsValid : IsValid create
unfolding create
create-IsValid = record {
  size = length-replicate {A = List TagNode} bucket_count [];
  chains = create-All bucket_count;
}

-- A write to the chain of one tag, as another tag sees it.
module _ (t : TagIndex) (tag tag' : CString) (ns : List TagNode) (v : IsValid t) where
  abbrev written : TagIndex
  written = record { buckets = set t.buckets (hash_str tag) ns }

  chain-written : chain written tag' ≡ (if hash_str tag == hash_str tag' then ns else chain t tag')
  chain-written = elim (Bool-cases (hash_str tag == hash_str tag')) [
    | inl e ↦
        let h : hash_str tag' ≡ hash_str tag = ground arith in
        rw e (
          rw h (
            get_or-set_same t.buckets (hash_str tag) ns []
              (omega (arith, v.size, hash_str_lt tag))))
    | inr d ↦ rw d (get_or-set_other t.buckets (hash_str tag) (hash_str tag') ns [] (ground arith))
  ]

  written-IsValid : IsChain ns → IsValid written
  written-IsValid c = record {
    size = length-set t.buckets (hash_str tag) ns ∙ v.size;
    chains = All-set IsChain t.buckets (hash_str tag) ns c v.chains;
  }

other_hash : (a b : CString) → (hash_str a == hash_str b) ≡ false → is_same a b ≡ false
other_hash a b h = elim (Bool-cases (is_same a b)) [
  | inr d ↦ d
  | inl s ↦ let e = ap hash_str (is_same→eq a b s) in ground arith
]

same_chain :
    (t : TagIndex) (a b : CString) → (hash_str a == hash_str b) ≡ true → chain t a ≡ chain t b
same_chain t a b h = ap (λ (i : ℕ). get_or t.buckets i []) (ground arith)

module _ (t : TagIndex) (tag : CString) (id : ℕ) (v : IsValid t) where
  -- Adding to a valid index leaves it valid: 1024 chains, no tag twice in one of them, and every
  -- node with at least one id, in strictly ascending order.
  pub add-IsValid_tags : IsValid (add t tag id)
  unfolding add
  add-IsValid_tags =
      written-IsValid t tag tag _ v (add_in-IsChain tag id (chain t tag) (chain-IsChain t tag v))

  pub remove-IsValid_tags : IsValid (remove t tag id)
  unfolding remove
  remove-IsValid_tags =
      written-IsValid t tag tag _ v (remove_in-IsChain tag id (chain t tag) (chain-IsChain t tag v))

  -- After tag_index_add the tag has the id, and nothing else has changed, for this tag and for
  -- every other one, also one in the same chain.
  pub is_tagged-add :
      (tag' : CString) (id' : ℕ)
      → is_tagged (add t tag id) tag' id' ≡ is_tagged t tag' id' || (is_same tag tag' && id == id')
  unfolding is_tagged find_node add
  is_tagged-add tag' id' =
      rw (chain-written t tag tag' (add_in tag id (chain t tag)) v)
        (elim (Bool-cases (hash_str tag == hash_str tag')) [
          | inl e ↦
              rw (e, ← same_chain t tag tag' e)
                (has-add_in tag id tag' id' (chain t tag) (chain-IsChain t tag v).0)
          | inr d ↦ rw (d, other_hash tag tag' d) (ground arith)
        ])

  -- After tag_index_remove the tag does not have the id, and nothing else has changed, for this tag
  -- and for every other one, also when the node of the tag is unlinked.
  pub is_tagged-remove :
      (tag' : CString) (id' : ℕ)
      → is_tagged (remove t tag id) tag' id'
        ≡ is_tagged t tag' id' && not (is_same tag tag' && id == id')
  unfolding is_tagged find_node remove
  is_tagged-remove tag' id' =
      rw (chain-written t tag tag' (remove_in tag id (chain t tag)) v)
        (elim (Bool-cases (hash_str tag == hash_str tag')) [
          | inl e ↦
              rw (e, ← same_chain t tag tag' e)
                (has-remove_in tag id tag' id' (chain t tag) (chain-IsChain t tag v))
          | inr d ↦ rw (d, other_hash tag tag' d) (ground arith)
        ])
