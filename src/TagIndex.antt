-- ===== src/TagIndex.antt =====
-- src/storage/tag_index.c: the inverted index from tags to sorted ids, 1024 chains of nodes.
-- `ids` is ids[0..n) of a node. Allocation is assumed to succeed, so that every call returns 0. The
-- count of resident bytes is left out.
pub mod Ids
pub mod Chain
pub mod Postings
pub mod Query
use aegisdb.Prelude.{
  ℕ, suc, ◌+◌, ◌*◌, ◌%◌, Bool, true, false, Option, none, some, List, [], ◌∷◌, ◌++◌, ltb, ◌==◌,
  ◌&&◌, not, if◌then◌else◌, length, get_or, set, take, drop, replicate,
}
use aegisdb.Record.{CString}
use aegisdb.CStrings.{is_same, fnv1a}
use aegisdb.Bisect.{bisect}

pub record TagNode : Type 0 where
  pub tag : CString
  pub ids : List ℕ
  pub cap : ℕ

abbrev pub bucket_count : ℕ
bucket_count = 1024

pub record TagIndex : Type 0 where
  pub buckets : List (List TagNode)

unfoldable pub create : TagIndex
create = record { buckets = replicate bucket_count [] }

unfoldable pub hash_str : CString → ℕ
hash_str s = fnv1a 1469598103934665603 s % bucket_count

-- The first index whose id is at least `id`.
unfoldable pub id_lower_bound : List ℕ → ℕ → ℕ
id_lower_bound ids id = bisect (λ i. ltb (get_or ids i 0) id) (length ids) 0 (length ids)

-- `pos < n && ids[pos] == id`
abbrev pub is_at : ℕ → List ℕ → ℕ → Bool
is_at id ids pos = ltb pos (length ids) && get_or ids pos 0 == id

unfoldable pub contains : List ℕ → ℕ → Bool
contains ids id = is_at id ids (id_lower_bound ids id)

-- The ids with `id` written at its place, as they are if it is there.
unfoldable pub insert_id : List ℕ → ℕ → List ℕ
insert_id ids id =
    let pos = id_lower_bound ids id in
    if is_at id ids pos then ids else take pos ids ++ id ∷ drop pos ids

unfoldable pub remove_id : List ℕ → ℕ → List ℕ
remove_id ids id =
    let pos = id_lower_bound ids id in
    if is_at id ids pos then take pos ids ++ drop (suc pos) ids else ids

-- What tag_index_add does to the node of the tag.
unfoldable pub add_to_node : TagNode → ℕ → TagNode
add_to_node n id =
    let grown = if length n.ids == n.cap then (if n.cap == 0 then 8 else n.cap * 2) else n.cap in
    record n { ids = insert_id n.ids id; cap = if contains n.ids id then n.cap else grown }

abbrev pub new_node : CString → TagNode
new_node tag = record { tag = tag; ids = []; cap = 0 }

unfoldable pub find_in : CString → List TagNode → Option TagNode
find_in tag [] = none
find_in tag (n ∷ ns) = if is_same n.tag tag then some n else find_in tag ns

-- The chain after the node of the tag, which tag_index_add holds by its address, got the id.
unfoldable pub update_in : CString → ℕ → List TagNode → List TagNode
update_in tag id [] = []
update_in tag id (n ∷ ns) =
    let rest = update_in tag id ns in if is_same n.tag tag then add_to_node n id ∷ ns else n ∷ rest

unfoldable pub add_in : CString → ℕ → List TagNode → List TagNode
add_in tag id ns = elim (find_in tag ns) [
  | none ↦ add_to_node (new_node tag) id ∷ ns
  | some n ↦ update_in tag id ns
]

-- A node that ends up empty is unlinked.
unfoldable pub remove_in : CString → ℕ → List TagNode → List TagNode
remove_in tag id [] = []
remove_in tag id (n ∷ ns) =
    let rest = remove_in tag id ns in
    let ids = remove_id n.ids id in
    if not (is_same n.tag tag)
    then n ∷ rest
    else if length ids == 0
    then ns
    else record n { ids = ids } ∷ ns

abbrev pub chain : TagIndex → CString → List TagNode
chain t tag = get_or t.buckets (hash_str tag) []

unfoldable pub find_node : TagIndex → CString → Option TagNode
find_node t tag = find_in tag (chain t tag)

unfoldable pub add : TagIndex → CString → ℕ → TagIndex
add t tag id = record { buckets = set t.buckets (hash_str tag) (add_in tag id (chain t tag)) }

unfoldable pub remove : TagIndex → CString → ℕ → TagIndex
remove t tag id = record { buckets = set t.buckets (hash_str tag) (remove_in tag id (chain t tag)) }

-- tag_index_count: the nodes of all chains.
unfoldable pub count_in : List (List TagNode) → ℕ
count_in [] = 0
count_in (ns ∷ buckets) = length ns + count_in buckets

unfoldable pub count : TagIndex → ℕ
count t = count_in t.buckets

-- The inner loop of the intersection: the id is in the list of each of these tags.
unfoldable pub in_all : TagIndex → List CString → ℕ → Bool
in_all t [] id = true
in_all t (tag ∷ tags) id =
    let rest = in_all t tags id in
    elim (find_node t tag) [ none ↦ false | some n ↦ if contains n.ids id then rest else false ]

unfoldable pub intersect : TagIndex → List CString → List ℕ → List ℕ
intersect t tags [] = []
intersect t tags (id ∷ ids) =
    let rest = intersect t tags ids in if in_all t tags id then id ∷ rest else rest

-- The inner loop of the union: every id of the list into `acc`.
unfoldable pub merge : List ℕ → List ℕ → List ℕ
merge acc [] = acc
merge acc (id ∷ ids) = merge (insert_id acc id) ids

unfoldable pub union : TagIndex → List ℕ → List CString → List ℕ
union t acc [] = acc
union t acc (tag ∷ tags) = elim (find_node t tag) [
  | none ↦ union t acc tags
  | some n ↦ union t (merge acc n.ids) tags
]

unfoldable pub query : TagIndex → List CString → (match_all : Bool) → List ℕ
query t [] match_all = []
query t (tag ∷ tags) true = elim (find_node t tag) [
  | none ↦ []
  | some base ↦ intersect t tags base.ids
]
query t (tag ∷ tags) false = union t [] (tag ∷ tags)
