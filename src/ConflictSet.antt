-- ===== src/ConflictSet.antt =====
-- src/query/conflict_set.c and include/aegisdb/conflict_set.h: the contradictions that an inference
-- pass found. `items` is items[0..count); `cs` is not NULL, and a string argument may be.
pub mod Contents
pub mod Listing
use aegisdb.Prelude.{
  ℕ, suc, ◌-◌, ◌+◌, Bool, true, false, Option, none, some, List, [], ◌∷◌, ◌++◌, ltb, leb, ◌==◌,
  ◌&&◌, ◌||◌, not, if◌then◌else◌, length, take,
}
use aegisdb.Record.{CString}
use aegisdb.CStrings.{is_same}

abbrev pub ns_max : ℕ
ns_max = 128

abbrev pub predicate_max : ℕ
predicate_max = 64

abbrev pub reason_max : ℕ
reason_max = 15

abbrev pub set_max : ℕ
set_max = 1024

pub record ConflictPair : Type 0 where
  pub a : ℕ
  pub b : ℕ
  pub ns : CString
  pub predicate_a : CString
  pub predicate_b : CString
  pub reason : CString

pub record ConflictSet : Type 0 where
  pub items : List ConflictPair
  pub cap : ℕ
  pub truncated : Bool

unfoldable pub create : ConflictSet
create = record { items = []; cap = set_max; truncated = false }

unfoldable pub clear : ConflictSet → ConflictSet
clear cs = record cs { items = []; truncated = false }

-- copy_bounded: the string that the field of `dstsz` bytes holds.
unfoldable pub copy_bounded : ℕ → Option CString → CString
copy_bounded dstsz none = []
copy_bounded dstsz (some src) =
    let n = if leb dstsz (length src) then dstsz - 1 else length src in take n src

-- The loop that looks for the pair.
unfoldable pub has_pair : ℕ → ℕ → List ConflictPair → Bool
has_pair a b [] = false
has_pair a b (p ∷ ps) = p.a == a && p.b == b || has_pair a b ps

-- What conflict_set_add returns: 0, 1 and -1.
pub data AddResult : Type 0 where
  stored duplicate rejected : AddResult

-- conflict_set_add after the swap.
unfoldable pub add_ordered :
    ConflictSet
    → ℕ
    → ℕ
    → (ns predicate_a predicate_b reason : Option CString) → AddResult × ConflictSet
add_ordered cs a b ns predicate_a predicate_b reason =
    if has_pair a b cs.items
    then (duplicate, cs)
    else if leb cs.cap (length cs.items)
    then (rejected, record cs { truncated = true })
    else (
      stored,
      record cs {
        items =
            cs.items
            ++ record {
              a = a;
              b = b;
              ns = copy_bounded (ns_max + 1) ns;
              predicate_a = copy_bounded (predicate_max + 1) predicate_a;
              predicate_b = copy_bounded (predicate_max + 1) predicate_b;
              reason = copy_bounded (reason_max + 1) reason;
            }
              ∷ [];
      },
    )

unfoldable pub add :
    ConflictSet
    → ℕ
    → ℕ
    → (ns predicate_a predicate_b reason : Option CString) → AddResult × ConflictSet
add cs a b ns predicate_a predicate_b reason =
    if a == 0 || b == 0 || a == b
    then (rejected, cs)
    else if ltb b a
    then add_ordered cs b a ns predicate_b predicate_a reason
    else add_ordered cs a b ns predicate_a predicate_b reason

-- `!ns || !*ns`
-- `all || strcmp(items[i].ns, ns) == 0`
abbrev pub matches : Option CString → ConflictPair → Bool
matches none p = true
matches (some []) p = true
matches (some (c ∷ cs)) p = is_same p.ns (c ∷ cs)

-- The loop of conflict_set_list, with `written` pairs copied and `matched` counted so far.
unfoldable pub list_from :
    Option CString → ℕ → (written matched : ℕ) → List ConflictPair → List ConflictPair × ℕ
list_from ns max written matched [] = ([], matched)
list_from ns max written matched (p ∷ ps) =
    let skipped = list_from ns max written matched ps in
    let counted = list_from ns max written (matched + 1) ps in
    let (rest, total) = list_from ns max (written + 1) (matched + 1) ps in
    if not (matches ns p) then skipped else if ltb written max then (p ∷ rest, total) else counted

-- What is copied to `out`, and `*total`.
unfoldable pub list : ConflictSet → Option CString → ℕ → List ConflictPair × ℕ
list cs ns max = list_from ns max 0 0 cs.items
