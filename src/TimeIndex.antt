-- ===== src/TimeIndex.antt =====
-- src/storage/time_index.c: the temporal index, an array sorted by (created, id). `entries` is
-- e[0..n); allocation is assumed to succeed, so that every call returns 0.
pub mod Search
pub mod Contents
pub mod Removal
pub mod Range
pub mod Recent
use Prim.Native.Nat.{Ordering}
use aegisdb.Prelude.{
  ℕ, suc, ◌+◌, ◌-◌, ◌*◌, ◌≤◌, Bool, true, false, List, [], ◌∷◌, ◌++◌, map, ltb, leb, ◌==◌, ◌&&◌,
  not, if◌then◌else◌, length, get_or, take, drop,
}
use aegisdb.Bisect.{bisect}

pub record TimeEntry : Type 0 where
  pub created : ℕ
  pub id : ℕ

pub record TimeIndex : Type 0 where
  pub entries : List TimeEntry
  pub cap : ℕ

abbrev pub zero_entry : TimeEntry
zero_entry = record { created = 0; id = 0 }

unfoldable pub create : TimeIndex
create = record { entries = []; cap = 0 }

-- Negative, zero or positive as the first key is below, at or above the second.
abbrev pub cmp_key : ℕ → ℕ → ℕ → ℕ → Ordering
cmp_key ca ia cb ib =
    if ltb ca cb
    then Ordering.lt
    else if ltb cb ca
    then Ordering.gt
    else if ltb ia ib
    then Ordering.lt
    else if ltb ib ia
    then Ordering.gt
    else Ordering.eq

abbrev pub is_negative : Ordering → Bool
is_negative Ordering.lt = true
is_negative Ordering.eq = false
is_negative Ordering.gt = false

-- The test of lower_bound: the entry's key is below (created, id).
abbrev pub is_before : ℕ → ℕ → TimeEntry → Bool
is_before created id e = is_negative (cmp_key e.created e.id created id)

unfoldable pub lower_bound : List TimeEntry → ℕ → ℕ → ℕ
lower_bound es created id =
    bisect (λ i. is_before created id (get_or es i zero_entry)) (length es) 0 (length es)

unfoldable pub add : TimeIndex → ℕ → ℕ → TimeIndex
add t created id =
    let cap =
      if length t.entries == t.cap then (if t.cap == 0 then 256 else t.cap * 2) else t.cap in
    let pos = lower_bound t.entries created id in
    record {
      entries = take pos t.entries ++ record { created = created; id = id } ∷ drop pos t.entries;
      cap = cap;
    }

abbrev pub is_entry : ℕ → ℕ → TimeEntry → Bool
is_entry created id e = e.created == created && e.id == id

unfoldable pub remove : TimeIndex → ℕ → ℕ → TimeIndex
remove t created id =
    let pos = lower_bound t.entries created id in
    if ltb pos (length t.entries) && is_entry created id (get_or t.entries pos zero_entry)
    then record t { entries = take pos t.entries ++ drop (suc pos) t.entries }
    else t

-- The loop of time_index_range over the entries from `pos` on, with `n` ids taken so far.
unfoldable pub range_from : ℕ → ℕ → ℕ → List TimeEntry → List ℕ
range_from end max n [] = []
range_from end max n (e ∷ es) =
    if ltb end e.created
    then []
    else if not (max == 0) && leb max n
    then []
    else e.id ∷ range_from end max (n + 1) es

unfoldable pub range : TimeIndex → ℕ → ℕ → ℕ → List ℕ
range t start end max = range_from end max 0 (drop (lower_bound t.entries start 0) t.entries)

-- The second search of time_index_range_recent: the first index from `lo` on whose entry was
-- created after `end`.
unfoldable pub upper_bound : List TimeEntry → ℕ → ℕ → ℕ
upper_bound es lo end =
    bisect (λ i. not (ltb end (get_or es i zero_entry).created)) (length es) lo (length es)

-- The ids of e[lo..lo+take), and whether some were dropped.
unfoldable pub range_recent : TimeIndex → ℕ → ℕ → ℕ → List ℕ × Bool
range_recent t start end max =
    let lo = lower_bound t.entries start 0 in
    let hi = upper_bound t.entries lo end in
    let total = hi - lo in
    let cut = not (max == 0) && ltb max total in
    let from = if cut then hi - max else lo in
    let count = if cut then max else total in
    (map (λ e. e.id) (take count (drop from t.entries)), cut)
