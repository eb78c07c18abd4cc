-- ===== src/Record/Route.antt =====
-- Justifications of a derived record: route_cmp, record_add_route, record_clear_derivation and
-- derivation_depth of src/memory/record.c.
pub mod Order
pub mod Insert
pub mod Sorted
pub mod Commute
pub mod Last
use Prim.Native.Nat.{Ordering}
use aegisdb.Prelude.{
  ℕ, zero, suc, ◌+◌, ◌-◌, Option, none, some, List, [], ◌∷◌, ◌++◌, ◌||◌, not, ltb, leb, ◌==◌,
  if◌then◌else◌, length, take, drop,
}
use aegisdb.Record.{DerivRoute, MemoryRecord, deriv_max_premises, deriv_max_routes, is_rule}

-- Two unsigned values, as `a < b ? -1 : 1` after a test for equality.
abbrev pub cmp_value : ℕ → ℕ → Ordering
cmp_value a b = if a == b then Ordering.eq else if ltb a b then Ordering.lt else Ordering.gt

abbrev pub or_then : Ordering → Ordering → Ordering
or_then Ordering.eq next = next
or_then Ordering.lt next = Ordering.lt
or_then Ordering.gt next = Ordering.gt

-- The loop over the first min(n, m) premises, and the test of the counts after it.
unfoldable pub cmp_premises : List ℕ → List ℕ → Ordering
cmp_premises [] [] = Ordering.eq
cmp_premises [] (q ∷ qs) = Ordering.lt
cmp_premises (p ∷ ps) [] = Ordering.gt
cmp_premises (p ∷ ps) (q ∷ qs) = or_then (cmp_value p q) (cmp_premises ps qs)

unfoldable pub route_cmp : DerivRoute → DerivRoute → Ordering
route_cmp a b = or_then (cmp_premises a.premises b.premises) (cmp_value a.rule b.rule)

-- The search for the sorted position from index `i` on: `none` for a route that is already there.
unfoldable pub find_at : DerivRoute → List DerivRoute → ℕ → Option ℕ
find_at rt [] i = some i
find_at rt (r ∷ rs) i =
    let rest = find_at rt rs (i + 1) in
    elim (route_cmp rt r) [ Ordering.eq ↦ none | Ordering.lt ↦ some i | Ordering.gt ↦ rest ]

-- What record_add_route returns: 0, 1 and -1.
pub data AddResult : Type 0 where
  added redundant refused : AddResult

-- `memmove` by one from `at`, and the write; beyond the cap the last route falls off.
abbrev pub insert_at : DerivRoute → List DerivRoute → ℕ → List DerivRoute
insert_at rt rs i = take deriv_max_routes (take i rs ++ rt ∷ drop i rs)

unfoldable pub place_route : DerivRoute → List DerivRoute → Option ℕ → AddResult × List DerivRoute
place_route rt rs none = (redundant, rs)
place_route rt rs (some i) =
    if leb deriv_max_routes (length rs)
    then (if leb deriv_max_routes i then (redundant, rs) else (added, insert_at rt rs i))
    else (added, take i rs ++ rt ∷ drop i rs)

unfoldable pub add_route : List DerivRoute → DerivRoute → AddResult × List DerivRoute
add_route rs rt =
    if not (is_rule rt.rule)
    then (refused, rs)
    else if length rt.premises == 0 || ltb deriv_max_premises (length rt.premises)
    then (refused, rs)
    else place_route rt rs (find_at rt rs 0)

-- record_add_route on the record that owns the routes.
unfoldable pub record_add_route : MemoryRecord → DerivRoute → AddResult × MemoryRecord
record_add_route r rt =
    let (result, rs) = add_route r.routes rt in (result, record r { routes = rs })

unfoldable pub record_clear_derivation : MemoryRecord → MemoryRecord
record_clear_derivation r = record r { routes = [] }

-- The loop from the second route on, with the least depth so far.
depth_from : ℕ → List DerivRoute → ℕ
depth_from best [] = best
depth_from best (r ∷ rs) = depth_from (if ltb r.depth best then r.depth else best) rs

unfoldable pub derivation_depth : List DerivRoute → ℕ
unfolding depth_from
derivation_depth [] = 0
derivation_depth (r ∷ rs) = depth_from r.depth rs
