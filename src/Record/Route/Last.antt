-- ===== src/Record/Route/Last.antt =====
-- record_add_route on routes that come in order, as the decoder adds them.
use Prim.Native.Nat.{Ordering}
use native.Mathlib.Nat.{zero-add}
use aegisdb.Prelude.{
  ℕ, ◌+◌, ◌≡◌, refl, ap, ◌∙◌, some, List, [], ◌∷◌, ◌++◌, length, length-append, take, drop, All,
  arith,
}
use aegisdb.Record.{DerivRoute}
use aegisdb.Record.Route.{added, route_cmp, find_at, place_route, add_route}
use aegisdb.Record.Route.Order.{route_cmp-flip}
use aegisdb.Record.Route.Insert.{IsRoute}
use aegisdb.Record.Route.Sorted.{IsSorted, IsProvenance}

All-middle {ℓ} :
    {A : Type ℓ} (P : A → Type 0) (xs : List A) (y : A) (ys : List A) → All P (xs ++ y ∷ ys) → P y
All-middle P [] y ys (p, h) = p
All-middle P (x ∷ xs) y ys (p, h) = All-middle P xs y ys h

-- In a sorted list the routes before `rt` all come before it in the order.
sorted_before :
    (rs : List DerivRoute) (rt : DerivRoute) (rts : List DerivRoute)
    → IsSorted (rs ++ rt ∷ rts)
    → All (λ r. route_cmp rt r ≡ Ordering.gt) rs
sorted_before [] rt rts h = tt
sorted_before (r ∷ rs) rt rts (b, h) =
    let before = All-middle (λ s. route_cmp r s ≡ Ordering.lt) rs rt rts b in
    (ground (arith, route_cmp-flip r rt), sorted_before rs rt rts h)

find_at-last :
    (rt : DerivRoute) (rs : List DerivRoute) (i : ℕ)
    → All (λ r. route_cmp rt r ≡ Ordering.gt) rs
    → find_at rt rs i ≡ some (i + length rs)
unfolding find_at
find_at-last rt [] i h = ap some (omega arith)
find_at-last rt (r ∷ rs) i (p, h) =
    rw (p, find_at) (find_at-last rt rs (i + 1) h ∙ ap some (omega arith))

take-drop_all :
    (rt : DerivRoute) (rs : List DerivRoute)
    → take (length rs) rs ++ rt ∷ drop (length rs) rs ≡ rs ++ rt ∷ []
take-drop_all rt [] = refl
take-drop_all rt (r ∷ rs) = ap (λ (l : List DerivRoute). r ∷ l) (take-drop_all rt rs)

-- A route behind all others is added at the end.
pub add_route-last :
    (rs : List DerivRoute) (rt : DerivRoute) (rts : List DerivRoute)
    → IsProvenance (rs ++ rt ∷ rts)
    → add_route rs rt ≡ (added, rs ++ rt ∷ [])
unfolding add_route place_route
add_route-last rs rt rts h =
    let room = length-append rs (rt ∷ rts) in
    let few = h.few in
    let (rule, low, high) = All-middle IsRoute rs rt rts h.known in
    rw (find_at-last rt rs 0 (sorted_before rs rt rts h.sorted), zero-add (length rs))
      (ground (arith, take-drop_all rt rs))
