-- ===== src/Record/Route/Commute.antt =====
-- Two calls of record_add_route in one order and in the other.
use Prim.Native.Nat.{Ordering}
use aegisdb.Prelude.{
  ℕ, zero, suc, ◌≤◌, ◌≡◌, ◌≢◌, refl, sym, ap, ◌∙◌, inl, inr, List, [], ◌∷◌, length, length-take,
  take, arith,
}
use aegisdb.Record.{DerivRoute, deriv_max_routes}
use aegisdb.Record.Route.{route_cmp, add_route}
use aegisdb.Record.Route.Order.{Ordering-cases, route_cmp-flip, route_cmp_trans}
use aegisdb.Record.Route.Insert.{
  insert_sorted, insert_sorted-lt, insert_sorted-eq, insert_sorted-gt, IsRoute,
  add_route-insert_sorted,
}

-- Two routes that differ in more than their depth are inserted in either order.
insert_sorted_comm :
    (a b : DerivRoute) (rs : List DerivRoute)
    → route_cmp a b ≢ Ordering.eq
    → insert_sorted a (insert_sorted b rs) ≡ insert_sorted b (insert_sorted a rs)
unfolding insert_sorted
insert_sorted_comm a b [] h = ground (arith, route_cmp-flip a b)
insert_sorted_comm a b (r ∷ rs) h = ground (
  arith,
  insert_sorted_comm a b rs h,
  route_cmp-flip a b,
  route_cmp-flip a r,
  route_cmp-flip b r,
  route_cmp_trans a r b,
  route_cmp_trans b r a,
  route_cmp_trans a b r,
  route_cmp_trans b a r,
)

take-take : (n : ℕ) (rs : List DerivRoute) → take n (take n rs) ≡ take n rs
take-take zero rs = refl
take-take (suc n) [] = refl
take-take (suc n) (r ∷ rs) = ap (λ (l : List DerivRoute). r ∷ l) (take-take n rs)

take-cons-take :
    (n : ℕ) (r : DerivRoute) (rs : List DerivRoute) → take n (r ∷ take n rs) ≡ take n (r ∷ rs)
take-cons-take zero r rs = refl
take-cons-take (suc n) r [] = refl
take-cons-take (suc n) r (s ∷ rs) = ap (λ (l : List DerivRoute). r ∷ l) (take-cons-take n s rs)

-- Routes beyond the cap do not matter to an insertion.
take-insert_sorted-take :
    (n : ℕ) (a : DerivRoute) (rs : List DerivRoute)
    → take n (insert_sorted a (take n rs)) ≡ take n (insert_sorted a rs)
take-insert_sorted-take zero a rs = refl
take-insert_sorted-take (suc n) a [] = refl
take-insert_sorted-take (suc n) a (r ∷ rs) = elim (Ordering-cases (route_cmp a r)) [
  | inl c ↦
      rw (insert_sorted-lt a r rs c, insert_sorted-lt a r (take n rs) c)
        (ap (λ (l : List DerivRoute). a ∷ l) (take-cons-take n r rs))
  | inr (inl c) ↦
      rw (insert_sorted-eq a r rs c, insert_sorted-eq a r (take n rs) c)
        (ap (λ (l : List DerivRoute). r ∷ l) (take-take n rs))
  | inr (inr c) ↦
      rw (insert_sorted-gt a r rs c, insert_sorted-gt a r (take n rs) c)
        (ap (λ (l : List DerivRoute). r ∷ l) (take-insert_sorted-take n a rs))
]

module _ (rs : List DerivRoute) (few : length rs ≤ deriv_max_routes) where
  add_route_twice :
      (a b : DerivRoute)
      → IsRoute a
      → IsRoute b
      → (add_route (add_route rs a).1 b).1
        ≡ take deriv_max_routes (insert_sorted b (insert_sorted a rs))
  add_route_twice a b va vb = rw (add_route-insert_sorted a rs few va) (
      add_route-insert_sorted b (take 4 (insert_sorted a rs))
        (omega (arith, length-take 4 (insert_sorted a rs))) vb
      ∙ take-insert_sorted-take 4 b (insert_sorted a rs))

  -- Two routes with other premises or another rule, each with a known rule and one to eight
  -- premises, may be added to a record with at most four routes in either order: it ends with the
  -- same routes, also where the cap drops some.
  pub add_route_comm :
      (a b : DerivRoute)
      → IsRoute a
      → IsRoute b
      → route_cmp a b ≢ Ordering.eq
      → (add_route (add_route rs a).1 b).1 ≡ (add_route (add_route rs b).1 a).1
  add_route_comm a b va vb h =
      add_route_twice a b va vb
      ∙ ap (λ (l : List DerivRoute). take 4 l) (sym (insert_sorted_comm a b rs h))
      ∙ sym (add_route_twice b a vb va)
