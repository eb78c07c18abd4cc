-- ===== src/Record/Route/Sorted.antt =====
-- The invariant of the routes of a record, under record_add_route.
use Prim.Native.Nat.{Ordering}
use aegisdb.Prelude.{
  ℕ, zero, suc, ◌≤◌, ◌≡◌, inl, inr, List, [], ◌∷◌, length, length-take, take, All, arith,
  Bool-cases, not, ◌||◌, ◌==◌, ltb,
}
use aegisdb.Record.{DerivRoute, deriv_max_premises, deriv_max_routes, is_rule}
use aegisdb.Record.Route.{route_cmp, add_route}
use aegisdb.Record.Route.Order.{Ordering-cases, route_cmp-flip, route_lt_trans}
use aegisdb.Record.Route.Insert.{
  insert_sorted, insert_sorted-lt, insert_sorted-eq, insert_sorted-gt, IsRoute,
  add_route-insert_sorted,
}

-- `rt` comes before every one of the routes.
abbrev pub Below : DerivRoute → List DerivRoute → Type 0
Below rt = All (λ r. route_cmp rt r ≡ Ordering.lt)

abbrev pub IsSorted : List DerivRoute → Type 0
IsSorted [] = Unit
IsSorted (r ∷ rs) = Below r rs × IsSorted rs

Below-trans :
    (a b : DerivRoute) (rs : List DerivRoute)
    → route_cmp a b ≡ Ordering.lt
    → Below b rs
    → Below a rs
Below-trans a b [] e h = tt
Below-trans a b (r ∷ rs) e (p, h) = (route_lt_trans a b r e p, Below-trans a b rs e h)

insert_sorted-Below :
    (a rt : DerivRoute) (rs : List DerivRoute)
    → route_cmp a rt ≡ Ordering.lt
    → Below a rs
    → Below a (insert_sorted rt rs)
insert_sorted-Below a rt [] e h = unfold insert_sorted in (e, tt)
insert_sorted-Below a rt (r ∷ rs) e (p, h) = elim (Ordering-cases (route_cmp rt r)) [
  | inl c ↦ rw (insert_sorted-lt rt r rs c) (e, (p, h))
  | inr (inl c) ↦ rw (insert_sorted-eq rt r rs c) (p, h)
  | inr (inr c) ↦ rw (insert_sorted-gt rt r rs c) (p, insert_sorted-Below a rt rs e h)
]

insert_sorted-IsSorted :
    (rt : DerivRoute) (rs : List DerivRoute) → IsSorted rs → IsSorted (insert_sorted rt rs)
insert_sorted-IsSorted rt [] h = unfold insert_sorted in (tt, tt)
insert_sorted-IsSorted rt (r ∷ rs) (b, h) = elim (Ordering-cases (route_cmp rt r)) [
  | inl c ↦ rw (insert_sorted-lt rt r rs c) ((c, Below-trans rt r rs c b), (b, h))
  | inr (inl c) ↦ rw (insert_sorted-eq rt r rs c) (b, h)
  | inr (inr c) ↦ rw (insert_sorted-gt rt r rs c) (
    insert_sorted-Below r rt rs (ground (arith, route_cmp-flip rt r)) b,
    insert_sorted-IsSorted rt rs h,
  )
]

All-insert_sorted :
    (P : DerivRoute → Type 0) (rt : DerivRoute) (rs : List DerivRoute)
    → P rt
    → All P rs
    → All P (insert_sorted rt rs)
All-insert_sorted P rt [] p h = unfold insert_sorted in (p, tt)
All-insert_sorted P rt (r ∷ rs) p (q, h) = elim (Ordering-cases (route_cmp rt r)) [
  | inl c ↦ rw (insert_sorted-lt rt r rs c) (p, (q, h))
  | inr (inl c) ↦ rw (insert_sorted-eq rt r rs c) (q, h)
  | inr (inr c) ↦ rw (insert_sorted-gt rt r rs c) (q, All-insert_sorted P rt rs p h)
]

All-take : (P : DerivRoute → Type 0) (n : ℕ) (rs : List DerivRoute) → All P rs → All P (take n rs)
All-take P zero rs h = tt
All-take P (suc n) [] h = tt
All-take P (suc n) (r ∷ rs) (p, h) = (p, All-take P n rs h)

take-IsSorted : (n : ℕ) (rs : List DerivRoute) → IsSorted rs → IsSorted (take n rs)
take-IsSorted zero rs h = tt
take-IsSorted (suc n) [] h = tt
take-IsSorted (suc n) (r ∷ rs) (b, h) = (All-take _ n rs b, take-IsSorted n rs h)

-- The invariant of the routes that a record holds.
pub record IsProvenance (rs : List DerivRoute) : Type 0 where
  pub few : length rs ≤ deriv_max_routes
  pub sorted : IsSorted rs
  pub known : All IsRoute rs

module _ (rs : List DerivRoute) (rt : DerivRoute) (h : IsProvenance rs) where
  add_route_valid : IsRoute rt → IsProvenance (add_route rs rt).1
  add_route_valid v = rw (add_route-insert_sorted rt rs h.few v) (record {
    few = omega (arith, length-take deriv_max_routes (insert_sorted rt rs));
    sorted = take-IsSorted 4 _ (insert_sorted-IsSorted rt rs h.sorted);
    known = All-take _ 4 _ (All-insert_sorted _ rt rs v h.known);
  })

  -- Whatever record_add_route is given, and whatever it answers, the routes stay sorted, at most
  -- four, and each with a known rule and one to eight premises.
  pub add_route-IsProvenance : IsProvenance (add_route rs rt).1
  add_route-IsProvenance = elim (Bool-cases (not (is_rule rt.rule))) [
    | inl bad ↦ unfold add_route in rw bad h
    | inr rule ↦
        elim (Bool-cases (length rt.premises == 0 || ltb deriv_max_premises (length rt.premises))) [
          | inl bad ↦ unfold add_route in rw (rule, bad) h
          | inr fine ↦ add_route_valid (ground arith)
        ]
  ]
