-- ===== src/Record/Route/Insert.antt =====
-- record_add_route against insertion into a sorted list.
use Prim.Native.Nat.{Ordering}
use aegisdb.Prelude.{
  ℕ, zero, suc, ◌+◌, ◌≤◌, ◌<◌, ◌≡◌, refl, sym, ap, ◌∙◌, inl, inr, Bool-cases, leb, leb→le, inl, inr,
  Option, none, some, List, [], ◌∷◌, ◌++◌, length, take, drop, arith, true,
}
use aegisdb.Record.{DerivRoute, deriv_max_premises, deriv_max_routes, is_rule}
use aegisdb.Record.Route.{route_cmp, find_at, place_route, add_route}
use aegisdb.Record.Route.Order.{Ordering-cases}

-- Insertion into a sorted list without a cap.
unfoldable pub insert_sorted : DerivRoute → List DerivRoute → List DerivRoute
insert_sorted rt [] = rt ∷ []
insert_sorted rt (r ∷ rs) =
    let rest = insert_sorted rt rs in
    elim (route_cmp rt r) [
      | Ordering.eq ↦ r ∷ rs
      | Ordering.lt ↦ rt ∷ r ∷ rs
      | Ordering.gt ↦ r ∷ rest
    ]

module _ (rt r : DerivRoute) (rs : List DerivRoute) where
  pub insert_sorted-lt : route_cmp rt r ≡ Ordering.lt → insert_sorted rt (r ∷ rs) ≡ rt ∷ r ∷ rs
  unfolding insert_sorted
  insert_sorted-lt e = rw (e, insert_sorted)

  pub insert_sorted-eq : route_cmp rt r ≡ Ordering.eq → insert_sorted rt (r ∷ rs) ≡ r ∷ rs
  unfolding insert_sorted
  insert_sorted-eq e = rw (e, insert_sorted)

  pub insert_sorted-gt :
      route_cmp rt r ≡ Ordering.gt → insert_sorted rt (r ∷ rs) ≡ r ∷ insert_sorted rt rs
  unfolding insert_sorted
  insert_sorted-gt e = rw (e, insert_sorted)

-- What the search tells: the route is there already, or its place is `k` routes on.
abbrev Found : DerivRoute → List DerivRoute → ℕ → Option ℕ → Type 0
Found rt rs i none = insert_sorted rt rs ≡ rs
Found rt rs i (some j) =
    (k : ℕ) × (j ≡ i + k) × (k ≤ length rs) × (take k rs ++ rt ∷ drop k rs ≡ insert_sorted rt rs)

Found-cons :
    (rt r : DerivRoute) (rs : List DerivRoute) (i : ℕ) (o : Option ℕ)
    → route_cmp rt r ≡ Ordering.gt
    → Found rt rs (i + 1) o
    → Found rt (r ∷ rs) i o
Found-cons rt r rs i none e h = insert_sorted-gt rt r rs e ∙ ap (λ (l : List DerivRoute). r ∷ l) h
Found-cons rt r rs i (some j) e (k, p, q, h) = (
  suc k,
  omega arith,
  omega arith,
  ap (λ (l : List DerivRoute). r ∷ l) h ∙ sym (insert_sorted-gt rt r rs e),
)

find_at-Found : (rt : DerivRoute) (rs : List DerivRoute) (i : ℕ) → Found rt rs i (find_at rt rs i)
unfolding find_at
find_at-Found rt [] i = (0, omega arith, omega arith, unfold insert_sorted in refl)
find_at-Found rt (r ∷ rs) i = elim (Ordering-cases (route_cmp rt r)) [
  | inl e ↦ rw (e, find_at) (0, omega arith, omega arith, sym (insert_sorted-lt rt r rs e))
  | inr (inl e) ↦ rw (e, find_at) (insert_sorted-eq rt r rs e)
  | inr (inr e) ↦ rw (e, find_at) (Found-cons rt r rs i _ e (find_at-Found rt rs (i + 1)))
]

length-insert_sorted :
    (rt : DerivRoute) (rs : List DerivRoute) → length (insert_sorted rt rs) ≤ length rs + 1
unfolding insert_sorted
length-insert_sorted rt [] = omega arith
length-insert_sorted rt (r ∷ rs) = ground (arith, length-insert_sorted rt rs)

take-eq_self : (n : ℕ) (rs : List DerivRoute) → length rs ≤ n → take n rs ≡ rs
take-eq_self zero [] h = refl
take-eq_self zero (r ∷ rs) h = absurd (omega arith)
take-eq_self (suc n) [] h = refl
take-eq_self (suc n) (r ∷ rs) h =
    ap (λ (l : List DerivRoute). r ∷ l) (take-eq_self n rs (omega arith))

take-place :
    (n k : ℕ) (rt : DerivRoute) (rs : List DerivRoute)
    → n ≤ k
    → k ≤ length rs
    → take n (take k rs ++ rt ∷ drop k rs) ≡ take n rs
take-place zero k rt rs h q = refl
take-place (suc n) zero rt rs h q = absurd (omega arith)
take-place (suc n) (suc k) rt [] h q = absurd (omega arith)
take-place (suc n) (suc k) rt (r ∷ rs) h q =
    ap (λ (l : List DerivRoute). r ∷ l) (take-place n k rt rs (omega arith) (omega arith))

-- A route whose rule has a name, and which has from one to eight premises.
abbrev pub IsRoute : DerivRoute → Type 0
IsRoute rt =
    (is_rule rt.rule ≡ true) × (0 < length rt.premises) × (length rt.premises ≤ deriv_max_premises)

module _ (rt : DerivRoute) (rs : List DerivRoute) (few : length rs ≤ deriv_max_routes) where
  place_route-at :
      (k : ℕ)
      → k ≤ length rs
      → take k rs ++ rt ∷ drop k rs ≡ insert_sorted rt rs
      → (place_route rt rs (some k)).1 ≡ take deriv_max_routes (insert_sorted rt rs)
  unfolding place_route
  place_route-at k q h = elim (Bool-cases (leb deriv_max_routes (length rs))) [
    | inr room ↦ rw room (h ∙ sym (take-eq_self 4 _ (ground (arith, length-insert_sorted rt rs))))
    | inl full ↦ elim (Bool-cases (leb deriv_max_routes k)) [
      | inl high ↦
          rw (full, high)
            (sym (take-eq_self 4 rs few)
              ∙ sym (take-place 4 k rt rs (leb→le 4 k high) q)
              ∙ ap (λ (l : List DerivRoute). take 4 l) h)
      | inr low ↦ rw (full, low) (ap (λ (l : List DerivRoute). take 4 l) h)
    ]
  ]

  place_route-insert_sorted :
      (o : Option ℕ)
      → Found rt rs 0 o
      → (place_route rt rs o).1 ≡ take deriv_max_routes (insert_sorted rt rs)
  place_route-insert_sorted none h = unfold place_route in rw h (sym (take-eq_self 4 rs few))
  place_route-insert_sorted (some i) (k, p, q, h) =
      let e : i ≡ k = omega arith in rw e (place_route-at k q h)

  -- Adding a route to a record with at most four keeps the first four of the sorted insertion.
  pub add_route-insert_sorted :
      IsRoute rt → (add_route rs rt).1 ≡ take deriv_max_routes (insert_sorted rt rs)
  unfolding add_route
  add_route-insert_sorted (rule, low, high) =
      ground (arith, place_route-insert_sorted (find_at rt rs 0) (find_at-Found rt rs 0))
