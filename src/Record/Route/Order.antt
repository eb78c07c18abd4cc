-- ===== src/Record/Route/Order.antt =====
-- The order of route_cmp, which does not look at the depth of a route.
use Prim.Native.Nat.{Ordering}
use aegisdb.Prelude.{ℕ, ◌≡◌, refl, ◌⊎◌, inl, inr, List, [], ◌∷◌, arith}
use aegisdb.Record.{DerivRoute}
use aegisdb.Record.Route.{cmp_value, or_then, cmp_premises, route_cmp}

abbrev pub flip : Ordering → Ordering
flip Ordering.lt = Ordering.gt
flip Ordering.eq = Ordering.eq
flip Ordering.gt = Ordering.lt

pub Ordering-cases : (o : Ordering) → (o ≡ Ordering.lt) ⊎ ((o ≡ Ordering.eq) ⊎ (o ≡ Ordering.gt))
Ordering-cases Ordering.lt = inl refl
Ordering-cases Ordering.eq = inr (inl refl)
Ordering-cases Ordering.gt = inr (inr refl)

flip-or_then : (a b : Ordering) → or_then (flip a) (flip b) ≡ flip (or_then a b)
flip-or_then Ordering.lt b = refl
flip-or_then Ordering.eq b = refl
flip-or_then Ordering.gt b = refl

cmp_value-flip : (a b : ℕ) → cmp_value b a ≡ flip (cmp_value a b)
cmp_value-flip a b = ground arith

cmp_premises-flip : (ps qs : List ℕ) → cmp_premises qs ps ≡ flip (cmp_premises ps qs)
unfolding cmp_premises
cmp_premises-flip [] [] = refl
cmp_premises-flip [] (q ∷ qs) = refl
cmp_premises-flip (p ∷ ps) [] = refl
cmp_premises-flip (p ∷ ps) (q ∷ qs) =
    rw (cmp_value-flip p q, cmp_premises-flip ps qs) (flip-or_then _ _)

-- Comparing two routes the other way round gives the opposite answer.
pub route_cmp-flip : (a b : DerivRoute) → route_cmp b a ≡ flip (route_cmp a b)
unfolding route_cmp
route_cmp-flip a b =
    rw (cmp_premises-flip a.premises b.premises, cmp_value-flip a.rule b.rule) (flip-or_then _ _)

-- Transitivity of a comparison at three given values, over its three answers.
abbrev Chained : Ordering → Ordering → Ordering → Type 0
Chained Ordering.lt Ordering.gt c = Unit
Chained Ordering.gt Ordering.lt c = Unit
Chained Ordering.eq b c = c ≡ b
Chained a Ordering.eq c = c ≡ a
Chained Ordering.lt Ordering.lt c = c ≡ Ordering.lt
Chained Ordering.gt Ordering.gt c = c ≡ Ordering.gt

cmp_value_trans : (a b c : ℕ) → Chained (cmp_value a b) (cmp_value b c) (cmp_value a c)
cmp_value_trans a b c = ground arith

or_then_trans :
    (a b c a' b' c' : Ordering)
    → Chained a b c
    → Chained a' b' c'
    → Chained (or_then a a') (or_then b b') (or_then c c')
or_then_trans a b c a' b' c' h h' = ground arith

Chained-lt : (b : Ordering) → Chained Ordering.lt b Ordering.lt
Chained-lt Ordering.lt = refl
Chained-lt Ordering.eq = refl
Chained-lt Ordering.gt = tt

Chained-gt : (a : Ordering) → Chained a Ordering.gt Ordering.gt
Chained-gt Ordering.lt = tt
Chained-gt Ordering.eq = refl
Chained-gt Ordering.gt = refl

cmp_premises_trans :
    (ps qs rs : List ℕ) → Chained (cmp_premises ps qs) (cmp_premises qs rs) (cmp_premises ps rs)
unfolding cmp_premises
cmp_premises_trans [] [] [] = refl
cmp_premises_trans [] [] (r ∷ rs) = refl
cmp_premises_trans [] (q ∷ qs) [] = tt
cmp_premises_trans [] (q ∷ qs) (r ∷ rs) = Chained-lt _
cmp_premises_trans (p ∷ ps) [] [] = refl
cmp_premises_trans (p ∷ ps) [] (r ∷ rs) = tt
cmp_premises_trans (p ∷ ps) (q ∷ qs) [] = Chained-gt _
cmp_premises_trans (p ∷ ps) (q ∷ qs) (r ∷ rs) =
    or_then_trans _ _ _ _ _ _ (cmp_value_trans p q r) (cmp_premises_trans ps qs rs)

pub route_cmp_trans : (a b c : DerivRoute) → Chained (route_cmp a b) (route_cmp b c) (route_cmp a c)
unfolding route_cmp
route_cmp_trans a b c =
    or_then_trans _ _ _ _ _ _ (cmp_premises_trans a.premises b.premises c.premises)
      (cmp_value_trans a.rule b.rule c.rule)

-- The order is transitive.
pub route_lt_trans :
    (a b c : DerivRoute)
    → route_cmp a b ≡ Ordering.lt
    → route_cmp b c ≡ Ordering.lt
    → route_cmp a c ≡ Ordering.lt
route_lt_trans a b c p q = ground (arith, route_cmp_trans a b c)
