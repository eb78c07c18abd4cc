-- ===== src/Bisect/Partition.antt =====
-- The turn of a test along a list, and what stands on its two sides.
use aegisdb.Prelude.{
  ℕ, zero, suc, ◌≤◌, ◌<◌, ◌≡◌, Bool, true, false, Bool-cases, inl, inr, List, [], ◌∷◌, length,
  get_or, All, if◌then◌else◌, arith,
}
use aegisdb.Bisect.{bisect, Turns, bisect-Turns}

module _ {A : Type 0} (p : A → Bool) where
  -- Once the test fails along the list it fails to the end.
  abbrev pub IsPartitioned : List A → Type 0
  IsPartitioned [] = Unit
  IsPartitioned (x ∷ xs) = (p x ≡ false → All (λ y. p y ≡ false) xs) × IsPartitioned xs

  -- How many elements stand before the first that fails the test.
  unfoldable pub turn : List A → ℕ
  turn [] = 0
  turn (x ∷ xs) = let rest = turn xs in if p x then suc rest else 0

  pub turn-le-length : (xs : List A) → turn xs ≤ length xs
  unfolding turn
  turn-le-length [] = omega arith
  turn-le-length (x ∷ xs) = ground (arith, turn-le-length xs)

module _ {A : Type 0} (p : A → Bool) (d : A) where
  All-get_or :
      (xs : List A) (j : ℕ) → All (λ y. p y ≡ false) xs → j < length xs → p (get_or xs j d) ≡ false
  All-get_or [] j h lt = absurd (omega arith)
  All-get_or (x ∷ xs) zero (e, h) lt = e
  All-get_or (x ∷ xs) (suc j) (e, h) lt = All-get_or xs j h (omega arith)

  pub get_or_mono :
      (xs : List A) (i j : ℕ)
      → IsPartitioned p xs
      → i ≤ j
      → j < length xs
      → p (get_or xs j d) ≡ true
      → p (get_or xs i d) ≡ true
  get_or_mono [] i j h le lt e = absurd (omega arith)
  get_or_mono (x ∷ xs) zero zero h le lt e = e
  get_or_mono (x ∷ xs) (suc i) zero h le lt e = absurd (omega arith)
  get_or_mono (x ∷ xs) zero (suc j) (fail, h) le lt e = elim (Bool-cases (p x)) [
    | inl t ↦ t
    | inr f ↦ absurd (clash (All-get_or xs j (fail f) (omega arith)) e)
  ]
    where
      clash : {b : Bool} → b ≡ false → b ≡ true → ⊥
      clash f t = cc
  get_or_mono (x ∷ xs) (suc i) (suc j) (fail, h) le lt e =
      get_or_mono xs i j h (omega arith) (omega arith) e

  pub turn_before : (xs : List A) (i : ℕ) → i < turn p xs → p (get_or xs i d) ≡ true
  unfolding turn
  turn_before [] i h = absurd (omega arith)
  turn_before (x ∷ xs) zero h = ground arith
  turn_before (x ∷ xs) (suc i) h = ground (arith, turn_before xs i)

  pub turn_at : (xs : List A) → turn p xs < length xs → p (get_or xs (turn p xs) d) ≡ false
  unfolding turn
  turn_at [] h = absurd (omega arith)
  turn_at (x ∷ xs) h = elim (Bool-cases (p x)) [
    | inl t ↦ rw t (turn_at xs (ground arith))
    | inr f ↦ rw f f
  ]

  pub Turns-turn :
      (xs : List A) (r : ℕ) → Turns (λ i. p (get_or xs i d)) 0 (length xs) r → r ≡ turn p xs
  Turns-turn xs r t =
      let le = turn-le-length p xs in
      let inside = t.below in
      let early = t.before (turn p xs) in
      let late = t.after r in grind (arith, early, late, turn_before xs r, turn_at xs)

  -- The binary search over a partitioned list returns its turn.
  pub bisect-turn :
      (xs : List A)
      → IsPartitioned p xs
      → bisect (λ i. p (get_or xs i d)) (length xs) 0 (length xs) ≡ turn p xs
  bisect-turn xs h = Turns-turn xs _ (
      bisect-Turns (λ i. p (get_or xs i d)) (length xs) (λ i j. get_or_mono xs i j h) (length xs) 0
        (length xs) (omega arith) (omega arith) (omega arith))
