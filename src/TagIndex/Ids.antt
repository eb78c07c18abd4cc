-- ===== src/TagIndex/Ids.antt =====
-- The sorted id lists of the nodes and of a query's result.
use aegisdb.Prelude.{
  ℕ, suc, ◌≤◌, ◌<◌, ◌≡◌, refl, inl, inr, Bool, false, Bool-cases, List, [], ◌∷◌, ◌++◌, ltb, ◌==◌,
  ◌&&◌, ◌||◌, not, if◌then◌else◌, take, drop, All, All_mono, arith,
}
use aegisdb.Bisect.Partition.{IsPartitioned, turn, bisect-turn}
use aegisdb.TagIndex.{id_lower_bound, is_at, contains, insert_id, remove_id}

-- Strictly ascending.
abbrev pub IsAscending : List ℕ → Type 0
IsAscending [] = Unit
IsAscending (x ∷ xs) = All (λ y. x < y) xs × IsAscending xs

-- Whether the list has the id somewhere.
unfoldable pub has : ℕ → List ℕ → Bool
has id [] = false
has id (x ∷ xs) = x == id || has id xs

module _ (id : ℕ) where
  abbrev below : ℕ → Bool
  below x = ltb x id

  ascending-IsPartitioned : (xs : List ℕ) → IsAscending xs → IsPartitioned below xs
  ascending-IsPartitioned [] h = tt
  ascending-IsPartitioned (x ∷ xs) (b, h) =
      (λ e. All_mono _ _ (λ y lt. ground arith) xs b, ascending-IsPartitioned xs h)

  id_lower_bound-turn : (xs : List ℕ) → IsAscending xs → id_lower_bound xs id ≡ turn below xs
  unfolding id_lower_bound
  id_lower_bound-turn xs h = bisect-turn below 0 xs (ascending-IsPartitioned xs h)

  has_above : (xs : List ℕ) → All (λ y. id < y) xs → has id xs ≡ false
  unfolding has
  has_above [] h = refl
  has_above (x ∷ xs) (p, h) = ground (arith, has_above xs h)

  has_behind : (x : ℕ) (xs : List ℕ) → All (λ y. x < y) xs → id ≤ x → has id xs ≡ false
  has_behind x xs b h = has_above xs (All_mono _ _ (λ y lt. omega arith) xs b)

  is_at-turn : (xs : List ℕ) → IsAscending xs → is_at id xs (turn below xs) ≡ has id xs
  unfolding has turn
  is_at-turn [] h = refl
  is_at-turn (x ∷ xs) (b, h) = ground (arith, is_at-turn xs h, has_behind x xs b)

  -- On ascending ids the binary search finds an id exactly where the list has it.
  pub contains-has : (xs : List ℕ) → IsAscending xs → contains xs id ≡ has id xs
  unfolding contains
  contains-has xs h = rw (id_lower_bound-turn xs h) (is_at-turn xs h)

  pub put : List ℕ → List ℕ
  put [] = id ∷ []
  put (x ∷ xs) =
      let rest = put xs in if ltb x id then x ∷ rest else if x == id then x ∷ xs else id ∷ x ∷ xs

  pub erase : List ℕ → List ℕ
  erase [] = []
  erase (x ∷ xs) =
      let rest = erase xs in if ltb x id then x ∷ rest else if x == id then xs else x ∷ xs

  put_at : ℕ → List ℕ → List ℕ
  put_at pos xs = if is_at id xs pos then xs else take pos xs ++ id ∷ drop pos xs

  put_at-turn : (xs : List ℕ) → put_at (turn below xs) xs ≡ put xs
  unfolding put_at put turn
  put_at-turn [] = refl
  put_at-turn (x ∷ xs) = ground (arith, put_at-turn xs)

  erase_at : ℕ → List ℕ → List ℕ
  erase_at pos xs = if is_at id xs pos then take pos xs ++ drop (suc pos) xs else xs

  erase_at-turn : (xs : List ℕ) → erase_at (turn below xs) xs ≡ erase xs
  unfolding erase_at erase turn
  erase_at-turn [] = refl
  erase_at-turn (x ∷ xs) = ground (arith, erase_at-turn xs)

  pub insert_id-put : (xs : List ℕ) → IsAscending xs → insert_id xs id ≡ put xs
  unfolding insert_id put_at
  insert_id-put xs h = rw (id_lower_bound-turn xs h) (put_at-turn xs)

  pub remove_id-erase : (xs : List ℕ) → IsAscending xs → remove_id xs id ≡ erase xs
  unfolding remove_id erase_at
  remove_id-erase xs h = rw (id_lower_bound-turn xs h) (erase_at-turn xs)

  put-Above : (y : ℕ) (xs : List ℕ) → y < id → All (λ x. y < x) xs → All (λ x. y < x) (put xs)
  unfolding put
  put-Above y [] lt h = (lt, tt)
  put-Above y (x ∷ xs) lt (p, h) = elim (Bool-cases (ltb x id)) [
    | inl t ↦ rw t (p, put-Above y xs lt h)
    | inr f ↦ elim (Bool-cases (x == id)) [
      | inl e ↦ rw (f, e) (p, h)
      | inr n ↦ rw (f, n) (lt, (p, h))
    ]
  ]

  put-IsAscending : (xs : List ℕ) → IsAscending xs → IsAscending (put xs)
  unfolding put
  put-IsAscending [] h = (tt, tt)
  put-IsAscending (x ∷ xs) (b, h) = elim (Bool-cases (ltb x id)) [
    | inl t ↦ rw t (put-Above x xs (ground arith) b, put-IsAscending xs h)
    | inr f ↦ elim (Bool-cases (x == id)) [
      | inl e ↦ rw (f, e) (b, h)
      | inr n ↦
          let lt : id < x = ground arith in
          rw (f, n) ((lt, All_mono _ _ (λ y k. omega arith) xs b), (b, h))
    ]
  ]

  erase-Above : (y : ℕ) (xs : List ℕ) → All (λ x. y < x) xs → All (λ x. y < x) (erase xs)
  unfolding erase
  erase-Above y [] h = tt
  erase-Above y (x ∷ xs) (p, h) = elim (Bool-cases (ltb x id)) [
    | inl t ↦ rw t (p, erase-Above y xs h)
    | inr f ↦ elim (Bool-cases (x == id)) [ inl e ↦ rw (f, e) h | inr n ↦ rw (f, n) (p, h) ]
  ]

  erase-IsAscending : (xs : List ℕ) → IsAscending xs → IsAscending (erase xs)
  unfolding erase
  erase-IsAscending [] h = tt
  erase-IsAscending (x ∷ xs) (b, h) = elim (Bool-cases (ltb x id)) [
    | inl t ↦ rw t (erase-Above x xs b, erase-IsAscending xs h)
    | inr f ↦ elim (Bool-cases (x == id)) [ inl e ↦ rw (f, e) h | inr n ↦ rw (f, n) (b, h) ]
  ]

  has-put : (y : ℕ) (xs : List ℕ) → has y (put xs) ≡ has y xs || id == y
  unfolding has put
  has-put y [] = ground arith
  has-put y (x ∷ xs) = ground (arith, has-put y xs)

has-erase :
    (id y : ℕ) (xs : List ℕ) → IsAscending xs → has y (erase id xs) ≡ has y xs && not (id == y)
unfolding has erase
has-erase id y [] h = ground arith
has-erase id y (x ∷ xs) (b, h) = ground (arith, has-erase id y xs h, has_behind id x xs b)

module _ (xs : List ℕ) (id : ℕ) (h : IsAscending xs) where
  pub insert_id-IsAscending : IsAscending (insert_id xs id)
  insert_id-IsAscending = rw (insert_id-put id xs h) (put-IsAscending id xs h)

  pub remove_id-IsAscending : IsAscending (remove_id xs id)
  remove_id-IsAscending = rw (remove_id-erase id xs h) (erase-IsAscending id xs h)

  pub has-insert_id : (y : ℕ) → has y (insert_id xs id) ≡ has y xs || id == y
  has-insert_id y = rw (insert_id-put id xs h) (has-put id y xs)

  pub has-remove_id : (y : ℕ) → has y (remove_id xs id) ≡ has y xs && not (id == y)
  has-remove_id y = rw (remove_id-erase id xs h) (has-erase id y xs h)
