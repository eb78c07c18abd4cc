-- ===== src/TimeIndex/Contents.antt =====
-- add and remove against a sorted list of entries.
use aegisdb.Prelude.{
  ℕ, suc, ◌+◌, ◌≤◌, ◌≡◌, refl, inl, inr, Bool-cases, List, [], ◌∷◌, ◌++◌, ◌==◌, ◌&&◌, if◌then◌else◌,
  length, take, drop, All, All_mono, arith,
}
use aegisdb.Bisect.Partition.{turn}
use aegisdb.TimeIndex.{TimeEntry, TimeIndex, is_before, is_entry, add}
use aegisdb.TimeIndex.Search.{KeyLe, IsSorted, lower_bound-turn}

abbrev pub entry : ℕ → ℕ → TimeEntry
entry created id = record { created = created; id = id }

-- How often (created, id) is in the list.
unfoldable pub count : ℕ → ℕ → List TimeEntry → ℕ
count c i [] = 0
count c i (e ∷ es) = let rest = count c i es in if is_entry c i e then suc rest else rest

pub record IsValid (t : TimeIndex) : Type 0 where
  pub sorted : IsSorted t.entries
  pub fits : length t.entries ≤ t.cap

module _ (c i : ℕ) where
  -- The list with (c, i) put before the first key that is not below it.
  unfoldable pub put : List TimeEntry → List TimeEntry
  put es = take (turn (is_before c i) es) es ++ entry c i ∷ drop (turn (is_before c i) es) es

  pub put-cons :
      (x : TimeEntry) (es : List TimeEntry)
      → put (x ∷ es) ≡ (if is_before c i x then x ∷ put es else entry c i ∷ x ∷ es)
  unfolding put turn
  put-cons x es = elim (Bool-cases (is_before c i x)) [ inl t ↦ rw t | inr f ↦ rw f ]

  length-put : (es : List TimeEntry) → length (put es) ≡ length es + 1
  length-put [] = unfold put turn in refl
  length-put (x ∷ es) = ground (arith, put-cons x es, length-put es)

  count-put :
      (c' i' : ℕ) (es : List TimeEntry)
      → count c' i' (put es) ≡ count c' i' es + (if is_entry c' i' (entry c i) then 1 else 0)
  unfolding count
  count-put c' i' [] = unfold put turn in ground arith
  count-put c' i' (x ∷ es) = ground (arith, put-cons x es, count-put c' i' es)

  put-Above :
      (x : TimeEntry) (es : List TimeEntry)
      → KeyLe x (entry c i)
      → All (KeyLe x) es
      → All (KeyLe x) (put es)
  put-Above x [] h b = unfold put turn in (h, tt)
  put-Above x (y ∷ es) h (k, b) = rw (put-cons y es) (elim (Bool-cases (is_before c i y)) [
    | inl t ↦ rw t (k, put-Above x es h b)
    | inr f ↦ rw f (h, (k, b))
  ])

  KeyLe-trans : (x y z : TimeEntry) → KeyLe x y → KeyLe y z → KeyLe x z
  KeyLe-trans x y z h k = ground arith

  put-IsSorted : (es : List TimeEntry) → IsSorted es → IsSorted (put es)
  put-IsSorted [] h = unfold put turn in (tt, tt)
  put-IsSorted (x ∷ es) (b, h) = rw (put-cons x es) (elim (Bool-cases (is_before c i x)) [
    | inl t ↦ rw t (put-Above x es (ground arith) b, put-IsSorted es h)
    | inr f ↦
        let first : KeyLe (entry c i) x = ground arith in
        rw f ((first, All_mono (KeyLe x) _ (λ y. KeyLe-trans (entry c i) x y first) es b), (b, h))
  ])

module _ (t : TimeIndex) (c i : ℕ) (v : IsValid t) where
  pub add-put : (add t c i).entries ≡ put c i t.entries
  unfolding add put
  add-put = rw (lower_bound-turn c i t.entries v.sorted)

  pub add-IsValid : IsValid (add t c i)
  add-IsValid = record {
    sorted = rw add-put (put-IsSorted c i t.entries v.sorted);
    fits = rw add-put (unfold add in ground (arith, length-put c i t.entries, v.fits));
  }

  pub count-add :
      (c' i' : ℕ)
      → count c' i' (add t c i).entries
        ≡ count c' i' t.entries + (if c == c' && i == i' then 1 else 0)
  count-add c' i' = rw add-put (count-put c i c' i' t.entries)

  -- Adding (c, i) to a valid index keeps it sorted and within its array, and raises the multiplicity
  -- of (c, i) by one, and that of no other key.
  pub count-add-IsValid :
      (c' i' : ℕ)
      → IsValid (add t c i)
        × (count c' i' (add t c i).entries
            ≡ count c' i' t.entries + (if c == c' && i == i' then 1 else 0))
  count-add-IsValid c' i' = (add-IsValid, count-add c' i')
