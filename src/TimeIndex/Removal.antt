-- ===== src/TimeIndex/Removal.antt =====
-- remove against a sorted list of entries, and add followed by remove.
use aegisdb.Prelude.{
  ℕ, suc, ◌-◌, ◌≤◌, ◌≡◌, refl, sym, ap, ◌∙◌, ◌⊎◌, inl, inr, Bool, true, false, Bool-cases, List, [],
  ◌∷◌, ◌++◌, ltb, ◌==◌, ◌&&◌, if◌then◌else◌, length, get_or, take, drop, All, All_mono, arith,
}
use aegisdb.Bisect.Partition.{turn}
use aegisdb.TimeIndex.{TimeEntry, TimeIndex, zero_entry, is_before, is_entry, add, remove}
use aegisdb.TimeIndex.Search.{KeyLe, IsSorted, lower_bound-turn}
use aegisdb.TimeIndex.Contents.{entry, count, IsValid, put, put-cons, add-put, add-IsValid}

module _ (c i : ℕ) where
  -- The list without the first (c, i), if it has one.
  pub erase : List TimeEntry → List TimeEntry
  erase [] = []
  erase (e ∷ es) = let rest = erase es in if is_entry c i e then es else e ∷ rest

  -- What remove does at a given position.
  remove_at : ℕ → List TimeEntry → List TimeEntry
  remove_at pos es =
      if ltb pos (length es) && is_entry c i (get_or es pos zero_entry)
      then take pos es ++ drop (suc pos) es
      else es

  remove_at-suc :
      (pos : ℕ) (e : TimeEntry) (es : List TimeEntry)
      → remove_at (suc pos) (e ∷ es) ≡ e ∷ remove_at pos es
  unfolding remove_at
  remove_at-suc pos e es = ground arith

  remove_at-miss :
      (pos : ℕ) (es : List TimeEntry)
      → is_entry c i (get_or es pos zero_entry) ≡ false
      → remove_at pos es ≡ es
  unfolding remove_at
  remove_at-miss pos es e = ground arith

  -- Nothing equal to (c, i) stands behind an entry above it.
  erase_above : (es : List TimeEntry) → All (λ e. is_entry c i e ≡ false) es → erase es ≡ es
  unfolding erase
  erase_above [] h = refl
  erase_above (e ∷ es) (p, h) = rw (p, erase_above es h)

  above_first :
      (x y : TimeEntry)
      → is_before c i x ≡ false
      → is_entry c i x ≡ false
      → KeyLe x y
      → is_entry c i y ≡ false
  above_first x y f n h = ground arith

  remove_at-turn :
      (es : List TimeEntry) → IsSorted es → remove_at (turn (is_before c i) es) es ≡ erase es
  remove_at-turn [] h = unfold remove_at erase turn in refl
  remove_at-turn (x ∷ es) (b, h) = step (Bool-cases (is_before c i x)) (remove_at-turn es h)
    where
      step :
          (is_before c i x ≡ true) ⊎ (is_before c i x ≡ false)
          → remove_at (turn (is_before c i) es) es ≡ erase es
          → remove_at (turn (is_before c i) (x ∷ es)) (x ∷ es) ≡ erase (x ∷ es)
      step (inl t) ih =
          unfold turn erase in
          rw t (remove_at-suc (turn (is_before c i) es) x es ∙ rw ih (ground arith))
      step (inr f) ih = elim (Bool-cases (is_entry c i x)) [
        | inl e ↦ unfold turn erase remove_at in rw (f, e) (ground arith)
        | inr n ↦
            unfold turn erase in
            rw (f, n)
              (remove_at-miss 0 (x ∷ es) n
                ∙ ap (λ (l : List TimeEntry). x ∷ l)
                    (sym (erase_above es (All_mono (KeyLe x) _ (λ y. above_first x y f n) es b))))
      ]

  count-erase :
      (c' i' : ℕ) (es : List TimeEntry)
      → count c' i' (erase es) ≡ count c' i' es - (if is_entry c' i' (entry c i) then 1 else 0)
  unfolding erase count
  count-erase c' i' [] = ground arith
  count-erase c' i' (e ∷ es) = ground (arith, count-erase c' i' es)

  erase-Below : (x : TimeEntry) (es : List TimeEntry) → All (KeyLe x) es → All (KeyLe x) (erase es)
  unfolding erase
  erase-Below x [] b = tt
  erase-Below x (y ∷ es) (k, b) = elim (Bool-cases (is_entry c i y)) [
    | inl e ↦ rw e b
    | inr n ↦ rw n (k, erase-Below x es b)
  ]

  erase-IsSorted : (es : List TimeEntry) → IsSorted es → IsSorted (erase es)
  unfolding erase
  erase-IsSorted [] h = tt
  erase-IsSorted (x ∷ es) (b, h) = elim (Bool-cases (is_entry c i x)) [
    | inl e ↦ rw e h
    | inr n ↦ rw n (erase-Below x es b, erase-IsSorted es h)
  ]

  length-erase : (es : List TimeEntry) → length (erase es) ≤ length es
  unfolding erase
  length-erase [] = omega arith
  length-erase (x ∷ es) = ground (arith, length-erase es)

  erase-put : (es : List TimeEntry) → erase (put c i es) ≡ es
  unfolding erase
  erase-put [] = unfold put turn in ground arith
  erase-put (x ∷ es) = rw (put-cons c i x es) (ground (arith, erase-put es))

-- A write to one field under a test.
branch :
    (t : TimeIndex) (b : Bool) (es : List TimeEntry)
    → (if b then record t { entries = es } else t)
      ≡ record t { entries = if b then es else t.entries }
branch t true es = refl
branch t false es = refl

module _ (t : TimeIndex) (c i : ℕ) (v : IsValid t) where
  remove-erase : remove t c i ≡ record t { entries = erase c i t.entries }
  unfolding remove remove_at
  remove-erase =
      let pos = turn (is_before c i) t.entries in
      rw (lower_bound-turn c i t.entries v.sorted) (
        branch t (ltb pos (length t.entries) && is_entry c i (get_or t.entries pos zero_entry))
          (take pos t.entries ++ drop (suc pos) t.entries)
        ∙ ap (λ (l : List TimeEntry). record t { entries = l })
            (remove_at-turn c i t.entries v.sorted))

  pub remove-IsValid : IsValid (remove t c i)
  remove-IsValid = rw remove-erase (record {
    sorted = erase-IsSorted c i t.entries v.sorted;
    fits = omega (arith, length-erase c i t.entries, v.fits);
  })

  pub count-remove :
      (c' i' : ℕ)
      → count c' i' (remove t c i).entries
        ≡ count c' i' t.entries - (if c == c' && i == i' then 1 else 0)
  count-remove c' i' = rw remove-erase (count-erase c i c' i' t.entries)

  -- Removing (c, i) from a valid index keeps it sorted and within its array, and lowers the
  -- multiplicity of (c, i) by one, if it is there, and that of no other key.
  pub count-remove-IsValid :
      (c' i' : ℕ)
      → IsValid (remove t c i)
        × (count c' i' (remove t c i).entries
            ≡ count c' i' t.entries - (if c == c' && i == i' then 1 else 0))
  count-remove-IsValid c' i' = (remove-IsValid, count-remove c' i')

-- Removing what was just added restores the entries of a valid index.
pub remove-add :
    (t : TimeIndex) (c i : ℕ) → IsValid t → (remove (add t c i) c i).entries ≡ t.entries
remove-add t c i v =
    ap (λ (u : TimeIndex). u.entries) (remove-erase (add t c i) c i (add-IsValid t c i v))
    ∙ rw (add-put t c i v) (erase-put c i t.entries)
