-- ===== src/TimeIndex/Range.antt =====
-- The two range queries against a plain filter of the entries.
use aegisdb.Prelude.{
  ℕ, zero, suc, ◌+◌, ◌-◌, ◌≡◌, refl, sym, ap, ◌∙◌, ◌⊎◌, inl, inr, Bool, true, false, Bool-cases,
  List, [], ◌∷◌, map, ltb, leb, ◌==◌, ◌&&◌, not, if◌then◌else◌, take, drop, All, arith, take-nil,
}
use aegisdb.Bisect.Partition.{turn}
use aegisdb.TimeIndex.{TimeEntry, TimeIndex, is_before, range_from, range}
use aegisdb.TimeIndex.Search.{KeyLe, IsSorted, IsSorted-IsPartitioned, lower_bound-turn}
use aegisdb.TimeIndex.Contents.{IsValid}

-- The entries created in [start, end], in the order of the index.
unfoldable pub in_range : ℕ → ℕ → List TimeEntry → List TimeEntry
in_range start end [] = []
in_range start end (e ∷ es) =
    let rest = in_range start end es in
    if not (ltb e.created start) && not (ltb end e.created) then e ∷ rest else rest

abbrev pub ids : List TimeEntry → List ℕ
ids = map (λ e. e.id)

-- At most `max` of them, where 0 stands for no limit.
abbrev pub limit : ℕ → List ℕ → List ℕ
limit max xs = if max == 0 then xs else take max xs

module _ (start end : ℕ) where
  abbrev pub early : TimeEntry → Bool
  early = is_before start 0

  abbrev pub in_time : TimeEntry → Bool
  in_time e = not (ltb end e.created)

  in_range-drop :
      (es : List TimeEntry) → in_range start end (drop (turn early es) es) ≡ in_range start end es
  unfolding turn
  in_range-drop [] = refl
  in_range-drop (e ∷ es) = elim (Bool-cases (early e)) [
    | inl t ↦ rw t (in_range-drop es ∙ unfold in_range in ground arith)
    | inr f ↦ rw f
  ]

  late : (es : List TimeEntry) → IsSorted es → All (λ e. early e ≡ false) (drop (turn early es) es)
  unfolding turn
  late [] h = tt
  late (e ∷ es) (b, h) = elim (Bool-cases (early e)) [
    | inl t ↦ rw t (late es h)
    | inr f ↦ rw f (f, (IsSorted-IsPartitioned start 0 (e ∷ es) (b, h)).0 f)
  ]

  pub drop-IsSorted : (n : ℕ) (es : List TimeEntry) → IsSorted es → IsSorted (drop n es)
  drop-IsSorted zero es h = h
  drop-IsSorted (suc n) [] h = tt
  drop-IsSorted (suc n) (e ∷ es) (b, h) = drop-IsSorted n es h

  past :
      (e : TimeEntry) (es : List TimeEntry)
      → in_time e ≡ false
      → All (KeyLe e) es
      → in_range start end es ≡ []
  unfolding in_range
  past e [] f b = refl
  past e (x ∷ es) f (k, b) = ground (arith, past e es f b)

  in_range-turn :
      (es : List TimeEntry)
      → IsSorted es
      → All (λ e. early e ≡ false) es
      → in_range start end es ≡ take (turn in_time es) es
  unfolding turn
  in_range-turn [] h l = unfold in_range in refl
  in_range-turn (e ∷ es) (b, h) (l, ls) = step (Bool-cases (in_time e)) (in_range-turn es h ls)
    where
      step :
          (in_time e ≡ true) ⊎ (in_time e ≡ false)
          → in_range start end es ≡ take (turn in_time es) es
          → in_range start end (e ∷ es) ≡ take (turn in_time (e ∷ es)) (e ∷ es)
      step (inl t) ih = unfold in_range in ground (arith, ih)
      step (inr f) ih = unfold in_range in ground (arith, past e es f b)

  abbrev pub from_start : List TimeEntry → List TimeEntry
  from_start es = drop (turn early es) es

  pub in_range-from_start :
      (es : List TimeEntry)
      → IsSorted es
      → in_range start end es ≡ take (turn in_time (from_start es)) (from_start es)
  in_range-from_start es h =
      sym (in_range-drop es)
      ∙ in_range-turn (from_start es) (drop-IsSorted (turn early es) es h) (late es h)

  range_from-turn :
      (max n : ℕ) (es : List TimeEntry)
      → range_from end max n es ≡ (
          if max == 0
          then ids (take (turn in_time es) es)
          else take (max - n) (ids (take (turn in_time es) es)))
  unfolding range_from turn
  range_from-turn max n [] = rw (take-nil {A = ℕ} (max - n)) (ground arith)
  range_from-turn max n (e ∷ es) =
      step (Bool-cases (ltb end e.created)) (Bool-cases (max == 0)) (Bool-cases (leb max n))
        (range_from-turn max (n + 1) es)
    where
      step :
          (ltb end e.created ≡ true) ⊎ (ltb end e.created ≡ false)
          → ((max == 0) ≡ true) ⊎ ((max == 0) ≡ false)
          → (leb max n ≡ true) ⊎ (leb max n ≡ false)
          → range_from end max (n + 1) es ≡ (
              if max == 0
              then ids (take (turn in_time es) es)
              else take (max - (n + 1)) (ids (take (turn in_time es) es)))
          → range_from end max n (e ∷ es) ≡ (
              if max == 0
              then ids (take (turn in_time (e ∷ es)) (e ∷ es))
              else take (max - n) (ids (take (turn in_time (e ∷ es)) (e ∷ es))))
      step (inl over) a b ih =
          unfold range_from turn in rw (over, take-nil {A = ℕ} (max - n)) (ground arith)
      step (inr fine) (inl none) b ih =
          unfold range_from turn in rw (fine, none) (ap (λ (l : List ℕ). e.id ∷ l) (rw none at ih))
      step (inr fine) (inr some) (inl full) ih =
          let k : max - n ≡ 0 = ground arith in unfold range_from turn in rw (fine, some, full, k)
      step (inr fine) (inr some) (inr room) ih =
          let k : max - n ≡ suc (max - (n + 1)) = ground arith in
          unfold range_from turn in
          rw (fine, some, room, k) (ap (λ (l : List ℕ). e.id ∷ l) (rw some at ih))

module _ (t : TimeIndex) (start end max : ℕ) (v : IsValid t) where
  -- time_index_range gives the ids of the entries created in [start, end], oldest first, and at
  -- most `max` of them unless `max` is 0.
  pub range-in_range : range t start end max ≡ limit max (ids (in_range start end t.entries))
  unfolding range
  range-in_range =
      rw
        (
          lower_bound-turn start 0 t.entries v.sorted,
          in_range-from_start start end t.entries v.sorted,
        )
        (range_from-turn start end max 0 (from_start start end t.entries)
          ∙ let k : max - 0 ≡ max = omega arith in rw k)
