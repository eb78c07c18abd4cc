-- ===== src/TimeIndex/Search.antt =====
-- The searches on a sorted index, and what add and remove do to it.
use aegisdb.Prelude.{ℕ, ◌≤◌, ◌<◌, ◌≡◌, ◌⊎◌, false, List, [], ◌∷◌, All, All_mono, arith}
use aegisdb.Bisect.Partition.{IsPartitioned, turn, bisect-turn}
use aegisdb.TimeIndex.{TimeEntry, zero_entry, is_before, lower_bound}

-- The key of `x` is at most that of `y`.
abbrev pub KeyLe : TimeEntry → TimeEntry → Type 0
KeyLe x y = (x.created < y.created) ⊎ ((x.created ≡ y.created) × (x.id ≤ y.id))

abbrev pub IsSorted : List TimeEntry → Type 0
IsSorted [] = Unit
IsSorted (x ∷ xs) = All (KeyLe x) xs × IsSorted xs

module _ (c i : ℕ) where
  not_before_mono :
      (x y : TimeEntry) → is_before c i x ≡ false → KeyLe x y → is_before c i y ≡ false
  not_before_mono x y e h = ground arith

  pub IsSorted-IsPartitioned :
      (xs : List TimeEntry) → IsSorted xs → IsPartitioned (is_before c i) xs
  IsSorted-IsPartitioned [] h = tt
  IsSorted-IsPartitioned (x ∷ xs) (b, h) =
      (λ e. All_mono (KeyLe x) _ (λ y. not_before_mono x y e) xs b, IsSorted-IsPartitioned xs h)

  -- On a sorted index lower_bound counts the keys below the one looked for.
  pub lower_bound-turn :
      (xs : List TimeEntry) → IsSorted xs → lower_bound xs c i ≡ turn (is_before c i) xs
  unfolding lower_bound
  lower_bound-turn xs h = bisect-turn (is_before c i) zero_entry xs (IsSorted-IsPartitioned xs h)
