-- ===== src/Tests/Times.antt =====
-- Three entries of a temporal index, two of them created at the same time.
use aegisdb.Prelude.{◌≡◌, refl, inl, inr, true, [], ◌∷◌, arith}
use aegisdb.TimeIndex.{TimeIndex, add, remove, range_recent}
use aegisdb.TimeIndex.Contents.{IsValid, entry, count, count-add-IsValid}
use aegisdb.TimeIndex.Removal.{count-remove-IsValid}
use aegisdb.TimeIndex.Range.{in_range}
use aegisdb.TimeIndex.Recent.{range_recent-in_range}

abbrev three : TimeIndex
three = record { entries = entry 10 1 ∷ entry 10 4 ∷ entry 20 2 ∷ []; cap = 256 }

three-IsValid : IsValid three
three-IsValid = record {
  sorted =
      ((inr (refl, omega arith), (inl (omega arith), tt)), ((inl (omega arith), tt), (tt, tt)));
  fits = omega arith;
}

range_recent-in_range_example : range_recent three 10 15 1 ≡ (4 ∷ [], true)
unfolding in_range
range_recent-in_range_example = range_recent-in_range three 10 15 1 three-IsValid

count-add-IsValid_example : IsValid (add three 10 4) × (count 10 4 (add three 10 4).entries ≡ 2)
unfolding count
count-add-IsValid_example = count-add-IsValid three 10 4 three-IsValid 10 4

count-remove-IsValid_example :
    IsValid (remove three 10 4) × (count 10 4 (remove three 10 4).entries ≡ 0)
unfolding count
count-remove-IsValid_example = count-remove-IsValid three 10 4 three-IsValid 10 4
