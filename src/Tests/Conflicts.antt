-- ===== src/Tests/Conflicts.antt =====
-- A conflict set with one pair, before and after more calls.
use aegisdb.Prelude.{◌≡◌, refl, false, none, some, [], ◌∷◌, arith}
use aegisdb.ConflictSet.{ConflictSet, stored, add, add_ordered, has_pair}
use aegisdb.ConflictSet.Contents.{IsValid, IsDistinct, add-set_IsValid}

abbrev one_pair : ConflictSet
one_pair = record {
  items =
      record { a = 3; b = 8; ns = 97 ∷ []; predicate_a = []; predicate_b = []; reason = [] } ∷ [];
  cap = 1;
  truncated = false;
}

abbrev two_rooms : ConflictSet
two_rooms = record one_pair { cap = 2 }

one_pair-IsValid : IsValid two_rooms
unfolding has_pair IsDistinct
one_pair-IsValid = record {
  pairs = (
    record {
      nonzero = omega arith;
      ordered = omega arith;
      ns_fits = omega arith;
      predicate_a_fits = omega arith;
      predicate_b_fits = omega arith;
      reason_fits = omega arith;
    },
    tt,
  );
  distinct = (refl, tt);
  fits = omega arith;
}

add-set_IsValid_example : IsValid (add two_rooms 9 4 none none (some (112 ∷ [])) none).1
add-set_IsValid_example =
    add-set_IsValid two_rooms 9 4 none none (some (112 ∷ [])) none one_pair-IsValid

store_new : (add two_rooms 9 4 none none none none).0 ≡ stored
unfolding add add_ordered has_pair
store_new = refl
