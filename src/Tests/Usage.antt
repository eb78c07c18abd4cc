-- ===== src/Tests/Usage.antt =====
-- A usage index of four slots, with one tracked record.
use aegisdb.Prelude.{ℕ, ◌≡◌, refl, true, none, some, replicate, zero, suc, get_or}
use aegisdb.UsageIndex.{UsageIndex, zero_entry, live, slot_of, probe_from, place_from, place, get}
use aegisdb.UsageIndex.Tracked.{IsIndexed}
use aegisdb.UsageIndex.Track.{place-IsIndexed, get-place-IsIndexed}
use aegisdb.Mix.{mix64}

abbrev vacant : UsageIndex
vacant = record { slots = replicate 4 zero_entry; live = 0; used = 0 }

not_found : slot_of vacant.slots 7 ≡ none
unfolding slot_of probe_from mix64
not_found = refl

vacant-IsIndexed : IsIndexed vacant.slots
vacant-IsIndexed = record { found = λ id k h. absurd (no k h.is_live) }
  where
    no : (k : ℕ) → (get_or (replicate 4 zero_entry) k zero_entry).state ≡ live → ⊥
    no zero e = cc
    no (suc zero) e = cc
    no (suc (suc zero)) e = cc
    no (suc (suc (suc zero))) e = cc
    no (suc (suc (suc (suc k)))) e = cc

placed : (place vacant 7).0 ≡ true
unfolding place place_from mix64
placed = refl

abbrev one : UsageIndex
one = (place vacant 7).1

one-IsIndexed : IsIndexed one.slots
one-IsIndexed = place-IsIndexed vacant 7 vacant-IsIndexed not_found

get-place-IsIndexed_example : IsIndexed one.slots × (get one 7 ≡ some (0, 0))
get-place-IsIndexed_example = get-place-IsIndexed vacant 7 vacant-IsIndexed not_found 7 placed
