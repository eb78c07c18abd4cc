-- ===== src/HashIndex/Map.antt =====
-- The hash index as a finite map from ids to entries.
use aegisdb.Prelude.{
  ℕ, ◌+◌, ◌≤◌, ◌≡◌, refl, sym, ap, ◌∙◌, Bool, true, false, Option, Option-cases, inl, inr, none,
  some, List, [], ◌∷◌, ◌==◌, if◌then◌else◌, ◌>>=◌, length, All, get_or, map, arith,
}
use mathlib.Core.Path.{fun_ext}
use aegisdb.OpenTable.{entry_if, look}
use aegisdb.OpenTable.Latest.{over, over_assoc, under, latest}
use aegisdb.OpenTable.Count.{held-replicate, replicate-IsFound, look-replicate}
use aegisdb.HashIndex.{
  HashEntry, HashIndex, zero_entry, find_slot, create, Location, entry_at, if_live, get, put,
}
use aegisdb.HashIndex.Keys.{hashed, lookup, IsHashed}
use aegisdb.HashIndex.Put.{updated, put-IsPut}

-- The index of hash_index_create is empty.
pub create-IsHashed : IsHashed create × (lookup create ≡ (λ id. none))
unfolding create
create-IsHashed = (
  record {
    found = replicate-IsFound hashed 1024;
    counted = sym (held-replicate hashed 1024);
    room = omega arith;
    capacity = (0, refl);
  },
  fun_ext (λ id. look-replicate hashed 1024 id),
)

-- hash_index_put on a valid index always ends, also when the table grows; it stores the location
-- under the id, and leaves what is stored under every other id.
pub put-updated :
    (h : HashIndex) (id : ℕ) (at : Location)
    → IsHashed h
    → (h' : HashIndex) × (put h id at ≡ some h')
      × (lookup h' ≡ updated (lookup h) id (entry_at id at))
put-updated h id at v = let (h', p, q) = put-IsPut h id at v in (h', p, q.lookup_after)

-- hash_index_put keeps a valid index valid: each id is found where it stands, the count is that of
-- the used buckets, at most seven tenths of the buckets are used, and their number is 1024 times a
-- power of two.
pub put-IsHashed :
    (h : HashIndex) (id : ℕ) (at : Location)
    → IsHashed h
    → (h' : HashIndex) × (put h id at ≡ some h') × IsHashed h'
put-IsHashed h id at v = let (h', p, q) = put-IsPut h id at v in (h', p, q.hashed_after)

live_in :
    (e : HashEntry) (b : Bool)
    → e.used ≡ b
    → if_live e ≡ (entry_if hashed (if b then some e.id else none) e >>= if_live)
live_in e true u = refl
live_in e false u = rw u

-- hash_index_get is the map without the tombstones.
pub get-lookup : (h : HashIndex) (id : ℕ) → get h id ≡ (lookup h id >>= if_live)
unfolding get look find_slot
get-lookup h id = elim (Option-cases (find_slot h.buckets id)) [
  | inl n ↦ rw (n, find_slot)
  | inr (k, p) ↦ let e = get_or h.buckets k zero_entry in rw (p, find_slot) (live_in e e.used refl)
]

-- Several locations put one after the other, and what that is on maps.
unfoldable pub puts : HashIndex → List (ℕ × Location) → Option HashIndex
puts h [] = some h
puts h ((id, at) ∷ ps) = put h id at >>= λ h'. puts h' ps

abbrev pub updates : (ℕ → Option HashEntry) → List (ℕ × Location) → ℕ → Option HashEntry
updates m [] = m
updates m ((id, at) ∷ ps) = updates (updated m id (entry_at id at)) ps

abbrev pub entry_of : ℕ × Location → HashEntry
entry_of (id, at) = entry_at id at

-- The index after several locations are put.
pub record IsPutAll (h : HashIndex) (ps : List (ℕ × Location)) (h' : HashIndex) : Type 1 where
  pub hashed_after : IsHashed h'
  pub count_after : h'.count ≤ h.count + length ps
  pub kept_after :
      (P : HashEntry → Type 0)
      → P zero_entry
      → All (λ p. P (entry_of p)) ps
      → All P h.buckets
      → All P h'.buckets
  pub lookup_after : lookup h' ≡ updates (lookup h) ps

pub puts-IsPutAll :
    (h : HashIndex) (ps : List (ℕ × Location))
    → IsHashed h
    → (h' : HashIndex) × (puts h ps ≡ some h') × IsPutAll h ps h'
unfolding puts
puts-IsPutAll h [] v = (
  h,
  refl,
  record {
    hashed_after = v;
    count_after = omega arith;
    kept_after = λ P z b a. a;
    lookup_after = refl;
  },
)
puts-IsPutAll h ((id, at) ∷ ps) v =
    let (g, p, q) = put-IsPut h id at v in
    let (h', r, w) = puts-IsPutAll g ps q.hashed_after in
    let c = q.count_after in
    let d = w.count_after in
    (
      h',
      rw (p, r),
      record {
        hashed_after = w.hashed_after;
        count_after = omega (arith, c, d);
        kept_after = λ P z (b, bs) a. w.kept_after P z bs (q.kept_after P z b a);
        lookup_after = w.lookup_after ∙ ap (λ m. updates m ps) q.lookup_after;
      },
    )

updated-over :
    (b : Bool) (e : HashEntry) (o : Option HashEntry)
    → (if b then some e else o) ≡ over hashed (if b then some e else none) o
updated-over true e o = refl
updated-over false e o = refl

pub updates-latest :
    (m : ℕ → Option HashEntry) (ps : List (ℕ × Location)) (id : ℕ)
    → updates m ps id ≡ over hashed (latest hashed (map entry_of ps) id) (m id)
updates-latest m [] id = refl
updates-latest m ((id', at) ∷ ps) id =
    updates-latest (updated m id' (entry_at id' at)) ps id
    ∙ ap (over hashed (latest hashed (map entry_of ps) id))
        (updated-over (id' == id) (entry_at id' at) (m id))
    ∙ over_assoc hashed (latest hashed (map entry_of ps) id)
        (under hashed id (some id') (entry_at id' at)) (m id)
