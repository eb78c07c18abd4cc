-- ===== src/HashIndex/Entries.antt =====
-- The entries of a checkpoint of src/storage/hash_index.c, written and read back.
use aegisdb.Prelude.{
  ℕ, suc, ◌+◌, ◌*◌, ◌^◌, ◌<◌, ◌≡◌, refl, sym, ap, ◌∙◌, Bool, true, false, Option, none, some, List,
  [], ◌∷◌, ◌++◌, if◌then◌else◌, ◌>>=◌, length, map, All, drop, arith,
}
use native.Mathlib.Nat.{mod-eq_of_lt}
use mathlib.Core.Path.{fun_ext}
use aegisdb.Bytes.{put_u32le, put_u64le, get_u32le, get_u64le}
use aegisdb.Bytes.RoundTrip.{get_u32le-put_u32le, get_u64le-put_u64le}
use aegisdb.OpenTable.{held, one_if}
use aegisdb.OpenTable.Latest.{over, under, latest, latest-look}
use aegisdb.HashIndex.{
  HashEntry, HashIndex, Location, entry_at, put, put_entry, read_entry, write_entries, load_entries,
}
use aegisdb.HashIndex.Keys.{hashed, lookup, IsHashed}
use aegisdb.HashIndex.Map.{puts, updates, updates-latest, entry_of}

-- The fields of an entry fit their types.
pub record IsNarrow (e : HashEntry) : Type 0 where
  pub id_fits : e.id < 2 ^ 64
  pub offset_fits : e.offset < 2 ^ 64
  pub expires_at_fits : e.expires_at < 2 ^ 64
  pub length_fits : e.length < 2 ^ 32
  pub kind_fits : e.kind < 256
  pub deleted_fits : e.deleted < 256

abbrev pub location : HashEntry → Location
location e = record {
  offset = e.offset;
  length = e.length;
  kind = e.kind;
  deleted = e.deleted;
  expires_at = e.expires_at;
}

abbrev read_as : (id offset length kind deleted expires_at : ℕ) → ℕ × Location
read_as id offset length kind deleted expires_at = (
  id,
  record {
    offset = offset;
    length = length;
    kind = kind;
    deleted = deleted;
    expires_at = expires_at;
  },
)

read_as-eq :
    {a a' b b' c c' d d' e e' f f' : ℕ}
    → a ≡ a'
    → b ≡ b'
    → c ≡ c'
    → d ≡ d'
    → e ≡ e'
    → f ≡ f'
    → read_as a b c d e f ≡ read_as a' b' c' d' e' f'
read_as-eq p q r s t u = cc

read_entry-put_entry :
    (e : HashEntry) (rest : List ℕ)
    → IsNarrow e
    → (read_entry (put_entry e ++ rest) ≡ (e.id, location e))
      × (drop 30 (put_entry e ++ rest) ≡ rest)
unfolding read_entry put_entry put_u64le get_u64le put_u32le get_u32le
read_entry-put_entry e rest n = (
  let a = get_u64le-put_u64le e.id n.id_fits in
      let b = get_u64le-put_u64le e.offset n.offset_fits in
      let c = get_u64le-put_u64le e.expires_at n.expires_at_fits in
      let d = get_u32le-put_u32le e.length n.length_fits in
      read_as-eq a b d (mod-eq_of_lt n.kind_fits) (mod-eq_of_lt n.deleted_fits) c,
  refl,
)

-- What a loader puts for the buckets of a table.
abbrev pub placed : List HashEntry → List (ℕ × Location)
placed [] = []
placed (e ∷ es) = if e.used then (e.id, location e) ∷ placed es else placed es

module _ (e : HashEntry) (n : ℕ) (bytes : List ℕ) (ps : List (ℕ × Location)) where
  -- The count and the bytes of write_entries, with the entry if it is used.
  abbrev pub counted_if : Bool → ℕ × List ℕ
  counted_if b = if b then (n + 1, put_entry e ++ bytes) else (n, bytes)

  module _ (same : (h : HashIndex) → load_entries h n bytes ≡ puts h ps) where
    loaded_next :
        (o : Option HashIndex) → (o >>= λ h. load_entries h n bytes) ≡ (o >>= λ h. puts h ps)
    loaded_next none = refl
    loaded_next (some h) = same h

    loaded_one :
        (h : HashIndex)
        → IsNarrow e
        → load_entries h (n + 1) (put_entry e ++ bytes) ≡ puts h ((e.id, location e) ∷ ps)
    unfolding load_entries puts
    loaded_one h m =
        let (p, q) = read_entry-put_entry e bytes m in
        let s : n + 1 ≡ suc n = omega arith in rw (s, p, q) (loaded_next (put h e.id (location e)))

    loaded_if :
        (b : Bool) (h : HashIndex)
        → IsNarrow e
        → load_entries h (counted_if b).0 (counted_if b).1
          ≡ puts h (if b then (e.id, location e) ∷ ps else ps)
    loaded_if true h m = loaded_one h m
    loaded_if false h m = same h

pub load_entries-write_entries :
    (es : List HashEntry)
    → All IsNarrow es
    → (h : HashIndex)
    → load_entries h (write_entries es).0 (write_entries es).1 ≡ puts h (placed es)
unfolding write_entries load_entries puts
load_entries-write_entries [] n h = refl
load_entries-write_entries (e ∷ es) (m, n) h =
    loaded_if e (write_entries es).0 (write_entries es).1 (placed es)
      (load_entries-write_entries es n) e.used h m

-- The loader's updates of an empty map give the table's map.
pub over_nothing : (o : Option HashEntry) → over hashed o none ≡ o
over_nothing none = refl
over_nothing (some e) = refl

placed_if :
    (e : HashEntry) (ps : List (ℕ × Location)) (o : Option HashEntry) (id : ℕ)
    → latest hashed (map entry_of ps) id ≡ o
    → (b : Bool) → e.used ≡ b
    → latest hashed (map entry_of (if b then (e.id, location e) ∷ ps else ps)) id
      ≡ over hashed o (under hashed id (if b then some e.id else none) e)
placed_if e ps o id p true u =
    let same : entry_at e.id (location e) ≡ e = ap (λ b. record e { used = b }) (sym u) in
    rw (same, p)
placed_if e ps o id p false u = p ∙ sym (over_nothing o)

latest-placed :
    (es : List HashEntry) (id : ℕ)
    → latest hashed (map entry_of (placed es)) id ≡ latest hashed es id
latest-placed [] id = refl
latest-placed (e ∷ es) id =
    placed_if e (placed es) (latest hashed es id) id (latest-placed es id) e.used refl

pub updates-placed :
    (h : HashIndex) → IsHashed h → updates (λ id. none) (placed h.buckets) ≡ lookup h
updates-placed h v = fun_ext (λ id.
    updates-latest (λ id. none) (placed h.buckets) id
    ∙ over_nothing (latest hashed (map entry_of (placed h.buckets)) id)
    ∙ latest-placed h.buckets id
    ∙ latest-look hashed h.buckets v.found id)

length_if :
    (e : HashEntry) (n k : ℕ) (bytes : List ℕ)
    → n ≡ k
    → length bytes ≡ 30 * n
    → (b : Bool)
    → ((counted_if e n bytes [] b).0 ≡ one_if hashed (if b then some e.id else none) + k)
      × (length (counted_if e n bytes [] b).1 ≡ 30 * (counted_if e n bytes [] b).0)
unfolding put_entry put_u64le put_u32le
length_if e n k bytes p q true = (omega (arith, p), omega (arith, q))
length_if e n k bytes p q false = (omega (arith, p), q)

pub length-write_entries :
    (es : List HashEntry)
    → ((write_entries es).0 ≡ held hashed es)
      × (length (write_entries es).1 ≡ 30 * (write_entries es).0)
unfolding write_entries
length-write_entries [] = (refl, refl)
length-write_entries (e ∷ es) =
    let (p, q) = length-write_entries es in
    length_if e (write_entries es).0 (held hashed es) (write_entries es).1 p q e.used
