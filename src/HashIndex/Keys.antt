-- ===== src/HashIndex/Keys.antt =====
-- The table of the hash index as a table with open addressing.
use aegisdb.Prelude.{
  ℕ, ◌*◌, ◌^◌, ◌≤◌, ◌≡◌, refl, sym, Bool, true, false, Bool-cases, Option, inl, inr, none, some,
  List, [], ◌∷◌, ◌==◌, if◌then◌else◌, ◌>>=◌, length, set, none_some,
}
use aegisdb.Mix.{mix64}
use aegisdb.OpenTable.{Keyed, look, held, IsFound}
use aegisdb.OpenTable.Fill.{fill, fill_one}
use aegisdb.HashIndex.{HashEntry, HashIndex, zero_entry, is_stop, find_slot, rehash_from}

abbrev pub key_of : HashEntry → Option ℕ
key_of e = if e.used then some e.id else none

pub stop_if_free : (id : ℕ) (e : HashEntry) → key_of e ≡ none → is_stop id e ≡ true
stop_if_free id e h = elim (Bool-cases e.used) [
  | inl u ↦ let h' : some e.id ≡ none = rw u at h in none_some e.id (sym h')
  | inr u ↦ rw u
]

pub stop_if_held : (id id' : ℕ) (e : HashEntry) → key_of e ≡ some id' → is_stop id e ≡ (id' == id)
stop_if_held id id' e h = elim (Bool-cases e.used) [
  | inl u ↦ let h' : some e.id ≡ some id' = rw u at h in let i : e.id ≡ id' = cc in rw (u, i)
  | inr u ↦ let h' : none ≡ some id' = rw u at h in none_some id' h'
]

abbrev pub hashed : Keyed HashEntry
hashed = record {
  vacant = zero_entry;
  key = key_of;
  stop = is_stop;
  start = mix64;
  vacant_free = refl;
  stop_free = stop_if_free;
  stop_held = stop_if_held;
}

-- What the table holds for an id, a tombstone too.
abbrev pub lookup : HashIndex → ℕ → Option HashEntry
lookup h id = look hashed h.buckets id

pub record IsHashed (h : HashIndex) : Type 0 where
  pub found : IsFound hashed h.buckets
  pub counted : h.count ≡ held hashed h.buckets
  pub room : 10 * h.count ≤ 7 * length h.buckets
  pub capacity : (m : ℕ) × (length h.buckets ≡ 1024 * 2 ^ m)

module _ (nb : List HashEntry) (e : HashEntry) (es : List HashEntry) where
  module _ (ih : (nb' : List HashEntry) → rehash_from nb' es ≡ fill hashed nb' es) where
    rehash_at :
        (o : Option ℕ)
        → (o >>= λ k. rehash_from (set nb k e) es)
          ≡ ((o >>= λ k. some (set nb k e)) >>= λ nb'. fill hashed nb' es)
    rehash_at none = refl
    rehash_at (some k) = ih (set nb k e)

    rehash_step :
        (b : Bool)
        → (elim b [
          | true ↦ find_slot nb e.id >>= λ k. rehash_from (set nb k e) es
          | false ↦ rehash_from nb es
        ])
          ≡ (fill_one hashed nb (if b then some e.id else none) e >>= λ nb'. fill hashed nb' es)
    unfolding find_slot
    rehash_step true = rehash_at (find_slot nb e.id)
    rehash_step false = ih nb

pub rehash_from-fill : (nb es : List HashEntry) → rehash_from nb es ≡ fill hashed nb es
unfolding rehash_from fill
rehash_from-fill nb [] = refl
rehash_from-fill nb (e ∷ es) = rehash_step nb e es (λ nb'. rehash_from-fill nb' es) e.used
