-- ===== src/UsageIndex.antt =====
-- src/storage/usage_index.c: how often and when a record was last recalled, in a table with open
-- addressing. `cap` is the length of `slots`; it is 0 or a power of two, so that `& mask` is
-- `% cap`. A counter is a uint_fast32_t, of 64 bits, and is read through a cast to 32 bits. The index
-- is not NULL and allocation succeeds; the count of resident bytes is left out.
pub mod Probe
pub mod Tracked
pub mod Recall
pub mod Place
pub mod Track
use aegisdb.Prelude.{
  ℕ, zero, suc, ◌+◌, ◌-◌, ◌*◌, ◌/◌, ◌%◌, ◌^◌, Bool, true, false, Option, none, some, List, [], ◌∷◌,
  ◌++◌, ltb, leb, ◌==◌, ◌&&◌, ◌||◌, not, if◌then◌else◌, length, get_or, set, take, drop, replicate,
}
use aegisdb.Bytes.{put_u32le, put_u64le, get_u32le, get_u64le}
use aegisdb.CStrings.{is_same}
use aegisdb.Mix.{mix64}

-- USG_SLOT_EMPTY, USG_SLOT_LIVE and USG_SLOT_DEAD
pub data SlotState : Type 0 where
  empty live dead : SlotState

pub record UsageEntry : Type 0 where
  pub id : ℕ
  pub count : ℕ
  pub last_ms : ℕ
  pub state : SlotState

pub record UsageIndex : Type 0 where
  pub slots : List UsageEntry
  pub live : ℕ
  pub used : ℕ

-- A slot of calloc.
abbrev pub zero_entry : UsageEntry
zero_entry = record { id = 0; count = 0; last_ms = 0; state = empty }

unfoldable pub create : UsageIndex
create = record { slots = []; live = 0; used = 0 }

abbrev pub slot_at : List UsageEntry → ℕ → UsageEntry
slot_at slots i = get_or slots (i % length slots) zero_entry

-- The loop of slot_of with the probes left: the index of the live slot with the id.
unfoldable pub probe_from : List UsageEntry → ℕ → (probes i : ℕ) → Option ℕ
probe_from slots id zero i = none
probe_from slots id (suc probes) i =
    let rest = probe_from slots id probes (i + 1) in
    elim (slot_at slots i).state [
      | empty ↦ none
      | dead ↦ rest
      | live ↦ if (slot_at slots i).id == id then some (i % length slots) else rest
    ]

unfoldable pub slot_of : List UsageEntry → ℕ → Option ℕ
slot_of slots id = probe_from slots id (length slots) (mix64 id % length slots)

-- The loop `while (ns[j].state == USG_SLOT_LIVE)`, with at most one round for each slot.
unfoldable pub free_from : List UsageEntry → (rounds j : ℕ) → ℕ
free_from slots zero j = j
free_from slots (suc rounds) j =
    let next = free_from slots rounds ((j + 1) % length slots) in
    elim (slot_at slots j).state [ live ↦ next | empty ↦ j | dead ↦ j ]

-- The loop of `grow` over the old slots; tombstones are dropped.
unfoldable pub rehash : List UsageEntry → List UsageEntry → List UsageEntry
rehash ns [] = ns
rehash ns (e ∷ es) = elim e.state [
  | live ↦ rehash (set ns (free_from ns (length ns) (mix64 e.id % length ns)) e) es
  | empty ↦ rehash ns es
  | dead ↦ rehash ns es
]

unfoldable pub grow : UsageIndex → UsageIndex
grow u =
    let cap = if length u.slots == 0 then 256 else length u.slots * 2 in
    record u { slots = rehash (replicate cap zero_entry) u.slots; used = u.live }

-- The loop of usage_index_track, with the first tombstone seen so far: the slot to use, and whether
-- it was empty.
unfoldable pub place_from : List UsageEntry → Option ℕ → (probes i : ℕ) → Option (ℕ × Bool)
place_from slots reuse zero i = none
place_from slots reuse (suc probes) i =
    let onward = place_from slots reuse probes (i + 1) in
    let reused = place_from slots (some (i % length slots)) probes (i + 1) in
    elim (slot_at slots i).state [
      | live ↦ onward
      | dead ↦ elim reuse [ none ↦ reused | some k ↦ onward ]
      | empty ↦ elim reuse [ none ↦ some (i % length slots, true) | some k ↦ some (k, false) ]
    ]

abbrev pub fresh_entry : ℕ → UsageEntry
fresh_entry id = record { id = id; count = 0; last_ms = 0; state = live }

-- usage_index_track from the search for a slot on, and whether it succeeds.
unfoldable pub place : UsageIndex → ℕ → Bool × UsageIndex
place u id = elim (place_from u.slots none (length u.slots) (mix64 id % length u.slots)) [
  | none ↦ (false, u)
  | some (k, was_empty) ↦ (
    true,
    record {
      slots = set u.slots k (fresh_entry id);
      live = u.live + 1;
      used = if was_empty then u.used + 1 else u.used;
    },
  )
]

unfoldable pub track : UsageIndex → ℕ → Bool × UsageIndex
track u id = elim (slot_of u.slots id) [
  | some k ↦ (true, u)
  | none ↦
      if length u.slots == 0 || leb (length u.slots * 3) ((u.used + 1) * 4)
      then place (grow u) id
      else place u id
]

unfoldable pub untrack : UsageIndex → ℕ → UsageIndex
untrack u id = elim (slot_of u.slots id) [
  | none ↦ u
  | some k ↦ record u {
    slots = set u.slots k (record (get_or u.slots k zero_entry) { state = dead });
    live = u.live - 1;
  }
]

abbrev pub recalled : ℕ → UsageEntry → UsageEntry
recalled now_ms e = record e { count = (e.count + 1) % 2 ^ 64; last_ms = now_ms }

-- usage_index_record
unfoldable pub record_recall : UsageIndex → ℕ → ℕ → UsageIndex
record_recall u id now_ms = elim (slot_of u.slots id) [
  | none ↦ u
  | some k ↦ record u { slots = set u.slots k (recalled now_ms (get_or u.slots k zero_entry)) }
]

-- The two out-parameters of usage_index_get.
abbrev pub usage : UsageEntry → ℕ × ℕ
usage e = (e.count % 2 ^ 32, e.last_ms)

unfoldable pub get : UsageIndex → ℕ → Option (ℕ × ℕ)
get u id = elim (slot_of u.slots id) [
  | none ↦ none
  | some k ↦ some (usage (get_or u.slots k zero_entry))
]

unfoldable pub total_from : ℕ → List UsageEntry → ℕ
total_from total [] = total
total_from total (e ∷ es) = elim e.state [
  | live ↦ total_from ((total + e.count) % 2 ^ 64) es
  | empty ↦ total_from total es
  | dead ↦ total_from total es
]

unfoldable pub total_recalls : UsageIndex → ℕ
total_recalls u = total_from 0 u.slots
