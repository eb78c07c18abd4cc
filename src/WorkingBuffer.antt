-- ===== src/WorkingBuffer.antt =====
-- src/memory/working_buffer.c: volatile working memory, a ring of records for each session, in 256
-- chains of sessions. `slots` is slots[0..capacity) of a session, `none` an empty slot. Every call
-- runs under the store's one lock, so that it is a function of the store. Allocation is assumed to
-- succeed: what fails in record_clone is the record.
pub mod Slots
pub mod Sessions
pub mod Calls
pub mod Add
pub mod Sweep
use aegisdb.Prelude.{
  ℕ, suc, ◌+◌, ◌-◌, ◌*◌, ◌%◌, ◌^◌, Bool, true, false, Option, none, some, List, [], ◌∷◌, ltb, leb,
  ◌==◌, ◌&&◌, ◌||◌, not, if◌then◌else◌, length, get_or, set, replicate,
}
use aegisdb.Record.{CString, MemoryRecord}
use aegisdb.Record.Clone.{record_clone}
use aegisdb.CStrings.{is_same, fnv1a}

abbrev pub Slot : Type 0
Slot = Option MemoryRecord

pub record Session : Type 0 where
  pub session_id : CString
  pub slots : List Slot
  pub head : ℕ
  pub next_id : ℕ

abbrev pub bucket_count : ℕ
bucket_count = 256

pub record WorkingStore : Type 0 where
  pub buckets : List (List Session)
  pub capacity : ℕ
  pub default_ttl_ms : ℕ

abbrev pub u64_max : ℕ
u64_max = 2 ^ 64 - 1

unfoldable pub hash_str : CString → ℕ
hash_str s = fnv1a 1469598103934665603 s % bucket_count

unfoldable pub create : ℕ → ℕ → WorkingStore
create capacity default_ttl_ms = record {
  buckets = replicate bucket_count [];
  capacity = if capacity == 0 then 256 else capacity;
  default_ttl_ms = if default_ttl_ms == 0 then 3600000 else default_ttl_ms;
}

unfoldable pub find_in : CString → List Session → Option Session
find_in sid [] = none
find_in sid (s ∷ ss) = if is_same s.session_id sid then some s else find_in sid ss

abbrev pub chain : WorkingStore → CString → List Session
chain ws sid = get_or ws.buckets (hash_str sid) []

-- get_session without `create`
unfoldable pub find_session : WorkingStore → CString → Option Session
find_session ws sid = find_in sid (chain ws sid)

unfoldable pub new_session : WorkingStore → CString → Session
new_session ws sid = record {
  session_id = sid;
  slots = replicate ws.capacity none;
  head = 0;
  next_id = 1;
}

-- The chain after the session was written through its address.
unfoldable pub replace_in : CString → Session → List Session → List Session
replace_in sid s' [] = []
replace_in sid s' (s ∷ ss) =
    let rest = replace_in sid s' ss in if is_same s.session_id sid then s' ∷ ss else s ∷ rest

abbrev pub put_chain : WorkingStore → CString → List Session → WorkingStore
put_chain ws sid ss = record ws { buckets = set ws.buckets (hash_str sid) ss }

-- A write to a session that get_session found.
unfoldable pub put_session : WorkingStore → CString → Session → WorkingStore
put_session ws sid s = put_chain ws sid (replace_in sid s (chain ws sid))

-- get_session with `create`: the session, and the store that holds it.
unfoldable pub get_session : WorkingStore → CString → Session × WorkingStore
get_session ws sid = elim (find_session ws sid) [
  | some s ↦ (s, ws)
  | none ↦ (new_session ws sid, put_chain ws sid (new_session ws sid ∷ chain ws sid))
]

-- `expires_at && now >= expires_at`
abbrev pub is_expired : ℕ → MemoryRecord → Bool
is_expired now r = not (r.expires_at == 0) && leb r.expires_at now

abbrev pub next_slot : Option ℕ → Option ℕ
next_slot none = none
next_slot (some k) = some (suc k)

-- The index of the slot with the id, and the slots without the expired records before it.
unfoldable pub find_slot : ℕ → ℕ → List Slot → List Slot × Option ℕ
find_slot id now [] = ([], none)
find_slot id now (none ∷ ss) = let (rest, at) = find_slot id now ss in (none ∷ rest, next_slot at)
find_slot id now (some r ∷ ss) =
    let (rest, at) = find_slot id now ss in
    if is_expired now r
    then (none ∷ rest, next_slot at)
    else if r.id == id
    then (some r ∷ ss, some 0)
    else (some r ∷ rest, next_slot at)

-- The end of the time to live, saturated.
unfoldable pub expiry : ℕ → ℕ → ℕ
expiry now ttl = if ltb (u64_max - now) ttl then u64_max else now + ttl

-- The copy that working_store_add stores.
unfoldable pub stamped : MemoryRecord → (id now ttl : ℕ) → MemoryRecord
stamped copy id now ttl = record copy {
  type = 0;
  id = id;
  created = now;
  updated = now;
  expires_at = expiry now ttl;
}

unfoldable pub add_to_session : Session → MemoryRecord → Session
add_to_session s copy = record s {
  slots = set s.slots s.head (some copy);
  head = (s.head + 1) % length s.slots;
  next_id = (s.next_id + 1) % 2 ^ 64;
}

-- `none` for -1, and otherwise `*out_id`. The session is made even if the copy fails.
unfoldable pub add :
    WorkingStore → CString → MemoryRecord → (now ttl_ms : ℕ) → Option ℕ × WorkingStore
add ws sid rec now ttl_ms =
    let (s, made) = get_session ws sid in
    let ttl = if ttl_ms == 0 then ws.default_ttl_ms else ttl_ms in
    elim (record_clone rec) [
      | none ↦ (none, made)
      | some copy ↦
          (some s.next_id, put_session made sid (add_to_session s (stamped copy s.next_id now ttl)))
    ]

abbrev pub clone_slot : Slot → Option MemoryRecord
clone_slot none = none
clone_slot (some r) = record_clone r

-- The record in the slot that find_slot gives, if it gives one.
abbrev pub found_record : List Slot × Option ℕ → Slot
found_record (slots, none) = none
found_record (slots, some k) = get_or slots k none

unfoldable pub get : WorkingStore → CString → (id now : ℕ) → Option MemoryRecord × WorkingStore
get ws sid id now = elim (find_session ws sid) [
  | none ↦ (none, ws)
  | some s ↦
      let found = find_slot id now s.slots in
      (clone_slot (found_record found), put_session ws sid (record s { slots = found.0 }))
]

-- `ns && (!agent_id || strcmp(agent_id, ns) != 0)`, negated
abbrev pub is_owner : Option CString → MemoryRecord → Bool
is_owner none r = true
is_owner (some ns) r = elim r.agent_id [ none ↦ false | some agent ↦ is_same agent ns ]

abbrev pub if_owner : Option CString → Slot → Option MemoryRecord
if_owner ns none = none
if_owner ns (some r) = if is_owner ns r then some r else none

-- The slots after the record moved out of its slot, if it does.
abbrev pub emptied : List Slot → Option ℕ → Bool → List Slot
emptied slots none moved = slots
emptied slots (some k) moved = if moved then set slots k none else slots

abbrev pub is_some : Option MemoryRecord → Bool
is_some none = false
is_some (some r) = true

unfoldable pub take :
    WorkingStore
    → CString
    → (id now : ℕ) → (ns : Option CString) → Option MemoryRecord × WorkingStore
take ws sid id now ns = elim (find_session ws sid) [
  | none ↦ (none, ws)
  | some s ↦
      let found = find_slot id now s.slots in
      let out = if_owner ns (found_record found) in
      (out, put_session ws sid (record s { slots = emptied found.0 found.1 (is_some out) }))
]

-- The loop of working_store_sweep over one ring, and its count.
unfoldable pub sweep_slots : ℕ → List Slot → List Slot × ℕ
sweep_slots now [] = ([], 0)
sweep_slots now (none ∷ ss) = let (rest, n) = sweep_slots now ss in (none ∷ rest, n)
sweep_slots now (some r ∷ ss) =
    let (rest, n) = sweep_slots now ss in
    if is_expired now r then (none ∷ rest, suc n) else (some r ∷ rest, n)

unfoldable pub sweep_chain : ℕ → List Session → List Session × ℕ
sweep_chain now [] = ([], 0)
sweep_chain now (s ∷ ss) =
    let (slots, m) = sweep_slots now s.slots in
    let (rest, n) = sweep_chain now ss in (record s { slots = slots } ∷ rest, m + n)

unfoldable pub sweep_buckets : ℕ → List (List Session) → List (List Session) × ℕ
sweep_buckets now [] = ([], 0)
sweep_buckets now (ss ∷ buckets) =
    let (swept, m) = sweep_chain now ss in
    let (rest, n) = sweep_buckets now buckets in (swept ∷ rest, m + n)

unfoldable pub sweep : WorkingStore → ℕ → ℕ × WorkingStore
sweep ws now =
    let (buckets, removed) = sweep_buckets now ws.buckets in
    (removed, record ws { buckets = buckets })

unfoldable pub count_slots : List Slot → ℕ
count_slots [] = 0
count_slots (none ∷ ss) = count_slots ss
count_slots (some r ∷ ss) = suc (count_slots ss)

unfoldable pub count_chain : List Session → ℕ
count_chain [] = 0
count_chain (s ∷ ss) = count_slots s.slots + count_chain ss

unfoldable pub count_buckets : List (List Session) → ℕ
count_buckets [] = 0
count_buckets (ss ∷ buckets) = count_chain ss + count_buckets buckets

unfoldable pub count : WorkingStore → ℕ
count ws = count_buckets ws.buckets
