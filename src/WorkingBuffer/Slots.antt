-- ===== src/WorkingBuffer/Slots.antt =====
-- One ring of slots: what find_slot returns and what it clears, and what the sweep clears.
use aegisdb.Prelude.{
  ℕ, zero, suc, ◌+◌, ◌≤◌, ◌<◌, ◌≡◌, refl, ap, ◌∙◌, inl, inr, Bool, true, false, Bool-cases, Option,
  none, some, List, [], ◌∷◌, ◌==◌, if◌then◌else◌, length, length-set, set, All, All-set, arith,
}
use aegisdb.Record.{MemoryRecord}
use aegisdb.WorkingBuffer.{
  Slot, is_expired, next_slot, find_slot, found_record, emptied, sweep_slots, count_slots,
}

-- The first record with the id that is live at `now`.
unfoldable pub lookup : (id now : ℕ) → List Slot → Slot
lookup id now [] = none
lookup id now (none ∷ ss) = lookup id now ss
lookup id now (some r ∷ ss) =
    let rest = lookup id now ss in
    if is_expired now r then rest else if r.id == id then some r else rest

found_next :
    (s : Slot) (slots : List Slot) (at : Option ℕ)
    → found_record (s ∷ slots, next_slot at) ≡ found_record (slots, at)
found_next s slots none = refl
found_next s slots (some k) = refl

module _ (id now : ℕ) where
  -- The slot that find_slot gives holds what `lookup` finds.
  pub found_record-find_slot :
      (ss : List Slot) → found_record (find_slot id now ss) ≡ lookup id now ss
  unfolding find_slot lookup
  found_record-find_slot [] = refl
  found_record-find_slot (none ∷ ss) =
      found_next none (find_slot id now ss).0 (find_slot id now ss).1 ∙ found_record-find_slot ss
  found_record-find_slot (some r ∷ ss) = elim (Bool-cases (is_expired now r)) [
    | inl e ↦ rw e (
        found_next none (find_slot id now ss).0 (find_slot id now ss).1 ∙ found_record-find_slot ss)
    | inr l ↦ elim (Bool-cases (r.id == id)) [
      | inl h ↦ rw (l, h)
      | inr d ↦
          rw (l, d)
            (found_next (some r) (find_slot id now ss).0 (find_slot id now ss).1
              ∙ found_record-find_slot ss)
    ]
  ]

  still_expired :
      (now' : ℕ) (r : MemoryRecord)
      → now ≤ now'
      → is_expired now r ≡ true
      → is_expired now' r ≡ true
  still_expired now' r h e = ground arith

  -- What find_slot clears had expired, so that no later look misses it.
  pub lookup-find_slot :
      (id' now' : ℕ) (ss : List Slot)
      → now ≤ now'
      → lookup id' now' (find_slot id now ss).0 ≡ lookup id' now' ss
  unfolding find_slot lookup
  lookup-find_slot id' now' [] h = refl
  lookup-find_slot id' now' (none ∷ ss) h = lookup-find_slot id' now' ss h
  lookup-find_slot id' now' (some r ∷ ss) h = elim (Bool-cases (is_expired now r)) [
    | inl e ↦ rw (e, still_expired now' r h e) (lookup-find_slot id' now' ss h)
    | inr l ↦ elim (Bool-cases (r.id == id)) [
      | inl s ↦ rw (l, s)
      | inr d ↦ rw (l, d, lookup-find_slot id' now' ss h)
    ]
  ]

module _ (now : ℕ) where
  -- What the sweep clears had expired, so that no later look misses it.
  pub lookup-sweep_slots :
      (id' now' : ℕ) (ss : List Slot)
      → now ≤ now'
      → lookup id' now' (sweep_slots now ss).0 ≡ lookup id' now' ss
  unfolding sweep_slots lookup
  lookup-sweep_slots id' now' [] h = refl
  lookup-sweep_slots id' now' (none ∷ ss) h = lookup-sweep_slots id' now' ss h
  lookup-sweep_slots id' now' (some r ∷ ss) h = elim (Bool-cases (is_expired now r)) [
    | inl e ↦ rw (e, still_expired id' now now' r h e) (lookup-sweep_slots id' now' ss h)
    | inr l ↦ rw (l, lookup-sweep_slots id' now' ss h)
  ]

  pub count-sweep_slots :
      (ss : List Slot)
      → (sweep_slots now ss).1 + count_slots (sweep_slots now ss).0 ≡ count_slots ss
  unfolding sweep_slots count_slots
  count-sweep_slots [] = refl
  count-sweep_slots (none ∷ ss) = count-sweep_slots ss
  count-sweep_slots (some r ∷ ss) = elim (Bool-cases (is_expired now r)) [
    | inl e ↦ rw e (omega (arith, count-sweep_slots ss))
    | inr l ↦ rw l (omega (arith, count-sweep_slots ss))
  ]

  -- No slot holds a record that has expired at `now`.
  abbrev pub IsLive : Slot → Type 0
  IsLive none = Unit
  IsLive (some r) = is_expired now r ≡ false

  pub sweep_slots-IsLive : (ss : List Slot) → All IsLive (sweep_slots now ss).0
  unfolding sweep_slots
  sweep_slots-IsLive [] = tt
  sweep_slots-IsLive (none ∷ ss) = (tt, sweep_slots-IsLive ss)
  sweep_slots-IsLive (some r ∷ ss) = elim (Bool-cases (is_expired now r)) [
    | inl e ↦ rw e (tt, sweep_slots-IsLive ss)
    | inr l ↦ rw l (l, sweep_slots-IsLive ss)
  ]

-- The ids of the slots are below `next`.
abbrev pub HasIdBelow : ℕ → Slot → Type 0
HasIdBelow next none = Unit
HasIdBelow next (some r) = r.id < next

-- The write of a new record with a new id, where it is looked for.
pub lookup-set :
    (ss : List Slot) (head : ℕ) (copy : MemoryRecord) (now : ℕ)
    → All (HasIdBelow copy.id) ss
    → head < length ss
    → is_expired now copy ≡ false
    → lookup copy.id now (set ss head (some copy)) ≡ some copy
unfolding lookup
lookup-set [] head copy now h lt e = absurd (omega arith)
lookup-set (s ∷ ss) zero copy now h lt e = let k = ==_refl_id copy in rw (e, k)
  where
    ==_refl_id : (r : MemoryRecord) → (r.id == r.id) ≡ true
    ==_refl_id r = ground arith
lookup-set (none ∷ ss) (suc head) copy now (p, h) lt e =
    lookup-set ss head copy now h (omega arith) e
lookup-set (some r ∷ ss) (suc head) copy now (p, h) lt e =
    let d : (r.id == copy.id) ≡ false = ground arith in
    elim (Bool-cases (is_expired now r)) [
      | inl x ↦ rw x (lookup-set ss head copy now h (omega arith) e)
      | inr l ↦ rw (l, d) (lookup-set ss head copy now h (omega arith) e)
    ]

module _ (id now : ℕ) where
  pub length-find_slot : (ss : List Slot) → length (find_slot id now ss).0 ≡ length ss
  unfolding find_slot
  length-find_slot [] = refl
  length-find_slot (none ∷ ss) = ap suc (length-find_slot ss)
  length-find_slot (some r ∷ ss) = elim (Bool-cases (is_expired now r)) [
    | inl e ↦ rw e (ap suc (length-find_slot ss))
    | inr l ↦ elim (Bool-cases (r.id == id)) [
      | inl s ↦ rw (l, s)
      | inr d ↦ rw (l, d) (ap suc (length-find_slot ss))
    ]
  ]

  pub find_slot-HasIdBelow :
      (next : ℕ) (ss : List Slot)
      → All (HasIdBelow next) ss
      → All (HasIdBelow next) (find_slot id now ss).0
  unfolding find_slot
  find_slot-HasIdBelow next [] h = tt
  find_slot-HasIdBelow next (none ∷ ss) (p, h) = (tt, find_slot-HasIdBelow next ss h)
  find_slot-HasIdBelow next (some r ∷ ss) (p, h) = elim (Bool-cases (is_expired now r)) [
    | inl e ↦ rw e (tt, find_slot-HasIdBelow next ss h)
    | inr l ↦ elim (Bool-cases (r.id == id)) [
      | inl s ↦ rw (l, s) (p, h)
      | inr d ↦ rw (l, d) (p, find_slot-HasIdBelow next ss h)
    ]
  ]

emptied-next :
    (s : Slot) (slots : List Slot) (at : Option ℕ) (moved : Bool)
    → emptied (s ∷ slots) (next_slot at) moved ≡ s ∷ emptied slots at moved
emptied-next s slots none moved = refl
emptied-next s slots (some k) true = refl
emptied-next s slots (some k) false = refl

pub length-emptied :
    (slots : List Slot) (at : Option ℕ) (moved : Bool)
    → length (emptied slots at moved) ≡ length slots
length-emptied slots none moved = refl
length-emptied slots (some k) true = length-set slots k none
length-emptied slots (some k) false = refl

pub emptied-HasIdBelow :
    (next : ℕ) (slots : List Slot) (at : Option ℕ) (moved : Bool)
    → All (HasIdBelow next) slots
    → All (HasIdBelow next) (emptied slots at moved)
emptied-HasIdBelow next slots none moved h = h
emptied-HasIdBelow next slots (some k) true h = All-set (HasIdBelow next) slots k none tt h
emptied-HasIdBelow next slots (some k) false h = h

-- Moving a record out of the ring is seen by no look for another id.
pub lookup-emptied :
    (id now id' now' : ℕ) (moved : Bool) (ss : List Slot)
    → now ≤ now'
    → (id == id') ≡ false
    → lookup id' now' (emptied (find_slot id now ss).0 (find_slot id now ss).1 moved)
      ≡ lookup id' now' ss
unfolding find_slot lookup
lookup-emptied id now id' now' moved [] h n = refl
lookup-emptied id now id' now' moved (none ∷ ss) h n =
    rw (emptied-next none (find_slot id now ss).0 (find_slot id now ss).1 moved)
      (lookup-emptied id now id' now' moved ss h n)
lookup-emptied id now id' now' moved (some r ∷ ss) h n = elim (Bool-cases (is_expired now r)) [
  | inl e ↦
      rw
        (
          e,
          emptied-next none (find_slot id now ss).0 (find_slot id now ss).1 moved,
          still_expired id now now' r h e,
        )
        (lookup-emptied id now id' now' moved ss h n)
  | inr l ↦ elim (Bool-cases (r.id == id)) [
    | inl s ↦
        rw (l, s)
          (elim (Bool-cases moved) [
            | inl t ↦
                let d : (r.id == id') ≡ false = ground arith in
                rw (t, d) (either (lookup id' now' ss) (is_expired now' r))
            | inr f ↦ rw f
          ])
    | inr d ↦ rw (
      l,
      d,
      emptied-next (some r) (find_slot id now ss).0 (find_slot id now ss).1 moved,
      lookup-emptied id now id' now' moved ss h n,
    )
  ]
]
  where
    either : (x : Slot) (b : Bool) → x ≡ (if b then x else x)
    either x true = refl
    either x false = refl
