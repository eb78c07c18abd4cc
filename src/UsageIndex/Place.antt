-- ===== src/UsageIndex/Place.antt =====
-- The insertion of usage_index_track: a new id takes the first tombstone of its probe sequence, or
-- the empty slot that ends it.
use aegisdb.Prelude.{
  ℕ, zero, suc, ◌+◌, ◌<◌, ◌%◌, ◌≡◌, ◌≢◌, sym, ap, ◌∙◌, ◌⊎◌, inl, inr, Bool, true, false, Bool-cases,
  Option, none, some, none_some, List, ◌==◌, length, length-set, get_or, set, get_or-set_same,
  arith,
}
use aegisdb.UsageIndex.{
  SlotState, empty, live, dead, UsageEntry, zero_entry, slot_at, probe_from, place_from,
  fresh_entry,
}
use aegisdb.UsageIndex.Probe.{
  SlotState-cases, IsPassed, entry-cases, probe-passed, probe-empty, probe-hit, probe-zero,
  slot_at-written,
}

-- With a tombstone to reuse, the search only asks whether there is an empty slot.
place_from-reuse :
    (slots : List UsageEntry) (r n i k : ℕ) (b : Bool)
    → place_from slots (some r) n i ≡ some (k, b)
    → k ≡ r
unfolding place_from
place_from-reuse slots r zero i k b h = cc
place_from-reuse slots r (suc n) i k b h = elim (SlotState-cases (slot_at slots i).state) [
  | inl l ↦ place_from-reuse slots r n (i + 1) k b (rw (l, place_from) at h)
  | inr (inr d) ↦ place_from-reuse slots r n (i + 1) k b (rw (d, place_from) at h)
  | inr (inl e) ↦
      let q : ◌≡◌ {A = Option (ℕ × Bool)} (some (r, false)) (some (k, b)) =
        rw (e, place_from) at h in
      cc
]

-- The search ends at a slot of the table that is not live, on the probe sequence.
pub record IsFree (slots : List UsageEntry) (k : ℕ) : Type 0 where
  pub inside : k < length slots
  pub not_live : (get_or slots k zero_entry).state ≢ live

empty_live : {s : SlotState} → s ≡ empty → s ≡ live → ⊥
empty_live e l = cc

dead_live : {s : SlotState} → s ≡ dead → s ≡ live → ⊥
dead_live e l = cc

module _ (slots : List UsageEntry) (pos : 0 < length slots) where
  IsFree-here : (i : ℕ) → ((slot_at slots i).state ≡ live → ⊥) → IsFree slots (i % length slots)
  IsFree-here i h = record { inside = omega arith; not_live = h }

  pub place_from-IsFree :
      (n i k : ℕ) (b : Bool) → place_from slots none n i ≡ some (k, b) → IsFree slots k
  unfolding place_from
  place_from-IsFree zero i k b h = cc
  place_from-IsFree (suc n) i k b h = elim (SlotState-cases (slot_at slots i).state) [
    | inl l ↦ place_from-IsFree n (i + 1) k b (rw (l, place_from) at h)
    | inr (inr d) ↦
        let e : k ≡ i % length slots =
          place_from-reuse slots (i % length slots) n (i + 1) k b (rw (d, place_from) at h) in
        rw e (IsFree-here i (dead_live d))
    | inr (inl x) ↦
        let q : ◌≡◌ {A = Option (ℕ × Bool)} (some (i % length slots, true)) (some (k, b)) =
          rw (x, place_from) at h in
        let e : k ≡ i % length slots = cc in rw e (IsFree-here i (empty_live x))
  ]

  module _ (id k : ℕ) (free : IsFree slots k) where
    abbrev filled : List UsageEntry
    filled = set slots k (fresh_entry id)

    -- A probe that hits another id does not see the new entry.
    pub probe_from-filled_other :
        (id' j : ℕ)
        → (id == id') ≡ false
        → (n i : ℕ) → probe_from slots id' n i ≡ some j
        → probe_from filled id' n i ≡ some j
    probe_from-filled_other id' j d zero i h = none_some j (sym (probe-zero slots id' i) ∙ h)
    probe_from-filled_other id' j d (suc n) i h =
        step (slot_at-written slots k (fresh_entry id) free.inside i)
          (entry-cases id' (slot_at slots i)) (probe_from-filled_other id' j d n (i + 1))
      where
        step :
            ((i % length slots ≡ k) × (slot_at filled i ≡ fresh_entry id))
              ⊎ ((i % length slots ≢ k) × (slot_at filled i ≡ slot_at slots i))
            → IsPassed id' (slot_at slots i)
              ⊎ (((slot_at slots i).state ≡ empty)
                  ⊎ (((slot_at slots i).state ≡ live) × (((slot_at slots i).id == id') ≡ true)))
            → (probe_from slots id' n (i + 1) ≡ some j → probe_from filled id' n (i + 1) ≡ some j)
            → probe_from filled id' (suc n) i ≡ some j
        step w (inr (inl x)) ih = none_some j (sym (probe-empty slots id' n i x) ∙ h)
        step (inl (e, w)) (inl p) ih =
            probe-passed filled id' n i (inr (rw w, rw w d))
            ∙ ih (sym (probe-passed slots id' n i p) ∙ h)
        step (inl (e, w)) (inr (inr (l, t))) ih = absurd (free.not_live (rw e at l))
        step (inr (e, w)) (inl p) ih =
            probe-passed filled id' n i (rw w p) ∙ ih (sym (probe-passed slots id' n i p) ∙ h)
        step (inr (e, w)) (inr (inr (l, t))) ih =
            probe-hit filled id' n i (rw w l) (rw w t)
            ∙ ap (λ (c : ℕ). some (i % c)) (length-set slots k (fresh_entry id))
            ∙ sym (probe-hit slots id' n i l t)
            ∙ h

    fresh_hit : (n i : ℕ) → i % length slots ≡ k → probe_from filled id (suc n) i ≡ some k
    fresh_hit n i e =
        let w = get_or-set_same slots k (fresh_entry id) zero_entry free.inside in
        let len = length-set slots k (fresh_entry id) in
        let at : slot_at filled i ≡ fresh_entry id = rw (len, e) w in
        probe-hit filled id n i (rw at) (rw at (ground arith)) ∙ ap some (rw len e)

    pub probe_from-filled_same :
        (b : Bool) (n i : ℕ)
        → probe_from slots id n i ≡ none
        → place_from slots none n i ≡ some (k, b)
        → probe_from filled id n i ≡ some k
    unfolding place_from
    probe_from-filled_same b zero i f h = cc
    probe_from-filled_same b (suc n) i f h = elim (SlotState-cases (slot_at slots i).state) [
      | inr (inr d) ↦
          fresh_hit n i (
            sym (place_from-reuse slots (i % length slots) n (i + 1) k b (rw (d, place_from) at h)))
      | inr (inl x) ↦
          let q : ◌≡◌ {A = Option (ℕ × Bool)} (some (i % length slots, true)) (some (k, b)) =
            rw (x, place_from) at h in
          fresh_hit n i cc
      | inl l ↦ elim (Bool-cases ((slot_at slots i).id == id)) [
        | inl t ↦ absurd (none_some (i % length slots) (sym f ∙ probe-hit slots id n i l t))
        | inr o ↦
            let p : IsPassed id (slot_at slots i) = inr (l, o) in
            let ih =
              probe_from-filled_same b n (i + 1) (sym (probe-passed slots id n i p) ∙ f)
                (rw (l, place_from) at h) in
            elim (slot_at-written slots k (fresh_entry id) free.inside i) [
              | inl (e, w) ↦ absurd (free.not_live (rw e at l))
              | inr (e, w) ↦ probe-passed filled id n i (rw w p) ∙ ih
            ]
      ]
    ]
