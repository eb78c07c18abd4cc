-- ===== src/UsageIndex/Probe.antt =====
-- What a write to one slot does to the probe sequences.
use aegisdb.Prelude.{
  ℕ, zero, suc, ◌+◌, ◌<◌, ◌%◌, ◌≡◌, ◌≢◌, refl, sym, ap, ◌∙◌, ◌⊎◌, inl, inr, true, false, Bool-cases,
  none, some, none_some, List, ◌==◌, length, length-set, get_or, set, get_or-set_same,
  get_or-set_other, arith,
}
use aegisdb.UsageIndex.{SlotState, empty, live, dead, UsageEntry, zero_entry, slot_at, probe_from}

pub SlotState-cases : (s : SlotState) → (s ≡ live) ⊎ ((s ≡ empty) ⊎ (s ≡ dead))
SlotState-cases live = inl refl
SlotState-cases empty = inr (inl refl)
SlotState-cases dead = inr (inr refl)

-- A probe for the id goes on behind this entry.
abbrev pub IsPassed : ℕ → UsageEntry → Type 0
IsPassed id e = (e.state ≡ dead) ⊎ ((e.state ≡ live) × ((e.id == id) ≡ false))

module _ (slots : List UsageEntry) (id : ℕ) where
  pub probe-passed :
      (n i : ℕ)
      → IsPassed id (slot_at slots i)
      → probe_from slots id (suc n) i ≡ probe_from slots id n (i + 1)
  unfolding probe_from
  probe-passed n i (inl d) = rw (d, probe_from)
  probe-passed n i (inr (l, o)) = rw (l, o, probe_from)

  pub probe-empty :
      (n i : ℕ) → (slot_at slots i).state ≡ empty → probe_from slots id (suc n) i ≡ none
  unfolding probe_from
  probe-empty n i e = rw (e, probe_from)

  pub probe-hit :
      (n i : ℕ)
      → (slot_at slots i).state ≡ live
      → ((slot_at slots i).id == id) ≡ true
      → probe_from slots id (suc n) i ≡ some (i % length slots)
  unfolding probe_from
  probe-hit n i l s = rw (l, s, probe_from)

-- The slot holds the id, and is live.
pub record IsHit (slots : List UsageEntry) (id k : ℕ) : Type 0 where
  pub inside : k < length slots
  pub is_live : (get_or slots k zero_entry).state ≡ live
  pub same : ((get_or slots k zero_entry).id == id) ≡ true

-- What a probe for the id finds in an entry.
pub entry-cases :
    (id : ℕ) (e : UsageEntry)
    → IsPassed id e ⊎ ((e.state ≡ empty) ⊎ ((e.state ≡ live) × ((e.id == id) ≡ true)))
entry-cases id e = elim (SlotState-cases e.state) [
  | inr (inl x) ↦ inr (inl x)
  | inr (inr d) ↦ inl (inl d)
  | inl l ↦ elim (Bool-cases (e.id == id)) [ inl t ↦ inr (inr (l, t)) | inr f ↦ inl (inr (l, f)) ]
]

pub some-injective : (j k : ℕ) → some j ≡ some k → j ≡ k
some-injective j k e = cc

pub probe-zero : (slots : List UsageEntry) (id i : ℕ) → probe_from slots id zero i ≡ none
unfolding probe_from
probe-zero slots id i = refl

pub probe_from-IsHit :
    (slots : List UsageEntry) (id k : ℕ)
    → 0 < length slots
    → (n i : ℕ) → probe_from slots id n i ≡ some k
    → IsHit slots id k
probe_from-IsHit slots id k pos zero i h = none_some k (sym (probe-zero slots id i) ∙ h)
probe_from-IsHit slots id k pos (suc n) i h = elim (entry-cases id (slot_at slots i)) [
  | inl p ↦ probe_from-IsHit slots id k pos n (i + 1) (sym (probe-passed slots id n i p) ∙ h)
  | inr (inl e) ↦ none_some k (sym (probe-empty slots id n i e) ∙ h)
  | inr (inr (l, t)) ↦
      let e = some-injective (i % length slots) k (sym (probe-hit slots id n i l t) ∙ h) in
      rw (← e) (record { inside = omega arith; is_live = l; same = t })
]

module _ (slots : List UsageEntry) (k : ℕ) (e : UsageEntry) (inside : k < length slots) where
  abbrev written : List UsageEntry
  written = set slots k e

  pub slot_at-written :
      (i : ℕ)
      → ((i % length slots ≡ k) × (slot_at written i ≡ e))
        ⊎ ((i % length slots ≢ k) × (slot_at written i ≡ slot_at slots i))
  slot_at-written i = rw (length-set slots k e) (elim (Bool-cases (i % length slots == k)) [
    | inl t ↦
        let h : i % length slots ≡ k = ground arith in
        inl (h, rw h (get_or-set_same slots k e zero_entry inside))
    | inr f ↦
        let h : i % length slots ≢ k = ground arith in
        inr (h, get_or-set_other slots k (i % length slots) e zero_entry (λ q. h (sym q)))
  ])

  -- A probe does not see a write of an entry that it passes over one that it passed.
  pub probe_from-pass :
      (id : ℕ)
      → IsPassed id (get_or slots k zero_entry)
      → IsPassed id e
      → (n i : ℕ) → probe_from written id n i ≡ probe_from slots id n i
  probe_from-pass id old new zero i = probe-zero written id i ∙ sym (probe-zero slots id i)
  probe_from-pass id old new (suc n) i =
      step (slot_at-written i) (probe_from-pass id old new n (i + 1))
    where
      step :
          ((i % length slots ≡ k) × (slot_at written i ≡ e))
            ⊎ ((i % length slots ≢ k) × (slot_at written i ≡ slot_at slots i))
          → probe_from written id n (i + 1) ≡ probe_from slots id n (i + 1)
          → probe_from written id (suc n) i ≡ probe_from slots id (suc n) i
      step (inl (h, w)) ih =
          probe-passed written id n i (rw w new) ∙ ih ∙ sym (probe-passed slots id n i (rw h old))
      step (inr (h, w)) ih = elim (entry-cases id (slot_at slots i)) [
        | inl p ↦ probe-passed written id n i (rw w p) ∙ ih ∙ sym (probe-passed slots id n i p)
        | inr (inl x) ↦ probe-empty written id n i (rw w x) ∙ sym (probe-empty slots id n i x)
        | inr (inr (l, t)) ↦
            probe-hit written id n i (rw w l) (rw w t)
            ∙ ap (λ (c : ℕ). some (i % c)) (length-set slots k e)
            ∙ sym (probe-hit slots id n i l t)
      ]

  -- Nor does it see a write that keeps the state and the id.
  pub probe_from-keep :
      (id : ℕ)
      → e.state ≡ (get_or slots k zero_entry).state
      → e.id ≡ (get_or slots k zero_entry).id
      → (n i : ℕ) → probe_from written id n i ≡ probe_from slots id n i
  probe_from-keep id st nm zero i = probe-zero written id i ∙ sym (probe-zero slots id i)
  probe_from-keep id st nm (suc n) i = step (slot_at-written i) (probe_from-keep id st nm n (i + 1))
    where
      alike :
          (slot_at written i).state ≡ (slot_at slots i).state
          → (slot_at written i).id ≡ (slot_at slots i).id
          → probe_from written id n (i + 1) ≡ probe_from slots id n (i + 1)
          → probe_from written id (suc n) i ≡ probe_from slots id (suc n) i
      alike s m ih = elim (entry-cases id (slot_at slots i)) [
        | inl (inl d) ↦
            probe-passed written id n i (inl (s ∙ d)) ∙ ih ∙ sym (probe-passed slots id n i (inl d))
        | inl (inr (l, f)) ↦
            probe-passed written id n i (inr (s ∙ l, rw m f))
            ∙ ih
            ∙ sym (probe-passed slots id n i (inr (l, f)))
        | inr (inl x) ↦ probe-empty written id n i (s ∙ x) ∙ sym (probe-empty slots id n i x)
        | inr (inr (l, t)) ↦
            probe-hit written id n i (s ∙ l) (rw m t)
            ∙ ap (λ (c : ℕ). some (i % c)) (length-set slots k e)
            ∙ sym (probe-hit slots id n i l t)
      ]

      step :
          ((i % length slots ≡ k) × (slot_at written i ≡ e))
            ⊎ ((i % length slots ≢ k) × (slot_at written i ≡ slot_at slots i))
          → probe_from written id n (i + 1) ≡ probe_from slots id n (i + 1)
          → probe_from written id (suc n) i ≡ probe_from slots id (suc n) i
      step (inl (h, w)) ih = alike (rw (w, h) st) (rw (w, h) nm) ih
      step (inr (h, w)) ih = alike (rw w) (rw w) ih

-- An id that no live slot holds is not found.
pub probe_from-absent :
    (slots : List UsageEntry) (id : ℕ)
    → 0 < length slots
    → ((k : ℕ) → IsHit slots id k → ⊥)
    → (n i : ℕ) → probe_from slots id n i ≡ none
probe_from-absent slots id pos h zero i = probe-zero slots id i
probe_from-absent slots id pos h (suc n) i = elim (entry-cases id (slot_at slots i)) [
  | inl p ↦ probe-passed slots id n i p ∙ probe_from-absent slots id pos h n (i + 1)
  | inr (inl e) ↦ probe-empty slots id n i e
  | inr (inr (l, t)) ↦
      absurd (h (i % length slots) (record { inside = omega arith; is_live = l; same = t }))
]
