-- ===== src/UsageIndex/Tracked.antt =====
-- The usage index as a finite map from ids to counters: untrack and record.
use aegisdb.Prelude.{
  none_some, ℕ, ◌%◌, ◌≡◌, ◌≢◌, refl, sym, ap, ◌∙◌, inl, inr, Bool, true, false, Bool-cases, Option,
  none, some, Option-cases, List, ◌==◌, if◌then◌else◌, length, length-set, get_or, set,
  get_or-set_same, get_or-set_other, arith,
}
use aegisdb.Mix.{mix64}
use aegisdb.UsageIndex.{
  live, dead, UsageEntry, UsageIndex, zero_entry, probe_from, slot_of, untrack, usage, get,
}
use aegisdb.UsageIndex.Probe.{
  IsHit, probe_from-IsHit, probe_from-pass, probe_from-absent, some-injective, probe-zero,
}

-- Every live slot is found by a probe for its id; so no id has two of them.
pub record IsIndexed (slots : List UsageEntry) : Type 0 where
  pub found : (id k : ℕ) → IsHit slots id k → slot_of slots id ≡ some k

pub slot_of-IsHit :
    (slots : List UsageEntry) (id k : ℕ) → slot_of slots id ≡ some k → IsHit slots id k
unfolding slot_of
slot_of-IsHit slots id k h = elim (Bool-cases (length slots == 0)) [
  | inr f ↦ probe_from-IsHit slots id k (ground arith) (length slots) (mix64 id % length slots) h
  | inl t ↦
      let z : length slots ≡ 0 = ground arith in
      none_some k (
        sym (probe-zero slots id (mix64 id % length slots))
        ∙ ap (λ (n : ℕ). probe_from slots id n (mix64 id % length slots)) (sym z)
        ∙ h)
]

-- What usage_index_get reads from a slot that was found.
abbrev pub read_slot : List UsageEntry → Option ℕ → Option (ℕ × ℕ)
read_slot slots none = none
read_slot slots (some k) = some (usage (get_or slots k zero_entry))

pub get-read_slot : (u : UsageIndex) (id : ℕ) → get u id ≡ read_slot u.slots (slot_of u.slots id)
unfolding get
get-read_slot u id = elim (Option-cases (slot_of u.slots id)) [
  | inl f ↦ rw (f, get)
  | inr (k, f) ↦ rw (f, get)
]

-- A hit of one id is no hit of another.
pub other_hit :
    (slots : List UsageEntry) (id id' k : ℕ)
    → IsHit slots id k
    → (id == id') ≡ false
    → ((get_or slots k zero_entry).id == id') ≡ false
other_hit slots id id' k h d = ground (arith, h.same)

-- A write to the slot of `id`, as a look for `id'` sees it.
pub read_slot-set_other :
    (slots : List UsageEntry) (id id' k : ℕ) (e : UsageEntry) (o : Option ℕ)
    → IsHit slots id k
    → (id == id') ≡ false
    → slot_of slots id' ≡ o
    → read_slot (set slots k e) o ≡ read_slot slots o
read_slot-set_other slots id id' k e none h d f = refl
read_slot-set_other slots id id' k e (some j) h d f =
    let j' = slot_of-IsHit slots id' j f in
    ap (λ (x : UsageEntry). some (usage x))
      (get_or-set_other slots k j e zero_entry
        (λ q. apart (other_hit slots id id' k h d) (rw q j'.same)))
  where
    apart : {b : Bool} → b ≡ false → b ≡ true → ⊥
    apart f t = cc

module _ (slots : List UsageEntry) (id k : ℕ) (hit : IsHit slots id k) where
  abbrev entry : UsageEntry
  entry = get_or slots k zero_entry

  abbrev buried : List UsageEntry
  buried = set slots k (record entry { state = dead })

  slot_of-buried_other : (id' : ℕ) → (id == id') ≡ false → slot_of buried id' ≡ slot_of slots id'
  unfolding slot_of
  slot_of-buried_other id' d = rw (length-set slots k (record entry { state = dead })) (
      probe_from-pass slots k (record entry { state = dead }) hit.inside id'
        (inr (hit.is_live, other_hit slots id id' k hit d)) (inl refl) (length slots)
        (mix64 id' % length slots))

  buried-IsHit : (id' j : ℕ) → IsHit buried id' j → (k ≢ j) × IsHit slots id' j
  buried-IsHit id' j h = elim (Bool-cases (k == j)) [
    | inl t ↦
        let e : j ≡ k = ground arith in
        absurd (
          dead_live (
            sym (
              ap (λ (x : UsageEntry). x.state)
                (get_or-set_same slots k (record entry { state = dead }) zero_entry hit.inside))
            ∙ (rw e at h.is_live)))
    | inr f ↦
        let n : k ≢ j = ground arith in
        let w = get_or-set_other slots k j (record entry { state = dead }) zero_entry n in
        (
          n,
          record {
            inside = omega (arith, h.inside, length-set slots k (record entry { state = dead }));
            is_live = sym (ap (λ (x : UsageEntry). x.state) w) ∙ h.is_live;
            same = sym (ap (λ (x : UsageEntry). x.id == id') w) ∙ h.same;
          },
        )
  ]
    where
      dead_live : dead ≡ live → ⊥
      dead_live e = cc

  slot_of-buried_same : IsIndexed slots → slot_of slots id ≡ some k → slot_of buried id ≡ none
  unfolding slot_of
  slot_of-buried_same v f =
      probe_from-absent buried id
        (omega (arith, hit.inside, length-set slots k (record entry { state = dead })))
        (λ j h. let p = buried-IsHit id j h in p.0 (some-injective k j (sym f ∙ v.found id j p.1)))
        (length buried) (mix64 id % length buried)

module _ (u : UsageIndex) (id : ℕ) (v : IsIndexed u.slots) where
  -- After usage_index_untrack the id is not tracked, and every other id has what it had.
  pub get-untrack : (id' : ℕ) → get (untrack u id) id' ≡ (if id == id' then none else get u id')
  unfolding untrack
  get-untrack id' = elim (Option-cases (slot_of u.slots id)) [
    | inl f ↦
        rw (f, untrack)
          (elim (Bool-cases (id == id')) [
            | inr d ↦ rw d
            | inl s ↦ let e : id' ≡ id = ground arith in rw s (rw e (get-read_slot u id ∙ rw f))
          ])
    | inr (k, f) ↦
        let hit = slot_of-IsHit u.slots id k f in
        rw (f, untrack)
          (get-read_slot _ id' ∙ elim (Bool-cases (id == id')) [
            | inr d ↦ rw d (
                rw (slot_of-buried_other u.slots id k hit id' d) (
                  read_slot-set_other u.slots id id' k _ (slot_of u.slots id') hit d refl
                  ∙ sym (get-read_slot u id')))
            | inl s ↦
                let e : id' ≡ id = ground arith in
                rw s (rw e (rw (slot_of-buried_same u.slots id k hit v f)))
          ])
  ]

  -- What usage_index_untrack leaves is still indexed.
  pub untrack-IsIndexed : IsIndexed (untrack u id).slots
  unfolding untrack
  untrack-IsIndexed = elim (Option-cases (slot_of u.slots id)) [
    | inl f ↦ rw (f, untrack) v
    | inr (k, f) ↦
        let hit = slot_of-IsHit u.slots id k f in
        rw (f, untrack)
          (record {
            found = λ id' j h.
                let p = buried-IsHit u.slots id k hit id' j h in
                elim (Bool-cases (id == id')) [
                  | inr d ↦ slot_of-buried_other u.slots id k hit id' d ∙ v.found id' j p.1
                  | inl s ↦
                      let e : id' ≡ id = ground arith in
                      absurd (p.0 (some-injective k j (sym f ∙ rw e at (v.found id' j p.1))))
                ];
          })
  ]

  -- After usage_index_untrack on an indexed table it is still indexed, the id is not tracked, and
  -- every other id has what it had.
  pub get-untrack-IsIndexed :
      (id' : ℕ)
      → IsIndexed (untrack u id).slots
        × (get (untrack u id) id' ≡ (if id == id' then none else get u id'))
  get-untrack-IsIndexed id' = (untrack-IsIndexed, get-untrack id')
