-- ===== src/UsageIndex/Track.antt =====
-- usage_index_track where the table has room, and what usage_index_get reads after it.
use aegisdb.Prelude.{
  ℕ, ◌<◌, ◌%◌, ◌≡◌, ◌≢◌, refl, sym, ap, ◌∙◌, ◌⊎◌, inl, inr, Bool, true, false, Bool-cases, Option,
  none, some, none_some, Option-cases, List, [], ◌∷◌, ◌==◌, if◌then◌else◌, length, length-set, set,
  get_or-set_same, get_or-set_other, arith,
}
use aegisdb.Mix.{mix64}
use aegisdb.UsageIndex.{
  UsageEntry, UsageIndex, zero_entry, slot_of, place_from, fresh_entry, place, usage, get,
}
use aegisdb.UsageIndex.Probe.{IsHit, probe_from-absent}
use aegisdb.UsageIndex.Tracked.{IsIndexed, slot_of-IsHit, read_slot, get-read_slot}
use aegisdb.UsageIndex.Place.{
  IsFree, place_from-IsFree, probe_from-filled_other, probe_from-filled_same,
}

module _ (slots : List UsageEntry) (id k : ℕ) (free : IsFree slots k) (pos : 0 < length slots) where
  abbrev filled : List UsageEntry
  filled = set slots k (fresh_entry id)

  filled-IsHit :
      (id' j : ℕ) → (id == id') ≡ false → IsHit filled id' j → (k ≢ j) × IsHit slots id' j
  filled-IsHit id' j d h = elim (Bool-cases (k == j)) [
    | inl t ↦
        let e : j ≡ k = ground arith in
        let w = get_or-set_same slots k (fresh_entry id) zero_entry free.inside in
        absurd (apart d (sym (ap (λ (x : UsageEntry). x.id == id') w) ∙ (rw e at h.same)))
    | inr f ↦
        let n : k ≢ j = ground arith in
        let w = get_or-set_other slots k j (fresh_entry id) zero_entry n in
        (
          n,
          record {
            inside = omega (arith, h.inside, length-set slots k (fresh_entry id));
            is_live = sym (ap (λ (x : UsageEntry). x.state) w) ∙ h.is_live;
            same = sym (ap (λ (x : UsageEntry). x.id == id') w) ∙ h.same;
          },
        )
  ]
    where
      apart : {b : Bool} → b ≡ false → b ≡ true → ⊥
      apart f t = cc

  slot_of-filled_other :
      (id' : ℕ) → IsIndexed slots → (id == id') ≡ false → slot_of filled id' ≡ slot_of slots id'
  unfolding slot_of
  slot_of-filled_other id' v d = elim (Option-cases (slot_of slots id')) [
    | inr (j, f) ↦ rw (length-set slots k (fresh_entry id)) (
        probe_from-filled_other slots pos id k free id' j d (length slots)
          (mix64 id' % length slots) f
        ∙ sym f)
    | inl f ↦
        probe_from-absent filled id' (omega (arith, pos, length-set slots k (fresh_entry id)))
          (λ j h. none_some j (sym f ∙ v.found id' j (filled-IsHit id' j d h).1)) (length filled)
          (mix64 id' % length filled)
        ∙ sym f
  ]

  slot_of-filled_same :
      (b : Bool)
      → slot_of slots id ≡ none
      → place_from slots none (length slots) (mix64 id % length slots) ≡ some (k, b)
      → slot_of filled id ≡ some k
  unfolding slot_of
  slot_of-filled_same b f h =
      rw (length-set slots k (fresh_entry id))
        (probe_from-filled_same slots pos id k free b (length slots) (mix64 id % length slots) f h)

  read_slot-filled_other :
      (id' : ℕ) (o : Option ℕ) → slot_of slots id' ≡ o → read_slot filled o ≡ read_slot slots o
  read_slot-filled_other id' none f = refl
  read_slot-filled_other id' (some j) f =
      let h = slot_of-IsHit slots id' j f in
      ap (λ (x : UsageEntry). some (usage x))
        (get_or-set_other slots k j (fresh_entry id) zero_entry
          (λ q. free.not_live (rw q h.is_live)))

  filled-IsIndexed :
      IsIndexed slots → slot_of slots id ≡ none → slot_of filled id ≡ some k → IsIndexed filled
  filled-IsIndexed v f g = record {
    found = λ id' j h. elim (Bool-cases (id == id')) [
      | inr d ↦ slot_of-filled_other id' v d ∙ v.found id' j (filled-IsHit id' j d h).1
      | inl s ↦ let e : id' ≡ id = ground arith in rw e (g ∙ ap some (only j (rw e at h)))
    ];
  }
    where
      only : (j : ℕ) → IsHit filled id j → k ≡ j
      only j h = elim (Bool-cases (k == j)) [
        | inl t ↦ ground arith
        | inr n ↦
            let w = get_or-set_other slots k j (fresh_entry id) zero_entry (ground arith) in
            let old : IsHit slots id j = record {
              inside = omega (arith, h.inside, length-set slots k (fresh_entry id));
              is_live = sym (ap (λ (x : UsageEntry). x.state) w) ∙ h.is_live;
              same = sym (ap (λ (x : UsageEntry). x.id == id) w) ∙ h.same;
            } in
            none_some j (sym f ∙ v.found id j old)
      ]

Place-cases : (o : Option (ℕ × Bool)) → (o ≡ none) ⊎ ((k : ℕ) × (b : Bool) × (o ≡ some (k, b)))
Place-cases none = inl refl
Place-cases (some (k, b)) = inr (k, b, refl)

room :
    (slots : List UsageEntry) (i k : ℕ) (b : Bool)
    → place_from slots none (length slots) i ≡ some (k, b)
    → 0 < length slots
unfolding place_from
room [] i k b h = absurd (no h)
  where
    no : ◌≡◌ {A = Option (ℕ × Bool)} none (some (k, b)) → ⊥
    no e = cc
room (x ∷ xs) i k b h = omega arith

module _ (u : UsageIndex) (id : ℕ) (v : IsIndexed u.slots) (new : slot_of u.slots id ≡ none) where
  -- Where the insertion of an id that is not tracked succeeds, the id has zeroed counters, and every
  -- other id has what it had, also when a tombstone is reused.
  pub get-place :
      (id' : ℕ)
      → (place u id).0 ≡ true
      → get (place u id).1 id' ≡ (if id == id' then some (0, 0) else get u id')
  unfolding place
  get-place id' =
      elim (Place-cases (place_from u.slots none (length u.slots) (mix64 id % length u.slots))) [
        | inl f ↦ rw (f, place) (λ e. cc)
        | inr (k, b, f) ↦
            let pos = room u.slots (mix64 id % length u.slots) k b f in
            let free =
              place_from-IsFree u.slots pos (length u.slots) (mix64 id % length u.slots) k b f in
            rw (f, place)
              (λ e. get-read_slot _ id' ∙ elim (Bool-cases (id == id')) [
                | inl s ↦
                    let q : id' ≡ id = ground arith in
                    rw s (
                      rw (q, slot_of-filled_same u.slots id k free pos b new f)
                        (ap (λ (x : UsageEntry). some (usage x))
                          (get_or-set_same u.slots k (fresh_entry id) zero_entry free.inside)))
                | inr d ↦
                    rw (d, slot_of-filled_other u.slots id k free pos id' v d)
                      (read_slot-filled_other u.slots id k free pos id' (slot_of u.slots id') refl
                        ∙ sym (get-read_slot u id'))
              ])
      ]

  -- What the insertion leaves is still indexed.
  pub place-IsIndexed : IsIndexed (place u id).1.slots
  unfolding place
  place-IsIndexed =
      elim (Place-cases (place_from u.slots none (length u.slots) (mix64 id % length u.slots))) [
        | inl f ↦ rw (f, place) v
        | inr (k, b, f) ↦
            let pos = room u.slots (mix64 id % length u.slots) k b f in
            let free =
              place_from-IsFree u.slots pos (length u.slots) (mix64 id % length u.slots) k b f in
            rw (f, place)
              (filled-IsIndexed u.slots id k free pos v new
                (slot_of-filled_same u.slots id k free pos b new f))
      ]

  -- Where the insertion of an id that is not tracked succeeds in an indexed table, the table is still
  -- indexed, the id has zeroed counters, and every other id has what it had, also when a tombstone is
  -- reused.
  pub get-place-IsIndexed :
      (id' : ℕ)
      → (place u id).0 ≡ true
      → IsIndexed (place u id).1.slots
        × (get (place u id).1 id' ≡ (if id == id' then some (0, 0) else get u id'))
  get-place-IsIndexed id' h = (place-IsIndexed, get-place id' h)
