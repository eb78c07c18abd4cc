-- ===== src/UsageIndex/Recall.antt =====
-- usage_index_record and what usage_index_get reads after it.
use aegisdb.Prelude.{
  ℕ, ◌+◌, ◌<◌, ◌%◌, ◌^◌, ◌≡◌, ◌≢◌, refl, sym, ap, ◌∙◌, inl, inr, Bool-cases, Option, none, some,
  Option-cases, List, ◌==◌, if◌then◌else◌, length, length-set, get_or, set, get_or-set_same,
  get_or-set_other, arith,
}
use aegisdb.Mix.{mix64}
use aegisdb.UsageIndex.{UsageEntry, UsageIndex, zero_entry, slot_of, recalled, record_recall, get}
use aegisdb.UsageIndex.Probe.{IsHit, probe_from-keep}
use aegisdb.UsageIndex.Tracked.{
  IsIndexed, slot_of-IsHit, read_slot, get-read_slot, read_slot-set_other,
}

-- The counters of a tracked id after a recall; an id that is not tracked stays so.
unfoldable pub recall_once : ℕ → Option (ℕ × ℕ) → Option (ℕ × ℕ)
recall_once now_ms none = none
recall_once now_ms (some (count, last_ms)) = some ((count + 1) % 2 ^ 32, now_ms)

module _ (slots : List UsageEntry) (id k now_ms : ℕ) (hit : IsHit slots id k) where
  abbrev marked : List UsageEntry
  marked = set slots k (recalled now_ms (get_or slots k zero_entry))

  slot_of-marked : (id' : ℕ) → slot_of marked id' ≡ slot_of slots id'
  unfolding slot_of
  slot_of-marked id' = rw (length-set slots k (recalled now_ms (get_or slots k zero_entry))) (
      probe_from-keep slots k (recalled now_ms (get_or slots k zero_entry)) hit.inside id' refl refl
        (length slots) (mix64 id' % length slots))

  read_slot-marked : read_slot marked (some k) ≡ recall_once now_ms (read_slot slots (some k))
  unfolding recall_once
  read_slot-marked =
      rw
        (get_or-set_same slots k (recalled now_ms (get_or slots k zero_entry)) zero_entry
          hit.inside)
        (ap (λ (c : ℕ). some (c, now_ms)) (omega arith))

  marked-IsHit : (id' j : ℕ) → IsHit marked id' j → IsHit slots id' j
  marked-IsHit id' j h =
      let e = recalled now_ms (get_or slots k zero_entry) in
      let inside : j < length slots = omega (arith, h.inside, length-set slots k e) in
      elim (Bool-cases (k == j)) [
        | inl t ↦
            let q : j ≡ k = ground arith in
            let w = get_or-set_same slots k e zero_entry hit.inside in
            rw q (record {
              inside = hit.inside;
              is_live = hit.is_live;
              same = sym (ap (λ (x : UsageEntry). x.id == id') w) ∙ (rw q at h.same);
            })
        | inr f ↦
            let n : k ≢ j = ground arith in
            let w = get_or-set_other slots k j e zero_entry n in
            record {
              inside = inside;
              is_live = sym (ap (λ (x : UsageEntry). x.state) w) ∙ h.is_live;
              same = sym (ap (λ (x : UsageEntry). x.id == id') w) ∙ h.same;
            }
      ]

module _ (u : UsageIndex) (id now_ms : ℕ) where
  -- usage_index_record adds one recall, in 32 bits, and the time to an id that is tracked; it tracks
  -- no other id, and changes the counters of none.
  pub get-record_recall :
      (id' : ℕ)
      → get (record_recall u id now_ms) id'
        ≡ (if id == id' then recall_once now_ms (get u id') else get u id')
  unfolding record_recall recall_once
  get-record_recall id' = elim (Option-cases (slot_of u.slots id)) [
    | inl f ↦
        rw (f, record_recall)
          (elim (Bool-cases (id == id')) [
            | inr d ↦ rw d
            | inl s ↦
                let e : id' ≡ id = ground arith in
                let g : get u id ≡ none = get-read_slot u id ∙ rw f in rw s (rw e (rw g refl))
          ])
    | inr (k, f) ↦
        let hit = slot_of-IsHit u.slots id k f in
        rw (f, record_recall)
          (get-read_slot _ id'
            ∙ rw (slot_of-marked u.slots id k now_ms hit id') (elim (Bool-cases (id == id')) [
              | inr d ↦ rw d (
                  read_slot-set_other u.slots id id' k _ (slot_of u.slots id') hit d refl
                  ∙ sym (get-read_slot u id'))
              | inl s ↦
                  let e : id' ≡ id = ground arith in
                  rw s
                    (rw e (rw (get-read_slot u id, f) (read_slot-marked u.slots id k now_ms hit)))
            ]))
  ]

  -- What usage_index_record leaves is still indexed.
  pub record_recall-IsIndexed : IsIndexed u.slots → IsIndexed (record_recall u id now_ms).slots
  unfolding record_recall
  record_recall-IsIndexed v = elim (Option-cases (slot_of u.slots id)) [
    | inl f ↦ rw (f, record_recall) v
    | inr (k, f) ↦
        let hit = slot_of-IsHit u.slots id k f in
        rw (f, record_recall)
          (record {
            found = λ id' j h.
                slot_of-marked u.slots id k now_ms hit id'
                ∙ v.found id' j (marked-IsHit u.slots id k now_ms hit id' j h);
          })
  ]
