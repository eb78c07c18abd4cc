-- ===== src/WorkingBuffer/Add.antt =====
-- working_store_add, and what a later look at its session finds.
use aegisdb.Prelude.{
  ℕ, suc, ◌+◌, ◌≤◌, ◌<◌, ◌%◌, ◌^◌, ◌≡◌, refl, inl, inr, min, false, none, some, Option-cases, List,
  ◌==◌, if◌then◌else◌, length, length-set, set, All, All-set, All_mono, arith,
}
use aegisdb.Record.{CString, MemoryRecord}
use aegisdb.Record.Clone.{record_clone}
use aegisdb.CStrings.{is_same, is_same_refl}
use aegisdb.WorkingBuffer.{
  Slot, Session, WorkingStore, u64_max, get_session, expiry, stamped, add_to_session, add,
  is_expired,
}
use aegisdb.WorkingBuffer.Slots.{HasIdBelow, lookup, lookup-set}
use aegisdb.WorkingBuffer.Sessions.{
  IsSession, IsValid, put_session-IsValid, find_session-put_session, get_session-IsMade,
}
use aegisdb.WorkingBuffer.Calls.{peek}

HasIdBelow_mono : (m n : ℕ) → m ≤ n → (s : Slot) → HasIdBelow m s → HasIdBelow n s
HasIdBelow_mono m n h none p = tt
HasIdBelow_mono m n h (some r) p = omega arith

add_to_session-IsSession :
    (s : Session) (copy : MemoryRecord)
    → IsSession s
    → copy.id ≡ s.next_id
    → s.next_id < u64_max
    → IsSession (add_to_session s copy)
unfolding add_to_session
add_to_session-IsSession s copy p e lt =
    let n : (s.next_id + 1) % 2 ^ 64 ≡ suc s.next_id = omega arith in
    record {
      inside = omega (arith, p.inside, length-set s.slots s.head (some copy));
      ids = rw n (
          All-set (HasIdBelow (suc s.next_id)) s.slots s.head (some copy) (omega arith) (
            All_mono (HasIdBelow s.next_id) (HasIdBelow (suc s.next_id))
              (HasIdBelow_mono s.next_id (suc s.next_id) (omega arith)) s.slots p.ids));
    }

stamped-id : (copy : MemoryRecord) (id now ttl : ℕ) → (stamped copy id now ttl).id ≡ id
unfolding stamped
stamped-id copy id now ttl = refl

lookup-stamped :
    (ss : List Slot) (head : ℕ) (copy : MemoryRecord) (id now ttl now' : ℕ)
    → All (HasIdBelow id) ss
    → head < length ss
    → is_expired now' (stamped copy id now ttl) ≡ false
    → lookup id now' (set ss head (some (stamped copy id now ttl))) ≡ some (stamped copy id now ttl)
unfolding stamped
lookup-stamped ss head copy id now ttl now' h lt e =
    lookup-set ss head (stamped copy id now ttl) now' h lt e

-- A sum that would exceed 64 bits stays at the greatest time.
pub expiry-min : (now ttl : ℕ) → now ≤ u64_max → expiry now ttl ≡ min (now + ttl) u64_max
unfolding expiry
expiry-min now ttl h = ground arith

module _ (ws : WorkingStore) (sid : CString) (rec : MemoryRecord) (now ttl : ℕ)
    (v : IsValid ws) where
  abbrev session : Session
  session = (get_session ws sid).0

  -- Adding to a valid store leaves it valid, unless the session has given out all ids of 64 bits.
  pub add-IsValid_sessions : session.next_id < u64_max → IsValid (add ws sid rec now ttl).1
  unfolding add
  add-IsValid_sessions lt =
      let m = get_session-IsMade ws sid v in
      elim (Option-cases (record_clone rec)) [
        | inl c ↦ rw (c, add) m.valid
        | inr (r, c) ↦
            rw (c, add)
              (put_session-IsValid _ m.valid sid _ (
                add_to_session-IsSession session (stamped r session.next_id now _) m.session
                  (stamped-id r session.next_id now _) lt))
      ]

  -- The answer is the session's next id; and until its time to live (the default, if none is given)
  -- runs out, which saturates at the greatest time, a look at the session for that id finds the copy.
  pub peek-add :
      (copy : MemoryRecord) (now' : ℕ)
      → record_clone rec ≡ some copy
      → now ≤ u64_max
      → now' < min (now + (if ttl == 0 then ws.default_ttl_ms else ttl)) u64_max
      → ((add ws sid rec now ttl).0 ≡ some session.next_id)
        × (peek (add ws sid rec now ttl).1 sid session.next_id now'
            ≡ some (stamped copy session.next_id now (if ttl == 0 then ws.default_ttl_ms else ttl)))
  unfolding add peek
  peek-add copy now' c small live =
      let m = get_session-IsMade ws sid v in
      let life : ℕ = if ttl == 0 then ws.default_ttl_ms else ttl in
      let r = stamped copy session.next_id now life in
      let fresh : is_expired now' r ≡ false =
        unfold stamped in ground (arith, expiry-min now life) in
      let s' = add_to_session session r in
      let hit =
        find_session-put_session _ m.valid sid sid session s' m.found
          (unfold add_to_session in refl) in
      rw (c, add)
        (
          refl,
          rw (hit, is_same_refl sid)
              (unfold add_to_session in
                lookup-stamped session.slots session.head copy session.next_id now life now'
                  m.session.ids m.session.inside fresh),
        )

  -- working_store_add to a valid store changes nothing that a look at another session finds, whether
  -- it succeeds or not, also where it makes the session.
  pub peek-add_other :
      (sid' : CString) (id' now' : ℕ)
      → is_same sid sid' ≡ false
      → peek (add ws sid rec now ttl).1 sid' id' now' ≡ peek ws sid' id' now'
  unfolding add peek
  peek-add_other sid' id' now' d =
      let m = get_session-IsMade ws sid v in
      elim (Option-cases (record_clone rec)) [
        | inl c ↦ rw (c, add, m.others sid' d)
        | inr (r, c) ↦
            let life : ℕ = if ttl == 0 then ws.default_ttl_ms else ttl in
            let s' = add_to_session session (stamped r session.next_id now life) in
            let miss =
              find_session-put_session _ m.valid sid sid' session s' m.found
                (unfold add_to_session in refl) in
            rw (c, add) (rw (miss, d, m.others sid' d))
      ]
