-- ===== src/WorkingBuffer/Calls.antt =====
-- add, get and take, seen through what a later look at a session finds.
use aegisdb.Prelude.{
  ℕ, ◌≤◌, ◌≡◌, ◌∙◌, sym, ◌↔◌, refl, ap, inl, inr, true, false, Bool-cases, Option, none, some,
  Option-cases, List, [], ◌==◌, arith,
}
use aegisdb.Record.{CString, MemoryRecord}
use aegisdb.CStrings.{is_same, is_same→eq, is_same_refl}
use aegisdb.WorkingBuffer.{
  Slot, Session, WorkingStore, find_session, put_session, find_slot, found_record, clone_slot, get,
  is_owner, if_owner, is_some, take,
}
use aegisdb.WorkingBuffer.Slots.{
  lookup, found_record-find_slot, lookup-find_slot, length-find_slot, find_slot-HasIdBelow,
  length-emptied, emptied-HasIdBelow, lookup-emptied,
}
use aegisdb.WorkingBuffer.Sessions.{
  IsValid, find_session-IsSession, put_session-IsValid, find_session-put_session,
}

abbrev pub slots_of : Option Session → List Slot
slots_of none = []
slots_of (some s) = s.slots

-- The live record that a look at the session finds.
unfoldable pub peek : WorkingStore → CString → (id now : ℕ) → Slot
peek ws sid id now = lookup id now (slots_of (find_session ws sid))

-- working_store_get answers a copy of the live record with the id, or nothing.
pub get-peek :
    (ws : WorkingStore) (sid : CString) (id now : ℕ)
    → (get ws sid id now).0 ≡ clone_slot (peek ws sid id now)
unfolding peek lookup get
get-peek ws sid id now = elim (Option-cases (find_session ws sid)) [
  | inl f ↦ rw (f, get)
  | inr (s, f) ↦ rw (f, get) (ap clone_slot (found_record-find_slot id now s.slots))
]

-- working_store_take answers the live record with the id, if there is one and it belongs to the
-- namespace that is asked for.
pub take-peek :
    (ws : WorkingStore) (sid : CString) (id now : ℕ) (ns : Option CString)
    → (take ws sid id now ns).0 ≡ if_owner ns (peek ws sid id now)
unfolding peek lookup take
take-peek ws sid id now ns = elim (Option-cases (find_session ws sid)) [
  | inl f ↦ rw (f, take)
  | inr (s, f) ↦ rw (f, take) (ap (if_owner ns) (found_record-find_slot id now s.slots))
]

agent_of : Slot → Option CString
agent_of none = none
agent_of (some r) = r.agent_id

owner-agent :
    (n : CString) (o : Option CString)
    → (elim o [ none ↦ false | some agent ↦ is_same agent n ]) ≡ true
    → o ≡ some n
owner-agent n none h = cc
owner-agent n (some agent) h = ap (λ (a : CString). some a) (is_same→eq agent n h)

agent-owner : (n : CString) (r : MemoryRecord) → r.agent_id ≡ some n → is_owner (some n) r ≡ true
agent-owner n r h = rw h (is_same_refl n)

if_owner-owned :
    (n : CString) (r : MemoryRecord) (s : Slot)
    → (if_owner (some n) s ≡ some r) ↔ ((s ≡ some r) × (r.agent_id ≡ some n))
unfolding agent_of
if_owner-owned n r none = ((λ h. cc), (λ (e, h). e))
if_owner-owned n r (some q) = (
  λ h. elim (Bool-cases (is_owner (some n) q)) [
    | inr f ↦ absurd (clash (rw f at h))
    | inl t ↦
        let e : some q ≡ some r = rw t at h in (e, sym (ap agent_of e) ∙ owner-agent n q.agent_id t)
  ],
  λ (e, h). let t : is_owner (some n) q ≡ true = agent-owner n q (ap agent_of e ∙ h) in rw t e,
)
  where
    clash : none ≡ some r → ⊥
    clash e = cc

-- A namespaced caller gets a record from working_store_take exactly when it is the live record with
-- the id and its agent_id is the namespace.
pub take-owned :
    (ws : WorkingStore) (sid : CString) (id now : ℕ) (n : CString) (r : MemoryRecord)
    → ((take ws sid id now (some n)).0 ≡ some r)
      ↔ ((peek ws sid id now ≡ some r) × (r.agent_id ≡ some n))
take-owned ws sid id now n r =
    rw (take-peek ws sid id now (some n)) (if_owner-owned n r (peek ws sid id now))

-- A write to a ring that no later look for `id'` sees.
peek-put_session :
    (ws : WorkingStore) (sid sid' : CString) (s : Session) (slots : List Slot) (id' now' : ℕ)
    → IsValid ws
    → find_session ws sid ≡ some s
    → lookup id' now' slots ≡ lookup id' now' s.slots
    → peek (put_session ws sid (record s { slots = slots })) sid' id' now' ≡ peek ws sid' id' now'
unfolding peek
peek-put_session ws sid sid' s slots id' now' v f e =
    rw (find_session-put_session ws v sid sid' s (record s { slots = slots }) f refl)
      (elim (Bool-cases (is_same sid sid')) [
        | inl t ↦
            let g : find_session ws sid' ≡ some s = rw (← is_same→eq sid sid' t) f in rw (t, g) e
        | inr d ↦ rw d
      ])

module _ (ws : WorkingStore) (sid : CString) (id now : ℕ) (v : IsValid ws) where
  -- working_store_get changes nothing that a look at any session finds at that time or later.
  pub peek-get :
      (sid' : CString) (id' now' : ℕ)
      → now ≤ now'
      → peek (get ws sid id now).1 sid' id' now' ≡ peek ws sid' id' now'
  unfolding get
  peek-get sid' id' now' h = elim (Option-cases (find_session ws sid)) [
    | inl f ↦ rw (f, get)
    | inr (s, f) ↦
        rw (f, get)
          (peek-put_session ws sid sid' s _ id' now' v f
            (lookup-find_slot id now id' now' s.slots h))
  ]

  -- working_store_take changes nothing that a look for another id finds, in any session, at that
  -- time or later.
  pub peek-take :
      (ns : Option CString) (sid' : CString) (id' now' : ℕ)
      → now ≤ now'
      → (id == id') ≡ false
      → peek (take ws sid id now ns).1 sid' id' now' ≡ peek ws sid' id' now'
  unfolding take
  peek-take ns sid' id' now' h n = elim (Option-cases (find_session ws sid)) [
    | inl f ↦ rw (f, take)
    | inr (s, f) ↦
        rw (f, take)
          (peek-put_session ws sid sid' s _ id' now' v f
            (lookup-emptied id now id' now' _ s.slots h n))
  ]

  -- Reading from a valid store leaves it valid.
  pub get-IsValid : IsValid (get ws sid id now).1
  unfolding get
  get-IsValid = elim (Option-cases (find_session ws sid)) [
    | inl f ↦ rw (f, get) v
    | inr (s, f) ↦
        let p = find_session-IsSession ws v sid s f in
        rw (f, get)
          (put_session-IsValid ws v sid _ (record {
            inside = omega (arith, p.inside, length-find_slot id now s.slots);
            ids = find_slot-HasIdBelow id now s.next_id s.slots p.ids;
          }))
  ]

  -- Taking from a valid store leaves it valid.
  pub take-IsValid : (ns : Option CString) → IsValid (take ws sid id now ns).1
  unfolding take
  take-IsValid ns = elim (Option-cases (find_session ws sid)) [
    | inl f ↦ rw (f, take) v
    | inr (s, f) ↦
        let p = find_session-IsSession ws v sid s f in
        let found = find_slot id now s.slots in
        let out = if_owner ns (found_record found) in
        rw (f, take)
          (put_session-IsValid ws v sid _ (record {
            inside = omega (
              arith,
              p.inside,
              length-find_slot id now s.slots,
              length-emptied found.0 found.1 (is_some out),
            );
            ids =
                emptied-HasIdBelow s.next_id found.0 found.1 (is_some out)
                  (find_slot-HasIdBelow id now s.next_id s.slots p.ids);
          }))
  ]
