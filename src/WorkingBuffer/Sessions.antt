-- ===== src/WorkingBuffer/Sessions.antt =====
-- The sessions of a store: what a write to one of them changes, and the invariant of a ring.
use aegisdb.Prelude.{
  ℕ, zero, suc, ◌<◌, ◌≡◌, refl, ap, subst, ◌∙◌, inl, inr, true, false, Bool-cases, Option, none,
  some, Option-cases, List, [], ◌∷◌, ◌==◌, if◌then◌else◌, length, length-set, get_or, replicate,
  All, All-set, All-get_or, get_or-set_same, get_or-set_other, arith,
}
use aegisdb.Record.{CString}
use aegisdb.CStrings.{is_same, is_same_refl, is_same→eq, other_string, same_to_third}
use aegisdb.WorkingBuffer.{
  Slot, Session, WorkingStore, bucket_count, hash_str, find_in, chain, find_session, new_session,
  replace_in, put_chain, put_session, get_session,
}
use aegisdb.WorkingBuffer.Slots.{HasIdBelow}

-- The next write is inside the ring, and no record has an id that is still to be given.
pub record IsSession (s : Session) : Type 0 where
  pub inside : s.head < length s.slots
  pub ids : All (HasIdBelow s.next_id) s.slots

pub record IsValid (ws : WorkingStore) : Type 0 where
  pub size : length ws.buckets ≡ bucket_count
  pub room : 0 < ws.capacity
  pub sessions : All (All IsSession) ws.buckets

hash_str_lt : (s : CString) → hash_str s < bucket_count
unfolding hash_str
hash_str_lt s = omega arith

find_in-same :
    (sid : CString) (ss : List Session) (s : Session)
    → find_in sid ss ≡ some s
    → is_same s.session_id sid ≡ true
unfolding find_in
find_in-same sid [] s f = cc
find_in-same sid (s0 ∷ ss) s f = elim (Bool-cases (is_same s0.session_id sid)) [
  | inl e ↦
      let k : some s0 ≡ some s = rw e at f in
      let name : ◌≡◌ {A = CString} s0.session_id s.session_id = ap session_name k in rw name at e
  | inr d ↦ find_in-same sid ss s (rw d at f)
]
  where
    session_name : Option Session → CString
    session_name none = []
    session_name (some s) = s.session_id

find_in-IsSession :
    (sid : CString) (ss : List Session) (s : Session)
    → All IsSession ss
    → find_in sid ss ≡ some s
    → IsSession s
unfolding find_in
find_in-IsSession sid [] s h f = absurd (none_some f)
  where
    none_some : none ≡ some s → ⊥
    none_some e = cc
find_in-IsSession sid (s0 ∷ ss) s (p, h) f = elim (Bool-cases (is_same s0.session_id sid)) [
  | inl e ↦ let k : some s0 ≡ some s = rw e at f in transfer k p
  | inr d ↦ find_in-IsSession sid ss s h (rw d at f)
]
  where
    of_option : Option Session → Type 0
    of_option none = Unit
    of_option (some s) = IsSession s

    transfer : some s0 ≡ some s → IsSession s0 → IsSession s
    transfer k p = subst of_option k p

find_in-replace_in :
    (sid sid' : CString) (s' : Session) (ss : List Session) (s : Session)
    → find_in sid ss ≡ some s
    → is_same s'.session_id sid ≡ true
    → find_in sid' (replace_in sid s' ss) ≡ (if is_same sid sid' then some s' else find_in sid' ss)
unfolding find_in replace_in
find_in-replace_in sid sid' s' [] s f n = cc
find_in-replace_in sid sid' s' (s0 ∷ ss) s f n = elim (Bool-cases (is_same s0.session_id sid)) [
  | inl e ↦ elim (Bool-cases (is_same sid sid')) [
    | inl t ↦
        let u : is_same s'.session_id sid' ≡ true = rw (is_same→eq s'.session_id sid n) t in
        rw (e, t, u)
    | inr t ↦
        rw (e, t, other_string s'.session_id sid sid' n t, other_string s0.session_id sid sid' e t)
  ]
  | inr d ↦ elim (Bool-cases (is_same s0.session_id sid')) [
    | inl u ↦
        let t : is_same sid sid' ≡ false = elim (Bool-cases (is_same sid sid')) [
          | inr t ↦ t
          | inl t ↦ absurd (same_to_third s0.session_id sid sid' u t d)
        ] in
        rw (d, u, t)
    | inr u ↦ rw (d, u) (find_in-replace_in sid sid' s' ss s (rw d at f) n)
  ]
]

replace_in-IsSession :
    (sid : CString) (s' : Session) (ss : List Session)
    → IsSession s'
    → All IsSession ss
    → All IsSession (replace_in sid s' ss)
unfolding replace_in
replace_in-IsSession sid s' [] p h = tt
replace_in-IsSession sid s' (s ∷ ss) p (q, h) = elim (Bool-cases (is_same s.session_id sid)) [
  | inl e ↦ rw e (p, h)
  | inr d ↦ rw d (q, replace_in-IsSession sid s' ss p h)
]

same_chain :
    (ws : WorkingStore) (a b : CString)
    → (hash_str a == hash_str b) ≡ true
    → chain ws a ≡ chain ws b
same_chain ws a b h = ap (λ (i : ℕ). get_or ws.buckets i []) (ground arith)

other_hash : (a b : CString) → (hash_str a == hash_str b) ≡ false → is_same a b ≡ false
other_hash a b h = elim (Bool-cases (is_same a b)) [
  | inr d ↦ d
  | inl s ↦ let e = ap hash_str (is_same→eq a b s) in ground arith
]

module _ (ws : WorkingStore) (v : IsValid ws) where
  pub chain-IsSession : (sid : CString) → All IsSession (chain ws sid)
  chain-IsSession sid = All-get_or (All IsSession) ws.buckets (hash_str sid) [] tt v.sessions

  pub find_session-IsSession :
      (sid : CString) (s : Session) → find_session ws sid ≡ some s → IsSession s
  unfolding find_session
  find_session-IsSession sid s f = find_in-IsSession sid (chain ws sid) s (chain-IsSession sid) f

  pub put_chain-IsValid :
      (sid : CString) (ss : List Session) → All IsSession ss → IsValid (put_chain ws sid ss)
  put_chain-IsValid sid ss h = record {
    size = length-set ws.buckets (hash_str sid) ss ∙ v.size;
    room = v.room;
    sessions = All-set (All IsSession) ws.buckets (hash_str sid) ss h v.sessions;
  }

  chain-put_chain :
      (sid sid' : CString) (ss : List Session)
      → chain (put_chain ws sid ss) sid'
        ≡ (if hash_str sid == hash_str sid' then ss else chain ws sid')
  chain-put_chain sid sid' ss = elim (Bool-cases (hash_str sid == hash_str sid')) [
    | inl e ↦
        let h : hash_str sid' ≡ hash_str sid = ground arith in
        rw e (
          rw h (
            get_or-set_same ws.buckets (hash_str sid) ss []
              (omega (arith, v.size, hash_str_lt sid))))
    | inr d ↦ rw d (get_or-set_other ws.buckets (hash_str sid) (hash_str sid') ss [] (ground arith))
  ]

  pub put_session-IsValid :
      (sid : CString) (s : Session) → IsSession s → IsValid (put_session ws sid s)
  unfolding put_session
  put_session-IsValid sid s p =
      put_chain-IsValid sid _ (replace_in-IsSession sid s (chain ws sid) p (chain-IsSession sid))

  -- A write to a session that was found is a write to that session alone.
  pub find_session-put_session :
      (sid sid' : CString) (s s' : Session)
      → find_session ws sid ≡ some s
      → ◌≡◌ {A = CString} s'.session_id s.session_id
      → find_session (put_session ws sid s') sid'
        ≡ (if is_same sid sid' then some s' else find_session ws sid')
  unfolding find_session put_session
  find_session-put_session sid sid' s s' f name =
      let n : is_same s'.session_id sid ≡ true = rw name (find_in-same sid (chain ws sid) s f) in
      rw (chain-put_chain sid sid' (replace_in sid s' (chain ws sid)))
        (elim (Bool-cases (hash_str sid == hash_str sid')) [
          | inl e ↦
              rw (e, ← same_chain ws sid sid' e)
                (find_in-replace_in sid sid' s' (chain ws sid) s f n)
          | inr d ↦ rw (d, other_hash sid sid' d)
        ])

  pub find_session-put_new :
      (sid sid' : CString)
      → find_session ws sid ≡ none
      → find_session (put_chain ws sid (new_session ws sid ∷ chain ws sid)) sid'
        ≡ (if is_same sid sid' then some (new_session ws sid) else find_session ws sid')
  unfolding find_session
  find_session-put_new sid sid' f =
      rw (chain-put_chain sid sid' (new_session ws sid ∷ chain ws sid))
        (elim (Bool-cases (hash_str sid == hash_str sid')) [
          | inl e ↦ rw (e, ← same_chain ws sid sid' e) (unfold find_in new_session in refl)
          | inr d ↦ rw (d, other_hash sid sid' d)
        ])

length-replicate : (n : ℕ) → length (replicate {A = Slot} n none) ≡ n
length-replicate zero = refl
length-replicate (suc n) = ap suc (length-replicate n)

replicate-HasIdBelow : (n next : ℕ) → All (HasIdBelow next) (replicate n none)
replicate-HasIdBelow zero next = tt
replicate-HasIdBelow (suc n) next = (tt, replicate-HasIdBelow n next)

pub new_session-IsSession :
    (ws : WorkingStore) (sid : CString) → IsValid ws → IsSession (new_session ws sid)
unfolding new_session
new_session-IsSession ws sid v = record {
  inside = omega (arith, v.room, length-replicate ws.capacity);
  ids = replicate-HasIdBelow ws.capacity 1;
}

-- What get_session with `create` gives: a session of the store that it leaves.
pub record IsMade (ws : WorkingStore) (sid : CString) (s : Session) (made : WorkingStore)
    : Type 0 where
  pub valid : IsValid made
  pub session : IsSession s
  pub found : find_session made sid ≡ some s
  pub others :
      (sid' : CString) → is_same sid sid' ≡ false → find_session made sid' ≡ find_session ws sid'

pub get_session-IsMade :
    (ws : WorkingStore) (sid : CString)
    → IsValid ws
    → IsMade ws sid (get_session ws sid).0 (get_session ws sid).1
unfolding get_session
get_session-IsMade ws sid v = elim (Option-cases (find_session ws sid)) [
  | inr (s, f) ↦
      rw (f, get_session)
        (record {
          valid = v;
          session = find_session-IsSession ws v sid s f;
          found = f;
          others = λ sid' d. refl;
        })
  | inl f ↦
      let p = new_session-IsSession ws sid v in
      rw (f, get_session)
        (record {
          valid = put_chain-IsValid ws v sid _ (p, chain-IsSession ws v sid);
          session = p;
          found = rw (find_session-put_new ws v sid sid f, is_same_refl sid);
          others = λ sid' d. rw (find_session-put_new ws v sid sid' f, d);
        })
]
