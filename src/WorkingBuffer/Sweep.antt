-- ===== src/WorkingBuffer/Sweep.antt =====
-- working_store_sweep, its count, and what a later look finds.
use aegisdb.Prelude.{
  ℕ, zero, suc, ◌+◌, ◌≤◌, ◌≡◌, refl, inl, inr, Bool-cases, List, [], ◌∷◌, get_or, All, arith,
}
use aegisdb.Record.{CString}
use aegisdb.CStrings.{is_same}
use aegisdb.WorkingBuffer.{
  Session, WorkingStore, hash_str, find_in, chain, find_session, sweep_chain, sweep_buckets, sweep,
  count_chain, count_buckets, count,
}
use aegisdb.WorkingBuffer.Slots.{
  lookup, IsLive, lookup-sweep_slots, count-sweep_slots, sweep_slots-IsLive,
}
use aegisdb.WorkingBuffer.Calls.{slots_of, peek}

module _ (now : ℕ) where
  count-sweep_chain :
      (ss : List Session)
      → (sweep_chain now ss).1 + count_chain (sweep_chain now ss).0 ≡ count_chain ss
  unfolding sweep_chain count_chain
  count-sweep_chain [] = refl
  count-sweep_chain (s ∷ ss) = omega (arith, count-sweep_slots now s.slots, count-sweep_chain ss)

  count-sweep_buckets :
      (bs : List (List Session))
      → (sweep_buckets now bs).1 + count_buckets (sweep_buckets now bs).0 ≡ count_buckets bs
  unfolding sweep_buckets count_buckets
  count-sweep_buckets [] = refl
  count-sweep_buckets (ss ∷ bs) = omega (arith, count-sweep_chain ss, count-sweep_buckets bs)

  get_or-sweep_buckets :
      (bs : List (List Session)) (i : ℕ)
      → get_or (sweep_buckets now bs).0 i [] ≡ (sweep_chain now (get_or bs i [])).0
  unfolding sweep_buckets
  get_or-sweep_buckets [] i = unfold sweep_chain in refl
  get_or-sweep_buckets (ss ∷ bs) zero = refl
  get_or-sweep_buckets (ss ∷ bs) (suc i) = get_or-sweep_buckets bs i

  lookup-sweep_chain :
      (sid : CString) (id now' : ℕ) (ss : List Session)
      → now ≤ now'
      → lookup id now' (slots_of (find_in sid (sweep_chain now ss).0))
        ≡ lookup id now' (slots_of (find_in sid ss))
  unfolding sweep_chain find_in
  lookup-sweep_chain sid id now' [] h = refl
  lookup-sweep_chain sid id now' (s ∷ ss) h = elim (Bool-cases (is_same s.session_id sid)) [
    | inl e ↦ rw e (lookup-sweep_slots now id now' s.slots h)
    | inr d ↦ rw d (lookup-sweep_chain sid id now' ss h)
  ]

  -- Every slot of every session of the chain.
  abbrev pub AllLive : List Session → Type 0
  AllLive ss = All (λ s. All (IsLive now) s.slots) ss

  sweep_chain-AllLive : (ss : List Session) → AllLive (sweep_chain now ss).0
  unfolding sweep_chain
  sweep_chain-AllLive [] = tt
  sweep_chain-AllLive (s ∷ ss) = (sweep_slots-IsLive now s.slots, sweep_chain-AllLive ss)

  sweep_buckets-AllLive : (bs : List (List Session)) → All AllLive (sweep_buckets now bs).0
  unfolding sweep_buckets
  sweep_buckets-AllLive [] = tt
  sweep_buckets-AllLive (ss ∷ bs) = (sweep_chain-AllLive ss, sweep_buckets-AllLive bs)

  -- After a sweep no session holds a record that has expired by then, and the answer is by how much
  -- the number of occupied slots went down.
  pub sweep-count :
      (ws : WorkingStore)
      → All AllLive (sweep ws now).1.buckets
        × ((sweep ws now).0 + count (sweep ws now).1 ≡ count ws)
  unfolding sweep count
  sweep-count ws = (sweep_buckets-AllLive ws.buckets, count-sweep_buckets ws.buckets)

  -- A sweep changes nothing that a look at any session finds at that time or later.
  pub peek-sweep :
      (ws : WorkingStore) (sid : CString) (id now' : ℕ)
      → now ≤ now'
      → peek (sweep ws now).1 sid id now' ≡ peek ws sid id now'
  unfolding peek find_session sweep
  peek-sweep ws sid id now' h =
      rw (get_or-sweep_buckets ws.buckets (hash_str sid))
        (lookup-sweep_chain sid id now' (chain ws sid) h)
