-- ===== src/Tests/Working.antt =====
-- A working store with rings of two slots, and one record in it.
use aegisdb.Prelude.{ℕ, ◌<◌, ◌≡◌, ◌↔◌, refl, zero, suc, false, some, [], ◌∷◌, replicate, All, arith}
use aegisdb.Record.{CString, MemoryRecord, record_init}
use aegisdb.Record.Clone.{record_clone, clone_fact, clone_routes, clone_embedding}
use aegisdb.CStrings.{fnv1a, is_same}
use aegisdb.WorkingBuffer.{
  WorkingStore, bucket_count, create, find_session, get_session, new_session, stamped, add, take,
  find_in, hash_str, u64_max,
}
use aegisdb.WorkingBuffer.Sessions.{IsSession, IsValid}
use aegisdb.WorkingBuffer.Calls.{peek, take-owned}
use aegisdb.WorkingBuffer.Add.{add-IsValid_sessions, peek-add}

abbrev small : WorkingStore
small = create 2 1000

empty_chains : (n : ℕ) → All (All IsSession) (replicate n [])
empty_chains zero = tt
empty_chains (suc n) = (tt, empty_chains n)

small-IsValid : IsValid small
unfolding create
small-IsValid = record { size = refl; room = omega arith; sessions = empty_chains bucket_count }

abbrev sid : CString
sid = 115 ∷ []

abbrev blank : MemoryRecord
blank = record_init

-- The session that a call for `sid` makes in the empty store.
made : (get_session small sid).0 ≡ new_session small sid
unfolding get_session find_session find_in create hash_str fnv1a
made = refl

first_id : (get_session small sid).0.next_id < u64_max
first_id = rw made (unfold new_session in omega arith)

add-IsValid_sessions_example : IsValid (add small sid blank 10 0).1
add-IsValid_sessions_example = add-IsValid_sessions small sid blank 10 0 small-IsValid first_id

blank_copy : record_clone blank ≡ some blank
unfolding record_clone clone_fact clone_routes clone_embedding record_init
blank_copy = refl

abbrev first : ℕ
first = (get_session small sid).0.next_id

peek-add_example :
    ((add small sid blank 10 50).0 ≡ some first)
    × (peek (add small sid blank 10 50).1 sid first 59 ≡ some (stamped blank first 10 50))
peek-add_example =
    peek-add small sid blank 10 50 small-IsValid blank 59 blank_copy (omega arith) (omega arith)

abbrev busy : WorkingStore
busy = (add small sid blank 10 50).1

busy-IsValid : IsValid busy
busy-IsValid = add-IsValid_sessions small sid blank 10 50 small-IsValid first_id

take-owned_example :
    ((take busy sid 1 20 (some (97 ∷ []))).0 ≡ some blank)
    ↔ ((peek busy sid 1 20 ≡ some blank) × (blank.agent_id ≡ some (97 ∷ [])))
take-owned_example = take-owned busy sid 1 20 (97 ∷ []) blank

other : is_same sid (116 ∷ []) ≡ false
unfolding is_same
other = refl
