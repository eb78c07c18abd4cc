-- ===== src/Record/Cursor/Reads.antt =====
-- The cursor reads back what the buffer's `put_` functions write, and leaves what follows.
use native.Mathlib.Nat.{mod-eq_of_lt}
use aegisdb.Prelude.{
  ℕ, ◌^◌, ◌<◌, ◌≡◌, ◌≢◌, refl, false, Option, none, some, List, [], ◌∷◌, ◌++◌, ltb, ◌==◌, length,
  length-append, take-append, drop-append, All, arith, append_assoc,
}
use aegisdb.Bytes.{put_u16le, put_u32le, put_u64le}
use aegisdb.Bytes.RoundTrip.{
  put_u16le-IsByte, put_u32le-IsByte, put_u64le-IsByte, get_u16le-put_u16le, get_u32le-put_u32le,
  get_u64le-put_u64le,
}
use aegisdb.Record.{CString, null_len}
use aegisdb.Record.Cursor.{
  Cur, cur_take, get_u8, get_u16, get_u32, get_u64, c_string, take_lenstr, get_lenstr,
}
use aegisdb.Record.Encode.{put_u8, put_lenstr}

-- A cursor at the head of `bytes`, with no error so far.
abbrev pub cur : List ℕ → Cur
cur bytes = record { rest = bytes; err = false }

pub not_short : (xs ys : List ℕ) → ltb (length (xs ++ ys)) (length xs) ≡ false
not_short xs ys = ground (arith, length-append xs ys)

cur_take-append :
    (n : ℕ) (xs ys : List ℕ) → length xs ≡ n → cur_take n (cur (xs ++ ys)) ≡ (xs, cur ys)
unfolding cur_take
cur_take-append n xs ys e = rw (← e, not_short xs ys, take-append xs ys, drop-append xs ys)

module _ (v : ℕ) (ys : List ℕ) where
  pub get_u8-put_u8 : v < 256 → get_u8 (cur (put_u8 v ++ ys)) ≡ (v, cur ys)
  unfolding get_u8
  get_u8-put_u8 h = rw (cur_take-append 1 (put_u8 v) ys refl, mod-eq_of_lt h)

  pub get_u16-put_u16le : v < 2 ^ 16 → get_u16 (cur (put_u16le v ++ ys)) ≡ (v, cur ys)
  unfolding get_u16
  get_u16-put_u16le h =
      rw (cur_take-append 2 (put_u16le v) ys (put_u16le-IsByte v).1, get_u16le-put_u16le v h)

  pub get_u32-put_u32le : v < 2 ^ 32 → get_u32 (cur (put_u32le v ++ ys)) ≡ (v, cur ys)
  unfolding get_u32
  get_u32-put_u32le h =
      rw (cur_take-append 4 (put_u32le v) ys (put_u32le-IsByte v).1, get_u32le-put_u32le v h)

  pub get_u64-put_u64le : v < 2 ^ 64 → get_u64 (cur (put_u64le v ++ ys)) ≡ (v, cur ys)
  unfolding get_u64
  get_u64-put_u64le h =
      rw (cur_take-append 8 (put_u64le v) ys (put_u64le-IsByte v).1, get_u64le-put_u64le v h)

-- The bytes of a C string: none is NUL, and the length is not that of the NULL marker.
abbrev pub IsString : CString → Type 0
IsString s = All (λ b. b ≢ 0) s × (length s < null_len)

abbrev pub IsStringOrNull : Option CString → Type 0
IsStringOrNull none = Unit
IsStringOrNull (some s) = IsString s

c_string-eq_self : (s : CString) → All (λ b. b ≢ 0) s → c_string s ≡ s
unfolding c_string
c_string-eq_self [] h = refl
c_string-eq_self (b ∷ s) (p, h) = ground (arith, c_string-eq_self s h)

take_lenstr-append :
    (s : CString) (ys : List ℕ)
    → IsString s
    → take_lenstr (length s) (cur (s ++ ys)) ≡ (some s, cur ys)
unfolding c_string
take_lenstr-append s ys (clean, short) =
    let marked : (length s == null_len) ≡ false = ground arith in
    rw (marked, not_short s ys, take-append s ys, drop-append s ys, c_string-eq_self s clean)

pub get_lenstr-put_lenstr :
    (s : Option CString) (ys : List ℕ)
    → IsStringOrNull s
    → get_lenstr (cur (put_lenstr s ++ ys)) ≡ (s, cur ys)
unfolding get_lenstr put_lenstr
get_lenstr-put_lenstr none ys h = rw (get_u32-put_u32le null_len ys (omega arith))
get_lenstr-put_lenstr (some s) ys h =
    let small : length s < 2 ^ 32 = omega arith in
    rw (mod-eq_of_lt small, append_assoc, get_u32-put_u32le (length s) (s ++ ys) small)
      (take_lenstr-append s ys h)
