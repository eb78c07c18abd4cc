-- ===== src/Record/Cursor.antt =====
-- The decode cursor of src/memory/record.c. A read past the end sets `err` for good and leaves the
-- zeros of its buffer.
pub mod Reads
use aegisdb.Prelude.{
  ℕ, Bool, true, Option, none, some, List, [], ◌∷◌, ◌||◌, ltb, ◌==◌, if◌then◌else◌, length, get_or,
  take, drop, replicate,
}
use aegisdb.Bytes.{get_u16le, get_u32le, get_u64le}
use aegisdb.Record.{CString, null_len}

-- `rest` is p[off..len).
pub record Cur : Type 0 where
  pub rest : List ℕ
  pub err : Bool

unfoldable pub cur_take : ℕ → Cur → List ℕ × Cur
cur_take n c =
    if c.err || ltb (length c.rest) n
    then (replicate n 0, record c { err = true })
    else (take n c.rest, record c { rest = drop n c.rest })

unfoldable pub get_u8 : Cur → ℕ × Cur
unfolding cur_take
get_u8 c = let (t, c') = cur_take 1 c in (get_or t 0 0, c')

unfoldable pub get_u16 : Cur → ℕ × Cur
unfolding cur_take
get_u16 c = let (t, c') = cur_take 2 c in (get_u16le t, c')

unfoldable pub get_u32 : Cur → ℕ × Cur
unfolding cur_take
get_u32 c = let (t, c') = cur_take 4 c in (get_u32le t, c')

unfoldable pub get_u64 : Cur → ℕ × Cur
unfolding cur_take
get_u64 c = let (t, c') = cur_take 8 c in (get_u64le t, c')

-- What later code sees of a buffer as a C string: the bytes before the first NUL.
unfoldable pub c_string : List ℕ → CString
c_string [] = []
c_string (b ∷ bs) = if b == 0 then [] else b ∷ c_string bs

abbrev take_lenstr : ℕ → Cur → Option CString × Cur
take_lenstr n c =
    if n == null_len
    then (none, c)
    else if c.err || ltb (length c.rest) n
    then (none, record c { err = true })
    else (some (c_string (take n c.rest)), record c { rest = drop n c.rest })

unfoldable pub get_lenstr : Cur → Option CString × Cur
get_lenstr c = let (n, c') = get_u32 c in take_lenstr n c'
