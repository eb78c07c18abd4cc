-- ===== src/Bytes.antt =====
-- include/aegisdb/endian.h: little-endian scalars. A byte buffer is a list of numbers below 256.
-- A read past the end of the list gives 0; every caller hands over an array that is wide enough.
pub mod RoundTrip
use aegisdb.Prelude.{ℕ, zero, suc, ◌+◌, ◌*◌, ◌/◌, ◌%◌, ◌^◌, ◌<◌, bit_or, List, [], ◌∷◌, get_or}

abbrev pub IsByte : ℕ → Type 0
IsByte b = b < 256

-- The loop `for (i...) b[i] = (uint8_t)(v >> (8 * i))`, with the rounds left as fuel.
put_from : ℕ → ℕ → ℕ → List ℕ
put_from zero i v = []
put_from (suc rounds) i v = (v / 2 ^ (8 * i) % 256) ∷ put_from rounds (i + 1) v

unfoldable pub put_u16le : ℕ → List ℕ
put_u16le v = (v % 256) ∷ (v / 2 ^ 8 % 256) ∷ []

unfoldable pub put_u32le : ℕ → List ℕ
unfolding put_from
put_u32le v = put_from 4 0 v

unfoldable pub put_u64le : ℕ → List ℕ
unfolding put_from
put_u64le v = put_from 8 0 v

unfoldable pub get_u16le : List ℕ → ℕ
get_u16le b = bit_or (get_or b 0 0) (get_or b 1 0 * 2 ^ 8) % 2 ^ 16

unfoldable pub get_u32le : List ℕ → ℕ
get_u32le b =
    bit_or
      (bit_or (bit_or (get_or b 0 0) (get_or b 1 0 * 2 ^ 8 % 2 ^ 32))
        (get_or b 2 0 * 2 ^ 16 % 2 ^ 32))
      (get_or b 3 0 * 2 ^ 24 % 2 ^ 32)

-- The loop `for (i...) v |= (uint64_t)b[i] << (8 * i)`.
get_from : ℕ → ℕ → ℕ → List ℕ → ℕ
get_from zero i v b = v
get_from (suc rounds) i v b =
    get_from rounds (i + 1) (bit_or v (get_or b i 0 * 2 ^ (8 * i) % 2 ^ 64)) b

unfoldable pub get_u64le : List ℕ → ℕ
unfolding get_from
get_u64le b = get_from 8 0 0 b
