-- ===== src/Bytes/RoundTrip.antt =====
-- What the scalar codec of endian.h reads back.
use aegisdb.Prelude.{
  ℕ, ◌+◌, ◌*◌, ◌/◌, ◌%◌, ◌^◌, ◌<◌, ◌≡◌, ◌∙◌, bit_or, [], ◌∷◌, All, length, arith, bit_or_disjoint,
}
use native.Mathlib.Nat.{mod-eq_of_lt}
use aegisdb.Bytes.{IsByte, put_u16le, put_u32le, put_u64le, get_u16le, get_u32le, get_u64le}

pub put_u16le-IsByte : (v : ℕ) → All IsByte (put_u16le v) × (length (put_u16le v) ≡ 2)
unfolding put_u16le
put_u16le-IsByte v = omega arith

pub put_u32le-IsByte : (v : ℕ) → All IsByte (put_u32le v) × (length (put_u32le v) ≡ 4)
unfolding put_u32le
put_u32le-IsByte v = omega arith

pub put_u64le-IsByte : (v : ℕ) → All IsByte (put_u64le v) × (length (put_u64le v) ≡ 8)
unfolding put_u64le
put_u64le-IsByte v = omega arith

-- One round of a read: the next byte lands above the bits read so far.
or_byte :
    (k w acc b : ℕ)
    → acc < 2 ^ k
    → b * 2 ^ k < 2 ^ w
    → bit_or acc (b * 2 ^ k % 2 ^ w) ≡ acc + b * 2 ^ k
or_byte k w acc b fits small = rw (mod-eq_of_lt small) (bit_or_disjoint k acc b fits)

module _ (b0 b1 b2 b3 : ℕ) where
  get_u16le-sum : b0 < 256 → b1 < 256 → get_u16le (b0 ∷ b1 ∷ []) ≡ b0 + b1 * 2 ^ 8
  unfolding get_u16le
  get_u16le-sum h0 h1 = omega (arith, bit_or_disjoint 8 b0 b1 h0)

  get_u32le-sum :
      b0 < 256
      → b1 < 256
      → b2 < 256
      → b3 < 256
      → get_u32le (b0 ∷ b1 ∷ b2 ∷ b3 ∷ []) ≡ b0 + b1 * 2 ^ 8 + b2 * 2 ^ 16 + b3 * 2 ^ 24
  unfolding get_u32le
  get_u32le-sum h0 h1 h2 h3 = rw (
    or_byte 8 32 b0 b1 (omega arith) (omega arith),
    or_byte 16 32 (b0 + b1 * 2 ^ 8) b2 (omega arith) (omega arith),
    or_byte 24 32 (b0 + b1 * 2 ^ 8 + b2 * 2 ^ 16) b3 (omega arith) (omega arith),
  )

  module _ (b4 b5 b6 b7 : ℕ) where
    get_u64le-sum :
        All IsByte (b0 ∷ b1 ∷ b2 ∷ b3 ∷ b4 ∷ b5 ∷ b6 ∷ b7 ∷ [])
        → get_u64le (b0 ∷ b1 ∷ b2 ∷ b3 ∷ b4 ∷ b5 ∷ b6 ∷ b7 ∷ [])
          ≡ b0
            + b1 * 2 ^ 8
            + b2 * 2 ^ 16
            + b3 * 2 ^ 24
            + b4 * 2 ^ 32
            + b5 * 2 ^ 40
            + b6 * 2 ^ 48
            + b7 * 2 ^ 56
    unfolding get_u64le
    get_u64le-sum h =
        rw
          (
            or_byte 0 64 0 b0 (omega arith) (omega arith),
            or_byte 8 64 (0 + b0 * 2 ^ 0) b1 (omega arith) (omega arith),
            or_byte 16 64 (0 + b0 * 2 ^ 0 + b1 * 2 ^ 8) b2 (omega arith) (omega arith),
            or_byte 24 64 (0 + b0 * 2 ^ 0 + b1 * 2 ^ 8 + b2 * 2 ^ 16) b3 (omega arith)
                (omega arith),
            or_byte 32 64 (0 + b0 * 2 ^ 0 + b1 * 2 ^ 8 + b2 * 2 ^ 16 + b3 * 2 ^ 24) b4 (omega arith)
                (omega arith),
            or_byte 40 64 (0 + b0 * 2 ^ 0 + b1 * 2 ^ 8 + b2 * 2 ^ 16 + b3 * 2 ^ 24 + b4 * 2 ^ 32) b5
                (omega arith) (omega arith),
            or_byte 48 64
                (0
                  + b0 * 2 ^ 0
                  + b1 * 2 ^ 8
                  + b2 * 2 ^ 16
                  + b3 * 2 ^ 24
                  + b4 * 2 ^ 32
                  + b5 * 2 ^ 40)
                b6 (omega arith) (omega arith),
            or_byte 56 64
                (0
                  + b0 * 2 ^ 0
                  + b1 * 2 ^ 8
                  + b2 * 2 ^ 16
                  + b3 * 2 ^ 24
                  + b4 * 2 ^ 32
                  + b5 * 2 ^ 40
                  + b6 * 2 ^ 48)
                b7 (omega arith) (omega arith),
          )
          (omega arith)

pub get_u16le-put_u16le : (v : ℕ) → v < 2 ^ 16 → get_u16le (put_u16le v) ≡ v
unfolding put_u16le
get_u16le-put_u16le v h = omega (arith, get_u16le-sum (v % 256) (v / 2 ^ 8 % 256) 0 0)

pub get_u32le-put_u32le : (v : ℕ) → v < 2 ^ 32 → get_u32le (put_u32le v) ≡ v
unfolding put_u32le
get_u32le-put_u32le v h =
    get_u32le-sum (v / 2 ^ 0 % 256) (v / 2 ^ 8 % 256) (v / 2 ^ 16 % 256) (v / 2 ^ 24 % 256)
      (omega arith) (omega arith) (omega arith) (omega arith)
    ∙ omega arith

-- A 64-bit value that is written little-endian reads back as itself.
pub get_u64le-put_u64le : (v : ℕ) → v < 2 ^ 64 → get_u64le (put_u64le v) ≡ v
unfolding put_u64le
get_u64le-put_u64le v h =
    get_u64le-sum (v / 2 ^ 0 % 256) (v / 2 ^ 8 % 256) (v / 2 ^ 16 % 256) (v / 2 ^ 24 % 256)
      (v / 2 ^ 32 % 256) (v / 2 ^ 40 % 256) (v / 2 ^ 48 % 256) (v / 2 ^ 56 % 256) (omega arith)
    ∙ omega arith
