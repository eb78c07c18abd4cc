-- ===== src/Crc32/Chain.antt =====
-- The checksum of a buffer in two pieces, and the width of a checksum.
use aegisdb.Prelude.{
  ℕ, zero, suc, ◌/◌, ◌%◌, ◌^◌, ◌<◌, ◌≡◌, refl, bit_xor, bit_xor-lt, List, [], ◌∷◌, ◌++◌, ◌==◌,
  Bool-cases, inl, inr, arith,
}
use aegisdb.Crc32.{table_entry, complement, crc_byte, crc_loop, crc32_update, crc32_compute}

table_entry-lt : (n c : ℕ) → c < 2 ^ 32 → table_entry n c < 2 ^ 32
unfolding table_entry
table_entry-lt zero c h = h
table_entry-lt (suc n) c h = table_entry-lt n _ (elim (Bool-cases (c % 2 == 1)) [
  | inl t ↦ rw t (bit_xor-lt 32 0xedb8_8320 (c / 2) (omega arith) (omega arith))
  | inr f ↦ rw f (omega arith)
])

crc_byte-lt : (c b : ℕ) → c < 2 ^ 32 → crc_byte c b < 2 ^ 32
unfolding crc_byte
crc_byte-lt c b h =
    bit_xor-lt 32 _ _ (table_entry-lt 8 (bit_xor c b % 256) (omega arith)) (omega arith)

crc_loop-lt : (c : ℕ) (bs : List ℕ) → c < 2 ^ 32 → crc_loop c bs < 2 ^ 32
unfolding crc_loop
crc_loop-lt c [] h = h
crc_loop-lt c (b ∷ bs) h = crc_loop-lt (crc_byte c b) bs (crc_byte-lt c b h)

pub crc32_compute-lt : (bs : List ℕ) → crc32_compute bs < 2 ^ 32
unfolding crc32_compute crc32_update
crc32_compute-lt bs = omega arith

crc_loop-append : (c : ℕ) (xs ys : List ℕ) → crc_loop c (xs ++ ys) ≡ crc_loop (crc_loop c xs) ys
unfolding crc_loop
crc_loop-append c [] ys = refl
crc_loop-append c (x ∷ xs) ys = crc_loop-append (crc_byte c x) xs ys

-- Chaining is exact: the checksum of two pieces, one after the other, is that of the whole.
pub crc32_update-append :
    (crc : ℕ) (xs ys : List ℕ)
    → crc < 2 ^ 32
    → crc32_update (crc32_update crc xs) ys ≡ crc32_update crc (xs ++ ys)
unfolding crc32_update
crc32_update-append crc xs ys h =
    let c = crc_loop (complement crc) xs in
    let small = crc_loop-lt (complement crc) xs (omega arith) in
    let twice : complement (complement c) ≡ c = omega arith in
    rw (crc_loop-append (complement crc) xs ys, twice)
