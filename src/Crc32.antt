-- ===== src/Crc32.antt =====
-- src/util/crc32.c: the reflected CRC-32 with polynomial 0xEDB88320. The table is a function of its
-- index; a uint32_t is a number below 2^32, so that `~c` is 2^32 - 1 - c.
pub mod Chain
use aegisdb.Prelude.{ℕ, zero, suc, ◌-◌, ◌/◌, ◌%◌, ◌^◌, bit_xor, List, [], ◌∷◌, ◌==◌, if◌then◌else◌}

-- The loop of build_table over the bits, with the rounds left.
unfoldable pub table_entry : ℕ → ℕ → ℕ
table_entry zero c = c
table_entry (suc rounds) c =
    table_entry rounds (if c % 2 == 1 then bit_xor 0xedb8_8320 (c / 2) else c / 2)

abbrev pub complement : ℕ → ℕ
complement c = 2 ^ 32 - 1 - c

-- The round of crc32_update for one byte, between the two complements.
unfoldable pub crc_byte : ℕ → ℕ → ℕ
crc_byte c b = bit_xor (table_entry 8 (bit_xor c b % 256)) (c / 2 ^ 8)

unfoldable pub crc_loop : ℕ → List ℕ → ℕ
crc_loop c [] = c
crc_loop c (b ∷ bs) = crc_loop (crc_byte c b) bs

unfoldable pub crc32_update : ℕ → List ℕ → ℕ
crc32_update crc bytes = complement (crc_loop (complement crc) bytes)

unfoldable pub crc32_compute : List ℕ → ℕ
crc32_compute bytes = crc32_update 0 bytes
