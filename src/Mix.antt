-- ===== src/Mix.antt =====
-- include/aegisdb/hash_mix.h: the 64-bit mixer of the open-addressing maps.
use aegisdb.Prelude.{ℕ, ◌*◌, ◌/◌, ◌%◌, ◌^◌, bit_xor}

-- `x ^= x >> 33`
abbrev fold : ℕ → ℕ
fold x = bit_xor x (x / 2 ^ 33)

unfoldable pub mix64 : ℕ → ℕ
mix64 x = fold (fold (fold x * 0xff51_afd7_ed55_8ccd % 2 ^ 64) * 0xc4ce_b9fe_1a85_ec53 % 2 ^ 64)
