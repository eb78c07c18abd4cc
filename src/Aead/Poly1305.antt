-- ===== src/Aead/Poly1305.antt =====
-- src/util/chacha20poly1305.c: the Poly1305 code, whose numbers are five limbs of 26 bits. The bytes
-- buffer[0..leftover) are one list.
pub mod Update
use aegisdb.Prelude.{
  ℕ, zero, suc, ◌+◌, ◌*◌, ◌-◌, ◌/◌, ◌%◌, ◌^◌, bit_and, bit_or, Bool, true, false, List, [], ◌∷◌,
  ◌++◌, ◌==◌, ltb, leb, min, if◌then◌else◌, length, take, drop, replicate,
}
use aegisdb.Aead.ChaCha.{u8to32le, u32to8le}

pub record Limbs : Type 0 where
  pub l0 : ℕ
  pub l1 : ℕ
  pub l2 : ℕ
  pub l3 : ℕ
  pub l4 : ℕ

pub record Poly1305Ctx : Type 0 where
  pub r : Limbs
  pub h : Limbs
  pub pad0 : ℕ
  pub pad1 : ℕ
  pub pad2 : ℕ
  pub pad3 : ℕ
  pub buffer : List ℕ
  pub final : Bool

unfoldable pub poly1305_init : List ℕ → Poly1305Ctx
poly1305_init key = record {
  r = record {
    l0 = bit_and (u8to32le key) 0x3ff_ffff;
    l1 = bit_and (u8to32le (drop 3 key) / 2 ^ 2) 0x3ff_ff03;
    l2 = bit_and (u8to32le (drop 6 key) / 2 ^ 4) 0x3ff_c0ff;
    l3 = bit_and (u8to32le (drop 9 key) / 2 ^ 6) 0x3f0_3fff;
    l4 = bit_and (u8to32le (drop 12 key) / 2 ^ 8) 0xf_ffff;
  };
  h = record { l0 = 0; l1 = 0; l2 = 0; l3 = 0; l4 = 0 };
  pad0 = u8to32le (drop 16 key);
  pad1 = u8to32le (drop 20 key);
  pad2 = u8to32le (drop 24 key);
  pad3 = u8to32le (drop 28 key);
  buffer = [];
  final = false;
}

abbrev pub low26 : ℕ → ℕ
low26 x = bit_and x 0x3ff_ffff

-- h += m
unfoldable pub add_block : ℕ → Limbs → List ℕ → Limbs
add_block hibit h m = record {
  l0 = (h.l0 + low26 (u8to32le m)) % 2 ^ 32;
  l1 = (h.l1 + low26 (u8to32le (drop 3 m) / 2 ^ 2)) % 2 ^ 32;
  l2 = (h.l2 + low26 (u8to32le (drop 6 m) / 2 ^ 4)) % 2 ^ 32;
  l3 = (h.l3 + low26 (u8to32le (drop 9 m) / 2 ^ 6)) % 2 ^ 32;
  l4 = (h.l4 + bit_or (u8to32le (drop 12 m) / 2 ^ 8) hibit) % 2 ^ 32;
}

-- h *= r, in 64 bits and without carries.
unfoldable pub mul_limbs : Limbs → Limbs → Limbs
mul_limbs h r =
    let s1 = r.l1 * 5 % 2 ^ 32 in
    let s2 = r.l2 * 5 % 2 ^ 32 in
    let s3 = r.l3 * 5 % 2 ^ 32 in
    let s4 = r.l4 * 5 % 2 ^ 32 in
    record {
      l0 = (h.l0 * r.l0 + h.l1 * s4 + h.l2 * s3 + h.l3 * s2 + h.l4 * s1) % 2 ^ 64;
      l1 = (h.l0 * r.l1 + h.l1 * r.l0 + h.l2 * s4 + h.l3 * s3 + h.l4 * s2) % 2 ^ 64;
      l2 = (h.l0 * r.l2 + h.l1 * r.l1 + h.l2 * r.l0 + h.l3 * s4 + h.l4 * s3) % 2 ^ 64;
      l3 = (h.l0 * r.l3 + h.l1 * r.l2 + h.l2 * r.l1 + h.l3 * r.l0 + h.l4 * s4) % 2 ^ 64;
      l4 = (h.l0 * r.l4 + h.l1 * r.l3 + h.l2 * r.l2 + h.l3 * r.l1 + h.l4 * r.l0) % 2 ^ 64;
    }

-- (partial) h %= p
unfoldable pub carry_limbs : Limbs → Limbs
carry_limbs d =
    let d1 = (d.l1 + d.l0 / 2 ^ 26 % 2 ^ 32) % 2 ^ 64 in
    let d2 = (d.l2 + d1 / 2 ^ 26 % 2 ^ 32) % 2 ^ 64 in
    let d3 = (d.l3 + d2 / 2 ^ 26 % 2 ^ 32) % 2 ^ 64 in
    let d4 = (d.l4 + d3 / 2 ^ 26 % 2 ^ 32) % 2 ^ 64 in
    let h0 = (low26 (d.l0 % 2 ^ 32) + d4 / 2 ^ 26 % 2 ^ 32 * 5) % 2 ^ 32 in
    record {
      l0 = low26 h0;
      l1 = (low26 (d1 % 2 ^ 32) + h0 / 2 ^ 26) % 2 ^ 32;
      l2 = low26 (d2 % 2 ^ 32);
      l3 = low26 (d3 % 2 ^ 32);
      l4 = low26 (d4 % 2 ^ 32);
    }

-- A round of the loop of poly1305_blocks.
unfoldable pub poly1305_block : List ℕ → Poly1305Ctx → Poly1305Ctx
poly1305_block m st =
    let hibit = if st.final then 0 else 2 ^ 24 in
    record st { h = carry_limbs (mul_limbs (add_block hibit st.h m) st.r) }

-- The loop, with the blocks left.
unfoldable pub poly1305_blocks : ℕ → List ℕ → Poly1305Ctx → Poly1305Ctx
poly1305_blocks zero m st = st
poly1305_blocks (suc n) m st = poly1305_blocks n (drop 16 m) (poly1305_block (take 16 m) st)

-- The end of poly1305_update: full blocks, and what is left of the bytes.
unfoldable pub update_rest : List ℕ → Poly1305Ctx → Poly1305Ctx
update_rest m st =
    let st' = poly1305_blocks (length m / 16) m st in
    record st' { buffer = st'.buffer ++ drop (length m / 16 * 16) m }

unfoldable pub poly1305_update : List ℕ → Poly1305Ctx → Poly1305Ctx
poly1305_update m st =
    if length st.buffer == 0
    then update_rest m st
    else (let want = min (16 - length st.buffer) (length m) in
        let buffer = st.buffer ++ take want m in
        if ltb (length buffer) 16
        then record st { buffer = buffer }
        else update_rest (drop want m) (record (poly1305_block buffer st) { buffer = [] }))
