-- ===== src/Aead/Finish.antt =====
-- src/util/chacha20poly1305.c: poly1305_finish, in uint32_t arithmetic.
use aegisdb.Prelude.{
  ℕ, ◌+◌, ◌*◌, ◌-◌, ◌/◌, ◌%◌, ◌^◌, bit_and, bit_or, true, List, [], ◌∷◌, ◌++◌, ◌==◌, if◌then◌else◌,
  length, replicate,
}
use aegisdb.Aead.ChaCha.{u32to8le}
use aegisdb.Aead.Poly1305.{Limbs, Poly1305Ctx, low26, poly1305_block}

-- The last block, with a 1 behind its bytes.
unfoldable pub last_block : Poly1305Ctx → Poly1305Ctx
last_block st =
    if length st.buffer == 0
    then st
    else poly1305_block (st.buffer ++ (1 ∷ []) ++ replicate (15 - length st.buffer) 0)
        (record st { final = true })

-- The carries in front of the comparison with p.
unfoldable pub carry_all : Limbs → Limbs
carry_all h =
    let h2 = (h.l2 + h.l1 / 2 ^ 26) % 2 ^ 32 in
    let h3 = (h.l3 + h2 / 2 ^ 26) % 2 ^ 32 in
    let h4 = (h.l4 + h3 / 2 ^ 26) % 2 ^ 32 in
    let h0 = (h.l0 + h4 / 2 ^ 26 * 5) % 2 ^ 32 in
    record {
      l0 = low26 h0;
      l1 = (low26 h.l1 + h0 / 2 ^ 26) % 2 ^ 32;
      l2 = low26 h2;
      l3 = low26 h3;
      l4 = low26 h4;
    }

-- h + -p; the last limb wraps where h < p.
unfoldable pub minus_p : Limbs → Limbs
minus_p h =
    let g0 = (h.l0 + 5) % 2 ^ 32 in
    let g1 = (h.l1 + g0 / 2 ^ 26) % 2 ^ 32 in
    let g2 = (h.l2 + g1 / 2 ^ 26) % 2 ^ 32 in
    let g3 = (h.l3 + g2 / 2 ^ 26) % 2 ^ 32 in
    record {
      l0 = low26 g0;
      l1 = low26 g1;
      l2 = low26 g2;
      l3 = low26 g3;
      l4 = (h.l4 + g3 / 2 ^ 26 + (2 ^ 32 - 2 ^ 26)) % 2 ^ 32;
    }

-- h if h < p, else h + -p, by masks.
unfoldable pub select_limbs : Limbs → Limbs → Limbs
select_limbs h g =
    let mask = (g.l4 / 2 ^ 31 + (2 ^ 32 - 1)) % 2 ^ 32 in
    let other = 2 ^ 32 - 1 - mask in
    record {
      l0 = bit_or (bit_and h.l0 other) (bit_and g.l0 mask);
      l1 = bit_or (bit_and h.l1 other) (bit_and g.l1 mask);
      l2 = bit_or (bit_and h.l2 other) (bit_and g.l2 mask);
      l3 = bit_or (bit_and h.l3 other) (bit_and g.l3 mask);
      l4 = bit_or (bit_and h.l4 other) (bit_and g.l4 mask);
    }

-- The 128 low bits, to which the pad is added.
unfoldable pub serialize : Limbs → Poly1305Ctx → List ℕ
serialize h st =
    let w0 = bit_or h.l0 (h.l1 * 2 ^ 26 % 2 ^ 32) in
    let w1 = bit_or (h.l1 / 2 ^ 6) (h.l2 * 2 ^ 20 % 2 ^ 32) in
    let w2 = bit_or (h.l2 / 2 ^ 12) (h.l3 * 2 ^ 14 % 2 ^ 32) in
    let w3 = bit_or (h.l3 / 2 ^ 18) (h.l4 * 2 ^ 8 % 2 ^ 32) in
    let f0 = (w0 + st.pad0) % 2 ^ 64 in
    let f1 = (w1 + st.pad1 + f0 / 2 ^ 32) % 2 ^ 64 in
    let f2 = (w2 + st.pad2 + f1 / 2 ^ 32) % 2 ^ 64 in
    let f3 = (w3 + st.pad3 + f2 / 2 ^ 32) % 2 ^ 64 in
    u32to8le (f0 % 2 ^ 32)
    ++ u32to8le (f1 % 2 ^ 32)
    ++ u32to8le (f2 % 2 ^ 32)
    ++ u32to8le (f3 % 2 ^ 32)

unfoldable pub poly1305_finish : Poly1305Ctx → List ℕ
poly1305_finish st =
    let st' = last_block st in let h = carry_all st'.h in serialize (select_limbs h (minus_p h)) st'
