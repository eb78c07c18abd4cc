-- ===== src/Aead/XChaCha.antt =====
-- src/util/chacha20poly1305.c: the cipher that the log seals its frames with.
use aegisdb.Prelude.{
  ℕ, zero, suc, ◌-◌, ◌%◌, bit_or, bit_xor, Bool, Option, none, some, List, ◌++◌, ◌==◌,
  if◌then◌else◌, length, get_or, take, drop, replicate,
}
use aegisdb.Bytes.{put_u64le}
use aegisdb.Aead.{Aead, Sealed}
use aegisdb.Aead.ChaCha.{aegis_chacha20_block, aegis_hchacha20, chacha20_xor}
use aegisdb.Aead.Poly1305.{Poly1305Ctx, poly1305_init, poly1305_update}
use aegisdb.Aead.Finish.{poly1305_finish}

unfoldable pub aegis_poly1305 : List ℕ → List ℕ → List ℕ
aegis_poly1305 m key = poly1305_finish (poly1305_update m (poly1305_init key))

unfoldable pub poly_pad16 : ℕ → Poly1305Ctx → Poly1305Ctx
poly_pad16 len st = if len % 16 == 0 then st else poly1305_update (replicate (16 - len % 16) 0) st

pub record Setup : Type 0 where
  pub subkey : List ℕ
  pub cc_nonce : List ℕ
  pub polykey : List ℕ

unfoldable pub xchacha_setup : List ℕ → List ℕ → Setup
xchacha_setup key nonce =
    let subkey = aegis_hchacha20 key nonce in
    let cc_nonce = replicate 4 0 ++ take 8 (drop 16 nonce) in
    record {
      subkey = subkey;
      cc_nonce = cc_nonce;
      polykey = take 32 (aegis_chacha20_block subkey 0 cc_nonce);
    }

-- An update with a piece that may be missing.
abbrev pub update_if : List ℕ → Poly1305Ctx → Poly1305Ctx
update_if m st = if length m == 0 then st else poly1305_update m st

-- The same loop as that of aegis_put_u64le.
abbrev u64to8le : ℕ → List ℕ
u64to8le v = put_u64le v

unfoldable pub aead_mac : List ℕ → List ℕ → List ℕ → List ℕ
aead_mac polykey aad ct =
    let st0 = poly1305_init polykey in
    let st1 = poly_pad16 (length aad) (update_if aad st0) in
    let st2 = poly_pad16 (length ct) (update_if ct st1) in
    poly1305_finish (poly1305_update (u64to8le (length aad) ++ u64to8le (length ct)) st2)

-- The loop of ct_eq16, with the rounds left.
unfoldable pub diff_from : ℕ → ℕ → List ℕ → List ℕ → ℕ
diff_from zero diff a b = diff
diff_from (suc n) diff a b =
    diff_from n (bit_or diff (bit_xor (get_or a 0 0) (get_or b 0 0) % 256)) (drop 1 a) (drop 1 b)

unfoldable pub ct_eq16 : List ℕ → List ℕ → Bool
ct_eq16 a b = diff_from 16 0 a b == 0

unfoldable pub aead_seal : List ℕ → List ℕ → List ℕ → List ℕ → Sealed
aead_seal key nonce aad pt =
    let s = xchacha_setup key nonce in
    let ct = chacha20_xor s.subkey 1 s.cc_nonce pt in
    record { text = ct; tag = aead_mac s.polykey aad ct }

unfoldable pub aead_open : List ℕ → List ℕ → List ℕ → List ℕ → List ℕ → Option (List ℕ)
aead_open key nonce aad ct tag =
    let s = xchacha_setup key nonce in
    if ct_eq16 (aead_mac s.polykey aad ct) tag
    then some (chacha20_xor s.subkey 1 s.cc_nonce ct)
    else none

abbrev pub xchacha20_poly1305 : Aead
xchacha20_poly1305 = record { aead_seal = aead_seal; aead_open = aead_open }
