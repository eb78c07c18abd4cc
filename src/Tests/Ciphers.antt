-- ===== src/Tests/Ciphers.antt =====
-- A short text under the cipher of the repository.
use aegisdb.Prelude.{ℕ, ◌≡◌, ◌↔◌, refl, some, List, [], ◌∷◌, ◌++◌, All, replicate, arith}
use aegisdb.Bytes.{IsByte, put_u64le}
use aegisdb.Crc32.{table_entry, crc_byte, crc_loop, crc32_update, crc32_compute}
use aegisdb.Aead.ChaCha.{u8to32le, u32to8le, quarter}
use aegisdb.Aead.Poly1305.{
  poly1305_init, add_block, mul_limbs, carry_limbs, poly1305_block, poly1305_blocks, update_rest,
  poly1305_update,
}
use aegisdb.Aead.Finish.{last_block, carry_all, minus_p, select_limbs, serialize, poly1305_finish}
use aegisdb.Aead.XChaCha.{aead_seal, aead_open, aead_mac, aegis_poly1305}
use aegisdb.Aead.Laws.{aead_open-aead_seal}
use aegisdb.Aead.Mac.{aead_mac-aegis_poly1305}

abbrev key : List ℕ
key = replicate 32 1

abbrev nonce : List ℕ
nonce = replicate 24 7

tag-IsByte : All IsByte (replicate 16 0)
tag-IsByte = omega arith

aead_open-aead_seal_example :
    (aead_open key nonce [] (5 ∷ 6 ∷ []) (replicate 16 0) ≡ some (1 ∷ 2 ∷ []))
    ↔ (aead_seal key nonce [] (1 ∷ 2 ∷ []) ≡ record { text = 5 ∷ 6 ∷ []; tag = replicate 16 0 })
aead_open-aead_seal_example =
    aead_open-aead_seal key nonce [] (5 ∷ 6 ∷ []) (replicate 16 0) (1 ∷ 2 ∷ []) (omega arith)
      tag-IsByte refl (omega arith)

aead_mac-aegis_poly1305_example :
    aead_mac key (9 ∷ []) (5 ∷ 6 ∷ [])
    ≡ aegis_poly1305
        ((9 ∷ [])
          ++ replicate 15 0
          ++ (5 ∷ 6 ∷ [])
          ++ replicate 14 0
          ++ (put_u64le 1 ++ put_u64le 2))
        key
aead_mac-aegis_poly1305_example = aead_mac-aegis_poly1305 key (9 ∷ []) (5 ∷ 6 ∷ [])

quarter_run :
    quarter 0 1 2 3 (0x1111_1111 ∷ 0x0102_0304 ∷ 0x9b8d_6f43 ∷ 0x0123_4567 ∷ [])
    ≡ 0xea2a_92f4 ∷ 0xcb1c_f8ce ∷ 0x4581_472e ∷ 0x5881_c4bb ∷ []
unfolding quarter
quarter_run = refl

checksum_run : crc32_compute (49 ∷ 50 ∷ 51 ∷ 52 ∷ 53 ∷ 54 ∷ 55 ∷ 56 ∷ 57 ∷ []) ≡ 0xcbf4_3926
unfolding crc32_compute crc32_update crc_loop crc_byte table_entry
checksum_run = refl

abbrev rfc_key : List ℕ
rfc_key =
    133 ∷ 214 ∷ 190 ∷ 120 ∷ 87 ∷ 85 ∷ 109 ∷ 51 ∷ 127 ∷ 68 ∷ 82 ∷ 254 ∷ 66 ∷ 213 ∷ 6 ∷ 168 ∷ 1 ∷ 3
    ∷ 128 ∷ 138 ∷ 251 ∷ 13 ∷ 178 ∷ 253 ∷ 74 ∷ 191 ∷ 246 ∷ 175 ∷ 65 ∷ 73 ∷ 245 ∷ 27 ∷ []

abbrev rfc_text : List ℕ
rfc_text =
    67 ∷ 114 ∷ 121 ∷ 112 ∷ 116 ∷ 111 ∷ 103 ∷ 114 ∷ 97 ∷ 112 ∷ 104 ∷ 105 ∷ 99 ∷ 32 ∷ 70 ∷ 111 ∷ 114
    ∷ 117 ∷ 109 ∷ 32 ∷ 82 ∷ 101 ∷ 115 ∷ 101 ∷ 97 ∷ 114 ∷ 99 ∷ 104 ∷ 32 ∷ 71 ∷ 114 ∷ 111 ∷ 117 ∷ 112
    ∷ []

poly1305_run :
    aegis_poly1305 rfc_text rfc_key
    ≡ 168 ∷ 6 ∷ 29 ∷ 193 ∷ 48 ∷ 81 ∷ 54 ∷ 198 ∷ 194 ∷ 43 ∷ 139 ∷ 175 ∷ 12 ∷ 1 ∷ 39 ∷ 169 ∷ []
unfolding aegis_poly1305 poly1305_init poly1305_update update_rest poly1305_blocks poly1305_block
    add_block mul_limbs carry_limbs poly1305_finish last_block carry_all minus_p select_limbs
    serialize u8to32le u32to8le
poly1305_run = refl
