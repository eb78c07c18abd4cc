-- ===== src/Aead/ChaCha.antt =====
-- src/util/chacha20poly1305.c: the ChaCha20 block function and its keystream. A uint32_t is a number
-- below 2^32, and the sixteen words of a state are a list.
pub mod Stream
use aegisdb.Prelude.{
  ℕ, zero, suc, ◌+◌, ◌*◌, ◌-◌, ◌/◌, ◌%◌, ◌^◌, bit_or, bit_xor, List, [], ◌∷◌, ◌++◌, length, get_or,
  set, take, drop,
}

unfoldable pub u8to32le : List ℕ → ℕ
u8to32le p =
    bit_or
      (bit_or (bit_or (get_or p 0 0) (get_or p 1 0 * 2 ^ 8 % 2 ^ 32))
        (get_or p 2 0 * 2 ^ 16 % 2 ^ 32))
      (get_or p 3 0 * 2 ^ 24 % 2 ^ 32)

unfoldable pub u32to8le : ℕ → List ℕ
u32to8le v = (v % 256) ∷ (v / 2 ^ 8 % 256) ∷ (v / 2 ^ 16 % 256) ∷ (v / 2 ^ 24 % 256) ∷ []

abbrev pub rotl32 : ℕ → ℕ → ℕ
rotl32 x n = bit_or (x * 2 ^ n % 2 ^ 32) (x / 2 ^ (32 - n))

-- QR on the words at four places.
unfoldable pub quarter : ℕ → ℕ → ℕ → ℕ → List ℕ → List ℕ
quarter i j k l x =
    let a = (get_or x i 0 + get_or x j 0) % 2 ^ 32 in
    let d = rotl32 (bit_xor (get_or x l 0) a) 16 in
    let c = (get_or x k 0 + d) % 2 ^ 32 in
    let b = rotl32 (bit_xor (get_or x j 0) c) 12 in
    let a' = (a + b) % 2 ^ 32 in
    let d' = rotl32 (bit_xor d a') 8 in
    let c' = (c + d') % 2 ^ 32 in
    let b' = rotl32 (bit_xor b c') 7 in set (set (set (set x i a') j b') k c') l d'

-- One round of the loop: the columns, then the diagonals.
unfoldable pub double_round : List ℕ → List ℕ
double_round x =
    let x1 = quarter 0 4 8 12 x in
    let x2 = quarter 1 5 9 13 x1 in
    let x3 = quarter 2 6 10 14 x2 in
    let x4 = quarter 3 7 11 15 x3 in
    let x5 = quarter 0 5 10 15 x4 in
    let x6 = quarter 1 6 11 12 x5 in let x7 = quarter 2 7 8 13 x6 in quarter 3 4 9 14 x7

-- The loop, with the rounds left.
unfoldable pub rounds_from : ℕ → List ℕ → List ℕ
rounds_from zero x = x
rounds_from (suc n) x = rounds_from n (double_round x)

unfoldable pub chacha20_rounds : List ℕ → List ℕ
chacha20_rounds x = rounds_from 10 x

-- A loop over words that are read four bytes apart.
unfoldable pub words_from : ℕ → List ℕ → List ℕ
words_from zero p = []
words_from (suc n) p = u8to32le p ∷ words_from n (drop 4 p)

abbrev constants : List ℕ
constants = 0x6170_7865 ∷ 0x3320_646e ∷ 0x7962_2d32 ∷ 0x6b20_6574 ∷ []

unfoldable pub chacha20_state : List ℕ → ℕ → List ℕ → List ℕ
chacha20_state key counter nonce = constants ++ words_from 8 key ++ (counter ∷ words_from 3 nonce)

-- The loop that writes the words of the block.
unfoldable pub block_bytes : List ℕ → List ℕ → List ℕ
block_bytes [] s = []
block_bytes (w ∷ ws) s = u32to8le ((w + get_or s 0 0) % 2 ^ 32) ++ block_bytes ws (drop 1 s)

unfoldable pub aegis_chacha20_block : List ℕ → ℕ → List ℕ → List ℕ
aegis_chacha20_block key counter nonce =
    let s = chacha20_state key counter nonce in block_bytes (chacha20_rounds s) s

-- The inner loop of chacha20_xor.
unfoldable pub xor_block : List ℕ → List ℕ → List ℕ
xor_block [] block = []
xor_block (x ∷ xs) block = bit_xor x (get_or block 0 0) ∷ xor_block xs (drop 1 block)

-- The outer loop, on fuel.
unfoldable pub xor_from : ℕ → List ℕ → ℕ → List ℕ → List ℕ → List ℕ
xor_from n key counter nonce [] = []
xor_from zero key counter nonce (x ∷ xs) = []
xor_from (suc n) key counter nonce (x ∷ xs) =
    xor_block (take 64 (x ∷ xs)) (aegis_chacha20_block key counter nonce)
    ++ xor_from n key ((counter + 1) % 2 ^ 32) nonce (drop 64 (x ∷ xs))

unfoldable pub chacha20_xor : List ℕ → ℕ → List ℕ → List ℕ → List ℕ
chacha20_xor key counter nonce buf = xor_from (length buf) key counter nonce buf

-- The loop that writes words without adding the state.
unfoldable pub word_bytes : List ℕ → List ℕ
word_bytes [] = []
word_bytes (w ∷ ws) = u32to8le w ++ word_bytes ws

unfoldable pub aegis_hchacha20 : List ℕ → List ℕ → List ℕ
aegis_hchacha20 key nonce16 =
    let x = chacha20_rounds (constants ++ words_from 8 key ++ words_from 4 nonce16) in
    word_bytes (take 4 x) ++ word_bytes (take 4 (drop 12 x))
