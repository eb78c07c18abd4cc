-- ===== src/Aead/ChaCha/Stream.antt =====
-- The keystream of src/util/chacha20poly1305.c.
use aegisdb.Prelude.{
  ℕ, zero, suc, ◌+◌, ◌%◌, ◌^◌, ◌≤◌, ◌<◌, ◌≡◌, refl, ap, ◌∙◌, ◌⊎◌, inl, inr, Bool-cases, bit_xor-lt,
  bit_xor_cancel, List, [], ◌∷◌, ◌++◌, append-nil, ltb, ltb→lt, ltb→ge, All, All-append, All-get_or,
  All-drop, All-take, length, length-append, length-take, length-drop, get_or, take, drop,
  take-prefix, drop-prefix, take_all, drop_all, take-append-drop, arith,
}
use aegisdb.Bytes.{IsByte}
use aegisdb.Aead.ChaCha.{
  u32to8le, block_bytes, aegis_chacha20_block, xor_block, xor_from, chacha20_xor,
}

block_bytes-IsByte : (ws s : List ℕ) → All IsByte (block_bytes ws s)
unfolding block_bytes u32to8le
block_bytes-IsByte [] s = tt
block_bytes-IsByte (w ∷ ws) s =
    (omega arith, (omega arith, (omega arith, (omega arith, block_bytes-IsByte ws (drop 1 s)))))

aegis_chacha20_block-IsByte :
    (key : List ℕ) (counter : ℕ) (nonce : List ℕ)
    → All IsByte (aegis_chacha20_block key counter nonce)
unfolding aegis_chacha20_block
aegis_chacha20_block-IsByte key counter nonce = block_bytes-IsByte _ _

length-xor_block : (xs block : List ℕ) → length (xor_block xs block) ≡ length xs
unfolding xor_block
length-xor_block [] block = refl
length-xor_block (x ∷ xs) block = ap suc (length-xor_block xs (drop 1 block))

xor_block-twice :
    (xs block : List ℕ)
    → All IsByte xs
    → All IsByte block
    → xor_block (xor_block xs block) block ≡ xs
unfolding xor_block
xor_block-twice [] block h b = refl
xor_block-twice (x ∷ xs) block (p, h) b =
    rw (bit_xor_cancel 8 x (get_or block 0 0) p (All-get_or IsByte block 0 0 (omega arith) b))
      (ap (λ (r : List ℕ). x ∷ r) (xor_block-twice xs (drop 1 block) h (All-drop IsByte 1 block b)))

-- The output is bytes, too.
xor_block-IsByte :
    (xs block : List ℕ) → All IsByte xs → All IsByte block → All IsByte (xor_block xs block)
unfolding xor_block
xor_block-IsByte [] block h b = tt
xor_block-IsByte (x ∷ xs) block (p, h) b = (
  bit_xor-lt 8 x (get_or block 0 0) p (All-get_or IsByte block 0 0 (omega arith) b),
  xor_block-IsByte xs (drop 1 block) h (All-drop IsByte 1 block b),
)

-- A piece that is full, or the last one.
cut_back :
    (m : ℕ) (a b : List ℕ)
    → (length a ≡ m) ⊎ ((length a ≤ m) × (b ≡ []))
    → (take m (a ++ b) ≡ a) × (drop m (a ++ b) ≡ b)
cut_back m a b (inl full) = (take-prefix m a b full, drop-prefix m a b full)
cut_back m a b (inr (short, e)) = rw (e, append-nil a) (take_all m a short, drop_all m a short)

module _ (key nonce : List ℕ) where
  xor_from-nil : (n counter : ℕ) → ◌≡◌ {A = List ℕ} (xor_from n key counter nonce []) []
  unfolding xor_from
  xor_from-nil zero counter = refl
  xor_from-nil (suc n) counter = refl

  length-xor_from :
      (n counter : ℕ) (xs : List ℕ)
      → length xs ≤ n
      → length (xor_from n key counter nonce xs) ≡ length xs
  unfolding xor_from
  length-xor_from n counter [] h = ap length (xor_from-nil n counter)
  length-xor_from zero counter (x ∷ xs) h = absurd (omega arith)
  length-xor_from (suc n) counter (x ∷ xs) h =
      let block = aegis_chacha20_block key counter nonce in
      let one = xor_block (take 64 (x ∷ xs)) block in
      let rest = xor_from n key ((counter + 1) % 2 ^ 32) nonce (drop 64 (x ∷ xs)) in
      length-append one rest
      ∙ omega (
        arith,
        length-xor_block (take 64 (x ∷ xs)) block,
        length-take 64 (x ∷ xs),
        length-drop 64 (x ∷ xs),
        length-xor_from n ((counter + 1) % 2 ^ 32) (drop 64 (x ∷ xs))
            (omega (arith, length-drop 64 (x ∷ xs), h)),
      )

  pub xor_from-IsByte :
      (n counter : ℕ) (xs : List ℕ) → All IsByte xs → All IsByte (xor_from n key counter nonce xs)
  unfolding xor_from
  xor_from-IsByte zero counter [] h = tt
  xor_from-IsByte (suc n) counter [] h = tt
  xor_from-IsByte zero counter (x ∷ xs) h = tt
  xor_from-IsByte (suc n) counter (x ∷ xs) h =
      All-append IsByte _ _
        (xor_block-IsByte (take 64 (x ∷ xs)) _ (All-take IsByte 64 (x ∷ xs) h)
          (aegis_chacha20_block-IsByte key counter nonce))
        (xor_from-IsByte n ((counter + 1) % 2 ^ 32) (drop 64 (x ∷ xs))
          (All-drop IsByte 64 (x ∷ xs) h))

  xor_from-step :
      (n counter : ℕ) (xs : List ℕ)
      → 0 < length xs
      → xor_from (suc n) key counter nonce xs
        ≡ xor_block (take 64 xs) (aegis_chacha20_block key counter nonce)
          ++ xor_from n key ((counter + 1) % 2 ^ 32) nonce (drop 64 xs)
  unfolding xor_from
  xor_from-step n counter [] h = absurd (omega arith)
  xor_from-step n counter (x ∷ xs) h = refl

  xor_from-twice :
      (n counter : ℕ) (xs : List ℕ)
      → length xs ≤ n
      → All IsByte xs
      → xor_from n key counter nonce (xor_from n key counter nonce xs) ≡ xs
  xor_from-twice n counter [] h b = rw (xor_from-nil n counter) (xor_from-nil n counter)
  xor_from-twice zero counter (x ∷ xs) h b = absurd (omega arith)
  xor_from-twice (suc n) counter (x ∷ xs) h b =
      let (front, back) = cut_back 64 one rest pieces in
      ap (xor_from (suc n) key counter nonce) (xor_from-step n counter (x ∷ xs) (omega arith))
      ∙ xor_from-step n counter (one ++ rest) filled
      ∙ rw
          (
            front,
            back,
            xor_block-twice (take 64 (x ∷ xs)) block (All-take IsByte 64 (x ∷ xs) b)
                (aegis_chacha20_block-IsByte key counter nonce),
            xor_from-twice n ((counter + 1) % 2 ^ 32) (drop 64 (x ∷ xs))
                (omega (arith, length-drop 64 (x ∷ xs), h)) (All-drop IsByte 64 (x ∷ xs) b),
          )
          (take-append-drop 64 (x ∷ xs))
    where
      block : List ℕ
      block = aegis_chacha20_block key counter nonce

      one : List ℕ
      one = xor_block (take 64 (x ∷ xs)) block

      rest : List ℕ
      rest = xor_from n key ((counter + 1) % 2 ^ 32) nonce (drop 64 (x ∷ xs))

      filled : 0 < length (one ++ rest)
      filled = omega (
        arith,
        length-append one rest,
        length-xor_block (take 64 (x ∷ xs)) block,
        length-take 64 (x ∷ xs),
      )

      pieces : (length one ≡ 64) ⊎ ((length one ≤ 64) × (rest ≡ []))
      pieces =
          let size = length-xor_block (take 64 (x ∷ xs)) block in
          let cut = length-take 64 (x ∷ xs) in
          elim (Bool-cases (ltb (length (x ∷ xs)) 64)) [
            | inr f ↦ inl (omega (arith, size, cut, ltb→ge (length (x ∷ xs)) 64 f))
            | inl t ↦ inr (
              omega (arith, size, cut),
              rw (drop_all 64 (x ∷ xs) (omega (arith, ltb→lt _ _ t)))
                  (xor_from-nil n ((counter + 1) % 2 ^ 32)),
            )
          ]

  pub length-chacha20_xor :
      (counter : ℕ) (buf : List ℕ) → length (chacha20_xor key counter nonce buf) ≡ length buf
  unfolding chacha20_xor
  length-chacha20_xor counter buf = length-xor_from (length buf) counter buf (omega arith)

  -- The keystream undoes itself on bytes.
  pub chacha20_xor-twice :
      (counter : ℕ) (buf : List ℕ)
      → All IsByte buf
      → chacha20_xor key counter nonce (chacha20_xor key counter nonce buf) ≡ buf
  unfolding chacha20_xor
  chacha20_xor-twice counter buf b =
      rw (length-xor_from (length buf) counter buf (omega arith))
        (xor_from-twice (length buf) counter buf (omega arith) b)
