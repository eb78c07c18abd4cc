-- ===== src/Aead/Poly1305/Update.antt =====
-- The bytes that poly1305_update of src/util/chacha20poly1305.c takes in, piece by piece.
use aegisdb.Prelude.{
  ℕ, zero, suc, ◌+◌, ◌*◌, ◌-◌, ◌/◌, ◌≤◌, ◌<◌, min, ◌≡◌, refl, sym, ap, subst, ◌∙◌, Bool-cases, inl,
  inr, List, [], ◌++◌, append_assoc, append-nil, ◌==◌, ==_iff, ltb, ltb→lt, ltb→ge, length,
  length-append, length-take, length-drop, take, drop, take_all, drop_all, length-nil,
  take-append-drop, take-append_le, drop-append_le, drop-drop, arith,
}
use aegisdb.Aead.Poly1305.{
  Poly1305Ctx, poly1305_block, poly1305_blocks, update_rest, poly1305_update,
}

-- The context without its buffer.
abbrev bare : Poly1305Ctx → Poly1305Ctx
bare st = record st { buffer = [] }

-- The blocks of a list do not depend on what follows them.
blocks-append :
    (n : ℕ) (xs ys : List ℕ) (st : Poly1305Ctx)
    → n * 16 ≤ length xs
    → poly1305_blocks n (xs ++ ys) st ≡ poly1305_blocks n xs st
unfolding poly1305_blocks
blocks-append zero xs ys st h = refl
blocks-append (suc n) xs ys st h =
    rw (take-append_le 16 xs ys (omega arith), drop-append_le 16 xs ys (omega arith))
      (blocks-append n (drop 16 xs) ys (poly1305_block (take 16 xs) st)
        (omega (arith, h, length-drop 16 xs)))

blocks-sum :
    (n k : ℕ) (xs : List ℕ) (st : Poly1305Ctx)
    → poly1305_blocks (n + k) xs st ≡ poly1305_blocks k (drop (n * 16) xs) (poly1305_blocks n xs st)
unfolding poly1305_blocks
blocks-sum zero k xs st = let e : 0 + k ≡ k = omega arith in rw e refl
blocks-sum (suc n) k xs st =
    let e : suc n + k ≡ suc (n + k) = omega arith in
    let d : suc n * 16 ≡ 16 + n * 16 = omega arith in
    rw (e, d, drop-drop 16 (n * 16) xs)
      (blocks-sum n k (drop 16 xs) (poly1305_block (take 16 xs) st))

-- Only the limbs change.
buffer-blocks :
    (n : ℕ) (xs : List ℕ) (st : Poly1305Ctx) → (poly1305_blocks n xs st).buffer ≡ st.buffer
unfolding poly1305_blocks poly1305_block
buffer-blocks zero xs st = refl
buffer-blocks (suc n) xs st = buffer-blocks n (drop 16 xs) (poly1305_block (take 16 xs) st)

bare-blocks :
    (n : ℕ) (xs : List ℕ) (st : Poly1305Ctx)
    → bare (poly1305_blocks n xs st) ≡ poly1305_blocks n xs (bare st)
unfolding poly1305_blocks poly1305_block
bare-blocks zero xs st = refl
bare-blocks (suc n) xs st = bare-blocks n (drop 16 xs) (poly1305_block (take 16 xs) st)

-- What is taken in altogether: the full blocks, and the rest of the bytes.
abbrev pub absorbed : List ℕ → Poly1305Ctx → Poly1305Ctx
absorbed xs st = record (poly1305_blocks (length xs / 16) xs (bare st)) {
  buffer = drop (length xs / 16 * 16) xs;
}

-- Absorbing in two steps.
absorbed-append :
    (xs ys : List ℕ) (st : Poly1305Ctx)
    → absorbed ((absorbed xs st).buffer ++ ys) (absorbed xs st) ≡ absorbed (xs ++ ys) st
absorbed-append xs ys st =
    rw
      (
        bare-blocks q xs (bare st),
        count,
        blocks-sum q k (xs ++ ys) (bare st),
        blocks-append q xs ys (bare st) below,
        product,
        drop-drop (q * 16) (k * 16) (xs ++ ys),
        drop-append_le (q * 16) xs ys below,
      )
      refl
  where
    q : ℕ
    q = length xs / 16

    k : ℕ
    k = length (drop (q * 16) xs ++ ys) / 16

    below : q * 16 ≤ length xs
    below = omega arith

    count : length (xs ++ ys) / 16 ≡ q + k
    count =
        omega
          (arith, length-append xs ys, length-append (drop (q * 16) xs) ys, length-drop (q * 16) xs)

    product : (q + k) * 16 ≡ q * 16 + k * 16
    product = omega arith

update_rest-absorbed :
    (m : List ℕ) (st : Poly1305Ctx) → st.buffer ≡ [] → update_rest m st ≡ absorbed m st
unfolding update_rest
update_rest-absorbed m st h =
    let e : st ≡ bare st = ap (λ (b : List ℕ). record st { buffer = b }) h in
    subst (λ (s : Poly1305Ctx). update_rest m s ≡ absorbed m s) (sym e)
      (rw (buffer-blocks (length m / 16) m (bare st)) refl)

absorbed-few :
    (xs : List ℕ) (st : Poly1305Ctx) → length xs < 16 → absorbed xs st ≡ record st { buffer = xs }
unfolding poly1305_blocks
absorbed-few xs st h = let z : length xs / 16 ≡ 0 = omega (arith, h) in rw z refl

-- A full buffer is one block.
absorbed-block :
    (b : List ℕ) (st : Poly1305Ctx) → length b ≡ 16 → absorbed b st ≡ bare (poly1305_block b st)
unfolding poly1305_blocks poly1305_block
absorbed-block b st h =
    let one : length b / 16 ≡ 1 = omega arith in
    let all : ◌≡◌ {A = List ℕ} (drop 16 b) [] = drop_all 16 b (omega (arith, h)) in
    rw (one, take_all 16 b (omega (arith, h)), all) refl

-- An update takes in the bytes behind those that the buffer holds.
poly1305_update-absorbed :
    (m : List ℕ) (st : Poly1305Ctx)
    → length st.buffer < 16
    → poly1305_update m st ≡ absorbed (st.buffer ++ m) st
unfolding poly1305_update
poly1305_update-absorbed m st room = elim (Bool-cases (length st.buffer == 0)) [
  | inl t ↦
      let empty = length-nil st.buffer ((==_iff (length st.buffer) 0).0 t) in
      let same : st.buffer ++ m ≡ m = ap (λ (b : List ℕ). b ++ m) empty in
      rw t (update_rest-absorbed m st empty ∙ ap (λ (xs : List ℕ). absorbed xs st) (sym same))
  | inr f ↦ elim (Bool-cases (ltb (length full) 16)) [
    | inl t ↦
        let short : length m ≤ want = omega (arith, filled, ltb→lt _ _ t, room) in
        let all : take want m ≡ m = take_all want m short in
        let few : length (st.buffer ++ m) < 16 = rw all at (ltb→lt (length full) 16 t) in
        rw (f, t) (rw all (sym (absorbed-few (st.buffer ++ m) st few)))
    | inr n ↦
        let sixteen : length full ≡ 16 = omega (arith, filled, ltb→ge _ _ n, room) in
        let one = absorbed-block full st sixteen in
        let two = absorbed-append full (drop want m) st in
        let back = ap (λ (s : Poly1305Ctx). absorbed (s.buffer ++ drop want m) s) one in
        let joined : full ++ drop want m ≡ st.buffer ++ m =
          append_assoc st.buffer (take want m) (drop want m)
          ∙ ap (λ (xs : List ℕ). st.buffer ++ xs) (take-append-drop want m) in
        rw (f, n)
          (update_rest-absorbed (drop want m) (bare (poly1305_block full st)) refl
            ∙ sym back
            ∙ two
            ∙ ap (λ (xs : List ℕ). absorbed xs st) joined)
  ]
]
  where
    want : ℕ
    want = min (16 - length st.buffer) (length m)

    full : List ℕ
    full = st.buffer ++ take want m

    filled : length full ≡ length st.buffer + min want (length m)
    filled = omega (arith, length-append st.buffer (take want m), length-take want m)

-- Two updates take in what one update takes in of the pieces together.
pub poly1305_update-append :
    (a b : List ℕ) (st : Poly1305Ctx)
    → length st.buffer < 16
    → poly1305_update b (poly1305_update a st) ≡ poly1305_update (a ++ b) st
poly1305_update-append a b st room = rw (poly1305_update-absorbed a st room) (
    poly1305_update-absorbed b (absorbed (st.buffer ++ a) st)
      (omega (arith, length-drop (length (st.buffer ++ a) / 16 * 16) (st.buffer ++ a)))
    ∙ absorbed-append (st.buffer ++ a) b st
    ∙ ap (λ (xs : List ℕ). absorbed xs st) (append_assoc st.buffer a b)
    ∙ sym (poly1305_update-absorbed (a ++ b) st room))

pub poly1305_update-room :
    (m : List ℕ) (st : Poly1305Ctx)
    → length st.buffer < 16
    → length (poly1305_update m st).buffer < 16
poly1305_update-room m st room =
    rw (poly1305_update-absorbed m st room)
      (omega (arith, length-drop (length (st.buffer ++ m) / 16 * 16) (st.buffer ++ m)))

pub poly1305_update-nil : (st : Poly1305Ctx) → length st.buffer < 16 → poly1305_update [] st ≡ st
poly1305_update-nil st room =
    let e = append-nil st.buffer in
    poly1305_update-absorbed [] st room
    ∙ ap (λ (xs : List ℕ). absorbed xs st) e
    ∙ absorbed-few st.buffer st room
