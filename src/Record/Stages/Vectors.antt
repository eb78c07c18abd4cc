-- ===== src/Record/Stages/Vectors.antt =====
-- The embedding of a record, read back.
use native.Mathlib.Nat.{le-div_iff_mul-le}
use aegisdb.Prelude.{
  le→leb, ℕ, zero, suc, ◌*◌, ◌/◌, ◌^◌, ◌≤◌, ◌<◌, ◌≡◌, refl, ap, ◌∙◌, false, some, List, [], ◌∷◌,
  ◌++◌, ltb, ◌==◌, length, length-append, get_or, All, arith, append_assoc, inl, inr,
}
use aegisdb.Bytes.{put_u32le}
use aegisdb.Bytes.RoundTrip.{put_u32le-IsByte}
use aegisdb.Record.Cursor.Reads.{cur, get_u32-put_u32le}
use aegisdb.Record.Encode.{put_floats}
use aegisdb.Record.Decoder.{bind_step, read_step, check_step}
use aegisdb.Record.Decode.{Embedding, decode_floats, decode_vectors, decode_embedding}
use aegisdb.Record.Valid.{IsEmbedding}

-- The cells from `i` on that the encoder's loop reads.
window : ℕ → ℕ → List ℕ → List ℕ
window zero i e = []
window (suc n) i e = get_or e i 0 ∷ window n (suc i) e

window-cons : (n i x : ℕ) (e : List ℕ) → window n (suc i) (x ∷ e) ≡ window n i e
unfolding window
window-cons zero i x e = refl
window-cons (suc n) i x e = ap (λ (l : List ℕ). get_or e i 0 ∷ l) (window-cons n (suc i) x e)

window-length : (e : List ℕ) → window (length e) 0 e ≡ e
unfolding window
window-length [] = refl
window-length (x ∷ e) = ap (λ (l : List ℕ). x ∷ l) (window-cons (length e) 0 x e ∙ window-length e)

get_or-lt : (e : List ℕ) (i : ℕ) → All (λ f. f < 2 ^ 32) e → get_or e i 0 < 2 ^ 32
get_or-lt [] i h = omega arith
get_or-lt (x ∷ e) zero (p, h) = p
get_or-lt (x ∷ e) (suc i) (p, h) = get_or-lt e i h

module _ (e : List ℕ) (small : All (λ f. f < 2 ^ 32) e) where
  decode_floats-put_floats :
      (n i : ℕ) (ys : List ℕ)
      → decode_floats n (cur (put_floats n i e ++ ys)) ≡ some (window n i e, cur ys)
  unfolding decode_floats put_floats window
  decode_floats-put_floats zero i ys = refl
  decode_floats-put_floats (suc n) i ys =
      rw (append_assoc (put_u32le (get_or e i 0)) (put_floats n (suc i) e) ys) (
        read_step _ _ (get_u32-put_u32le (get_or e i 0) _ (get_or-lt e i small))
        ∙ check_step _ {c = cur _} refl
        ∙ bind_step _ _ (decode_floats-put_floats n (suc i) ys))

length-put_floats : (n i : ℕ) (e : List ℕ) → length (put_floats n i e) ≡ 4 * n
unfolding put_floats
length-put_floats zero i e = refl
length-put_floats (suc n) i e =
    length-append (put_u32le (get_or e i 0)) (put_floats n (suc i) e)
    ∙ omega (arith, length-put_floats n (suc i) e, (put_u32le-IsByte (get_or e i 0)).1)

-- The floats that the encoder writes pass the test that their count is in the bytes left.
counted :
    (vecs dim : ℕ) (e ys : List ℕ)
    → 0 < dim
    → ltb (length (put_floats (vecs * dim) 0 e ++ ys) / 4 / dim) vecs ≡ false
counted vecs dim e ys h =
    let total = length-append (put_floats (vecs * dim) 0 e) ys in
    let written = length-put_floats (vecs * dim) 0 e in
    let enough : vecs * dim ≤ length (put_floats (vecs * dim) 0 e ++ ys) / 4 = omega arith in
    let below : vecs ≤ length (put_floats (vecs * dim) 0 e ++ ys) / 4 / dim =
      (le-div_iff_mul-le h).1 enough in
    ground arith

module _ (e : List ℕ) (dim vecs : ℕ) (floats_range : All (λ f. f < 2 ^ 32) e)
    (dim_range : dim < 2 ^ 32) (vec_range : vecs < 2 ^ 32) (ys : List ℕ) where
  abbrev embedding_of : Embedding
  embedding_of = record { floats = e; dim = dim; vecs = vecs }

  decode_vectors-put :
      IsEmbedding e dim vecs
      → decode_vectors vecs dim (cur (put_floats (vecs * dim) 0 e ++ ys))
        ≡ some (embedding_of, cur ys)
  unfolding decode_vectors
  decode_vectors-put (inl (no_floats, no_dim, no_vecs)) =
      rw (no_floats, no_dim, no_vecs) (unfold put_floats in refl)
  decode_vectors-put (inr (dims, vecs_there, count)) =
      let d : (dim == 0) ≡ false = ground arith in
      let v : (vecs == 0) ≡ false = ground arith in
      rw (d, v, counted vecs dim e ys dims)
        (bind_step _ _ (decode_floats-put_floats e floats_range (vecs * dim) 0 ys)
          ∙ ap (λ (l : List ℕ). some (record { floats = l; dim = dim; vecs = vecs }, cur ys))
              (rw (← count) (window-length e)))

  -- From version 2 on both counts are stored.
  pub decode_embedding-put :
      (ver : ℕ)
      → 2 ≤ ver
      → IsEmbedding e dim vecs
      → decode_embedding ver
          (cur (put_u32le vecs ++ (put_u32le dim ++ (put_floats (vecs * dim) 0 e ++ ys))))
        ≡ some (embedding_of, cur ys)
  unfolding decode_embedding
  decode_embedding-put ver h valid =
      rw (le→leb 2 ver h, not_one ver h)
        (read_step _ _ (get_u32-put_u32le vecs _ vec_range)
          ∙ read_step _ _ (get_u32-put_u32le dim _ dim_range)
          ∙ check_step _ {c = cur _} refl
          ∙ decode_vectors-put valid)
    where
      not_one : (ver : ℕ) → 2 ≤ ver → (ver == 1) ≡ false
      not_one ver h = ground arith
