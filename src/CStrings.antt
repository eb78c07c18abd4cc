-- ===== src/CStrings.antt =====
-- C strings, as the lists of their bytes before the NUL, where modules compare and hash them:
-- strcmp, and the FNV-1a loop of hash_str in src/storage/tag_index.c and
-- src/memory/working_buffer.c.
use aegisdb.Prelude.{
  ℕ, ◌*◌, ◌%◌, ◌^◌, bit_xor, ◌≡◌, refl, Bool, true, false, List, [], ◌∷◌, ◌==◌, ◌&&◌, arith,
}

-- `strcmp(a, b) == 0`
unfoldable pub is_same : List ℕ → List ℕ → Bool
is_same [] [] = true
is_same [] (y ∷ ys) = false
is_same (x ∷ xs) [] = false
is_same (x ∷ xs) (y ∷ ys) = x == y && is_same xs ys

-- One round per byte: `h ^= *s; h *= 1099511628211` in 64 bits.
unfoldable pub fnv1a : ℕ → List ℕ → ℕ
fnv1a h [] = h
fnv1a h (c ∷ cs) = fnv1a (bit_xor h c * 1099511628211 % 2 ^ 64) cs

pub is_same_refl : (xs : List ℕ) → is_same xs xs ≡ true
unfolding is_same
is_same_refl [] = refl
is_same_refl (x ∷ xs) = ground (arith, is_same_refl xs)

pub is_same→eq : (xs ys : List ℕ) → is_same xs ys ≡ true → xs ≡ ys
unfolding is_same
is_same→eq [] [] h = refl
is_same→eq [] (y ∷ ys) h = cc
is_same→eq (x ∷ xs) [] h = cc
is_same→eq (x ∷ xs) (y ∷ ys) h = ground (arith, is_same→eq xs ys)

pub other_string : (a b c : List ℕ) → is_same a b ≡ true → is_same b c ≡ false → is_same a c ≡ false
other_string a b c h k = rw (is_same→eq a b h) k

pub same_to_third :
    (a b c : List ℕ) → is_same a c ≡ true → is_same b c ≡ true → is_same a b ≡ false → ⊥
same_to_third a b c e g d =
    let same : is_same a b ≡ true = rw (is_same→eq a c e, is_same→eq b c g) (is_same_refl c) in cc
