-- ===== src/Aead/Laws.antt =====
-- The cipher of src/util/chacha20poly1305.c as the log asks for it.
use aegisdb.Prelude.{
  ℕ, zero, suc, ◌%◌, ◌<◌, ◌≡◌, refl, ap, ◌↔◌, true, Bool-cases, inl, inr, bit_or, bit_xor,
  bit_xor-lt, bit_or-zero, bit_or-lt, bit_xor_self, bit_xor-zero, All-get_or, All-drop, none, some,
  none_some, List, [], ◌∷◌, ==_iff, if◌then◌else◌, All, length, get_or, drop, arith,
}
use aegisdb.Bytes.{IsByte}
use aegisdb.Aead.{IsAead, Sealed}
use aegisdb.Aead.ChaCha.{u32to8le, chacha20_xor}
use aegisdb.Aead.ChaCha.Stream.{length-chacha20_xor, chacha20_xor-twice}
use aegisdb.Aead.Poly1305.{Limbs, Poly1305Ctx}
use aegisdb.Aead.Finish.{serialize, poly1305_finish}
use aegisdb.Aead.XChaCha.{
  xchacha_setup, aead_mac, diff_from, ct_eq16, aead_seal, aead_open, xchacha20_poly1305,
}

serialize-IsByte :
    (h : Limbs) (st : Poly1305Ctx) → All IsByte (serialize h st) × (length (serialize h st) ≡ 16)
unfolding serialize u32to8le
serialize-IsByte h st = omega arith

aead_mac-IsByte :
    (polykey aad ct : List ℕ)
    → All IsByte (aead_mac polykey aad ct) × (length (aead_mac polykey aad ct) ≡ 16)
unfolding aead_mac poly1305_finish
aead_mac-IsByte polykey aad ct = serialize-IsByte _ _

abbrev differs : List ℕ → List ℕ → ℕ
differs a b = bit_xor (get_or a 0 0) (get_or b 0 0) % 256

-- A difference stays, and no difference is seen in equal bytes.
diff_from-zero : (n diff : ℕ) (a b : List ℕ) → diff < 256 → diff_from n diff a b ≡ 0 → diff ≡ 0
unfolding diff_from
diff_from-zero zero diff a b small h = h
diff_from-zero (suc n) diff a b small h =
    let next = bit_or-lt 8 diff (differs a b) small (omega arith) in
    let e = diff_from-zero n (bit_or diff (differs a b)) (drop 1 a) (drop 1 b) next h in
    (bit_or-zero 8 diff (differs a b) small (omega arith) e).0

diff_from_self : (n : ℕ) (a : List ℕ) → All IsByte a → diff_from n 0 a a ≡ 0
unfolding diff_from
diff_from_self zero a h = refl
diff_from_self (suc n) a h =
    let same = bit_xor_self 8 (get_or a 0 0) (All-get_or IsByte a 0 0 (omega arith) h) in
    let none_yet : bit_or 0 (bit_xor (get_or a 0 0) (get_or a 0 0) % 256) ≡ 0 = rw same refl in
    rw (none_yet) (diff_from_self n (drop 1 a) (All-drop IsByte 1 a h))

diff_from-equal :
    (n : ℕ) (a b : List ℕ)
    → All IsByte a
    → All IsByte b
    → length a ≡ n
    → length b ≡ n
    → diff_from n 0 a b ≡ 0
    → a ≡ b
unfolding diff_from
diff_from-equal zero [] [] ha hb la lb h = refl
diff_from-equal zero (x ∷ a) b ha hb la lb h = absurd (omega arith)
diff_from-equal zero [] (y ∷ b) ha hb la lb h = absurd (omega arith)
diff_from-equal (suc n) [] b ha hb la lb h = absurd (omega arith)
diff_from-equal (suc n) (x ∷ a) [] ha hb la lb h = absurd (omega arith)
diff_from-equal (suc n) (x ∷ a) (y ∷ b) (hx, ha) (hy, hb) la lb h =
    let wide = bit_xor-lt 8 x y hx hy in
    let next = bit_or-lt 8 0 (bit_xor x y % 256) (omega arith) (omega arith) in
    let e = diff_from-zero n (bit_or 0 (bit_xor x y % 256)) a b next h in
    let z : bit_xor x y ≡ 0 =
      omega (arith, wide, (bit_or-zero 8 0 (bit_xor x y % 256) (omega arith) (omega arith) e).1) in
    let same = bit_xor-zero 8 x y hx hy z in
    let h' = rw e at h in
    rw same (
      ap (λ (r : List ℕ). y ∷ r)
        (diff_from-equal n a b ha hb (omega (arith, la)) (omega (arith, lb)) h'))

-- The comparison tells whether two tags are the same.
ct_eq16_iff :
    (a b : List ℕ)
    → All IsByte a
    → All IsByte b
    → length a ≡ 16
    → length b ≡ 16
    → (ct_eq16 a b ≡ true) ↔ (a ≡ b)
unfolding ct_eq16
ct_eq16_iff a b ha hb la lb = (
  λ t. diff_from-equal 16 a b ha hb la lb ((==_iff (diff_from 16 0 a b) 0).0 t),
  λ e. rw (← e) ((==_iff (diff_from 16 0 a a) 0).1 (diff_from_self 16 a ha)),
)

-- The cipher of the repository has the laws that the log relies on.
pub xchacha20_poly1305-IsAead : IsAead xchacha20_poly1305
unfolding aead_seal aead_open
xchacha20_poly1305-IsAead = record {
  length-text = λ key nonce aad text. length-chacha20_xor _ _ 1 text;
  length-tag = λ key nonce aad text. (aead_mac-IsByte _ aad _).1;
  open-seal = λ key nonce aad text h.
      let s = xchacha_setup key nonce in
      let ct = chacha20_xor s.subkey 1 s.cc_nonce text in
      let (bytes, size) = aead_mac-IsByte s.polykey aad ct in
      let tag = aead_mac s.polykey aad ct in
      rw ((ct_eq16_iff tag tag bytes bytes size size).1 refl)
        (ap some (chacha20_xor-twice s.subkey s.cc_nonce 1 text h));
}

-- On bytes and a tag of 16 bytes, aead_open gives a text exactly when aead_seal makes this ciphertext
-- and this tag of it: an altered tag or ciphertext is refused unless it is the seal of a text.
pub aead_open-aead_seal :
    (key nonce aad ct tag text : List ℕ)
    → All IsByte ct
    → All IsByte tag
    → length tag ≡ 16
    → All IsByte text
    → (aead_open key nonce aad ct tag ≡ some text)
      ↔ (aead_seal key nonce aad text ≡ record { text = ct; tag = tag })
unfolding aead_seal aead_open
aead_open-aead_seal key nonce aad ct tag text hc ht lt hx = (accepted, made)
  where
    stream : List ℕ → List ℕ
    stream buf =
        chacha20_xor (xchacha_setup key nonce).subkey 1 (xchacha_setup key nonce).cc_nonce buf

    mac : List ℕ → List ℕ
    mac buf = aead_mac (xchacha_setup key nonce).polykey aad buf

    twice : (buf : List ℕ) → All IsByte buf → stream (stream buf) ≡ buf
    twice buf h = chacha20_xor-twice _ _ 1 buf h

    tags : (ct_eq16 (mac ct) tag ≡ true) ↔ (mac ct ≡ tag)
    tags =
        let (bytes, size) = aead_mac-IsByte (xchacha_setup key nonce).polykey aad ct in
        ct_eq16_iff (mac ct) tag bytes ht size lt

    accepted :
        (if ct_eq16 (mac ct) tag then some (stream ct) else none) ≡ some text
        → ◌≡◌ {A = Sealed}
            (record { text = stream text; tag = mac (stream text) })
            (record { text = ct; tag = tag })
    accepted h = elim (Bool-cases (ct_eq16 (mac ct) tag)) [
      | inr f ↦ none_some text (rw f at h)
      | inl t ↦
          let e : some (stream ct) ≡ some text = rw t at h in
          let e' : stream ct ≡ text = cc in rw (← e', twice ct hc, tags.0 t) refl
    ]

    made :
        ◌≡◌ {A = Sealed}
          (record { text = stream text; tag = mac (stream text) })
          (record { text = ct; tag = tag })
        → (if ct_eq16 (mac ct) tag then some (stream ct) else none) ≡ some text
    made h =
        let e : stream text ≡ ct = ap (λ (s : Sealed). s.text) h in
        let m : mac (stream text) ≡ tag = ap (λ (s : Sealed). s.tag) h in
        let same = tags.1 (rw e at m) in rw (same, ← e) (ap some (twice text hx))
