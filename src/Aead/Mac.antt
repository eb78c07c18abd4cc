-- ===== src/Aead/Mac.antt =====
-- The bytes that aead_mac of src/util/chacha20poly1305.c authenticates.
use aegisdb.Prelude.{
  ℕ, ◌-◌, ◌%◌, ◌<◌, ◌≡◌, refl, sym, ap, ◌∙◌, Bool-cases, inl, inr, List, [], ◌++◌, ◌==◌, ==_iff,
  if◌then◌else◌, length, length-nil, replicate, arith,
}
use aegisdb.Bytes.{put_u64le}
use aegisdb.Aead.Poly1305.{Poly1305Ctx, poly1305_init, poly1305_update}
use aegisdb.Aead.Poly1305.Update.{poly1305_update-append, poly1305_update-room, poly1305_update-nil}
use aegisdb.Aead.Finish.{poly1305_finish}
use aegisdb.Aead.XChaCha.{aegis_poly1305, poly_pad16, update_if, aead_mac}

-- The zeros up to the next multiple of 16.
abbrev pub pad16 : ℕ → List ℕ
pad16 len = if len % 16 == 0 then [] else replicate (16 - len % 16) 0

update_if-update :
    (m : List ℕ) (st : Poly1305Ctx) → length st.buffer < 16 → update_if m st ≡ poly1305_update m st
update_if-update m st room = elim (Bool-cases (length m == 0)) [
  | inr f ↦ rw f refl
  | inl t ↦
      let empty = length-nil m ((==_iff (length m) 0).0 t) in
      rw t (sym (ap (λ (x : List ℕ). poly1305_update x st) empty ∙ poly1305_update-nil st room))
]

poly_pad16-update :
    (len : ℕ) (st : Poly1305Ctx)
    → length st.buffer < 16
    → poly_pad16 len st ≡ poly1305_update (pad16 len) st
unfolding poly_pad16
poly_pad16-update len st room = elim (Bool-cases (len % 16 == 0)) [
  | inl t ↦ rw t (sym (poly1305_update-nil st room))
  | inr f ↦ rw f refl
]

init_room : (key : List ℕ) → length (poly1305_init key).buffer < 16
unfolding poly1305_init
init_room key = omega arith

-- The tag of the pieces, padded one by one and followed by their lengths, is the one-shot MAC of the
-- concatenation.
pub aead_mac-aegis_poly1305 :
    (polykey aad ct : List ℕ)
    → aead_mac polykey aad ct
      ≡ aegis_poly1305
          (aad
            ++ pad16 (length aad)
            ++ ct
            ++ pad16 (length ct)
            ++ (put_u64le (length aad) ++ put_u64le (length ct)))
          polykey
unfolding aead_mac aegis_poly1305
aead_mac-aegis_poly1305 polykey aad ct = ap poly1305_finish (
    rw
      (
        update_if-update aad st0 room0,
        poly_pad16-update (length aad) st1 room1,
        poly1305_update-append aad (pad16 (length aad)) st0 room0,
        update_if-update ct st2 room2,
        poly1305_update-append (aad ++ pad16 (length aad)) ct st0 room0,
        poly_pad16-update (length ct) st3 room3,
        poly1305_update-append (aad ++ pad16 (length aad) ++ ct) (pad16 (length ct)) st0 room0,
        poly1305_update-append (aad ++ pad16 (length aad) ++ ct ++ pad16 (length ct)) lens st0
            room0,
      )
      refl)
  where
    lens : List ℕ
    lens = put_u64le (length aad) ++ put_u64le (length ct)

    st0 : Poly1305Ctx
    st0 = poly1305_init polykey

    room0 : length st0.buffer < 16
    room0 = init_room polykey

    st1 : Poly1305Ctx
    st1 = poly1305_update aad st0

    room1 : length st1.buffer < 16
    room1 = poly1305_update-room aad st0 room0

    st2 : Poly1305Ctx
    st2 = poly1305_update (aad ++ pad16 (length aad)) st0

    room2 : length st2.buffer < 16
    room2 = poly1305_update-room (aad ++ pad16 (length aad)) st0 room0

    st3 : Poly1305Ctx
    st3 = poly1305_update (aad ++ pad16 (length aad) ++ ct) st0

    room3 : length st3.buffer < 16
    room3 = poly1305_update-room (aad ++ pad16 (length aad) ++ ct) st0 room0
