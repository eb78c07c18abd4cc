-- ===== src/Aead.antt =====
-- include/aegisdb/aead.h: what the log asks of the authenticated cipher. `aead_open` answers none
-- where the C function returns -1.
pub mod ChaCha
pub mod Poly1305
pub mod Finish
pub mod XChaCha
pub mod Laws
pub mod Mac
use aegisdb.Prelude.{ℕ, ◌≡◌, Option, some, List, length, All}
use aegisdb.Bytes.{IsByte}

pub record Sealed : Type 0 where
  pub text : List ℕ
  pub tag : List ℕ

-- The two functions, which take the key, the nonce and the associated data.
pub record Aead : Type 0 where
  pub aead_seal : List ℕ → List ℕ → List ℕ → List ℕ → Sealed
  pub aead_open : List ℕ → List ℕ → List ℕ → List ℕ → List ℕ → Option (List ℕ)

-- A stream cipher with a 16-byte tag, whose receiver gets back what was sealed.
pub record IsAead (cipher : Aead) : Type 0 where
  pub length-text :
      (key nonce aad text : List ℕ)
      → length (cipher.aead_seal key nonce aad text).text ≡ length text
  pub length-tag :
      (key nonce aad text : List ℕ) → length (cipher.aead_seal key nonce aad text).tag ≡ 16
  pub open-seal :
      (key nonce aad text : List ℕ)
      → All IsByte text
      → cipher.aead_open key nonce aad
          (cipher.aead_seal key nonce aad text).text
          (cipher.aead_seal key nonce aad text).tag
        ≡ some text
