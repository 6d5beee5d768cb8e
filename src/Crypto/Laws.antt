-- ===== src/Crypto/Laws.antt =====
-- Encryption is undone by decryption under every key that is accepted, and every wrong size raises.
use ino_a9_local_bridge.Base.{ℕ, ◌-◌, ◌%◌, ◌≡◌, ◌<◌, List, ◌⊎◌, arith, inr, sym, ap, ◌∙◌}
use ino_a9_local_bridge.Base.Tests.{◌==◌, if◌then◌else◌}
use ino_a9_local_bridge.Base.Lists.{length, take, drop, length-take, length-drop}
use ino_a9_local_bridge.Base.Except.{ok, err, value_error, ◌>>=◌}
use ino_a9_local_bridge.Crypto.{
  Primitives, validate, aes_cbc_encrypt_padded, aes_cbc_decrypt_padded, aes_cbc_encrypt_unpadded,
  aes_cbc_decrypt_unpadded, derive_rpc_key, derive_av_key,
}

-- The sizes that `_validate` lets pass.
pub record IsKeyed (key iv : List ℕ) : Type 0 where
  pub key_size : (length key ≡ 16) ⊎ (length key ≡ 24) ⊎ (length key ≡ 32)
  pub iv_size : length iv ≡ 16

module _ (c : Primitives) (key iv text : List ℕ) where
  -- Under a key of 16, 24 or 32 bytes and an IV of 16, decryption takes every text back from its
  -- padded encryption, whatever its length.
  pub decrypt-encrypt_padded :
      IsKeyed key iv
      → (aes_cbc_encrypt_padded c text key iv >>= λ secret. aes_cbc_decrypt_padded c secret key iv)
        ≡ ok text
  unfolding aes_cbc_encrypt_padded aes_cbc_decrypt_padded validate
  decrypt-encrypt_padded k = ground (
    arith,
    c.unpad-pad text,
    c.length-pad text,
    c.length-pad_pos text,
    c.length-encrypt key iv (c.pad text),
    c.decrypt-encrypt key iv (c.pad text),
  )

  -- Under a key of 16, 24 or 32 bytes and an IV of 16, decryption without padding takes a text of
  -- whole blocks back from its encryption without padding, and any other text raises `ValueError`.
  pub decrypt-encrypt_unpadded :
      IsKeyed key iv
      → (aes_cbc_encrypt_unpadded c text key iv >>= λ secret.
          aes_cbc_decrypt_unpadded c secret key iv)
        ≡ (if length text % 16 == 0 then ok text else err value_error)
  unfolding aes_cbc_encrypt_unpadded aes_cbc_decrypt_unpadded validate
  decrypt-encrypt_unpadded k =
      ground (arith, c.length-encrypt key iv text, c.decrypt-encrypt key iv text)

  pub decrypt_unpadded-cbc_encrypt :
      IsKeyed key iv
      → length text % 16 ≡ 0
      → aes_cbc_decrypt_unpadded c (c.cbc_encrypt key iv text) key iv ≡ ok text
  unfolding aes_cbc_decrypt_unpadded validate
  decrypt_unpadded-cbc_encrypt k blocks =
      ground (arith, c.length-encrypt key iv text, c.decrypt-encrypt key iv text blocks)

-- A derived key is 32 bytes long, and its first 16 bytes serve as the IV.
module _ (c : Primitives) (text : List ℕ) where
  digest-IsKeyed : IsKeyed (c.md5_hexdigest text) (take 16 (c.md5_hexdigest text))
  digest-IsKeyed = record {
    key_size = inr (inr (c.length-md5 text));
    iv_size = omega (arith, length-take 16 (c.md5_hexdigest text), c.length-md5 text);
  }

pub rpc_key-IsKeyed :
    (c : Primitives) (prefix : List ℕ) (sequence command_id t : ℕ)
    → IsKeyed
        (derive_rpc_key c prefix sequence command_id t)
        (take 16 (derive_rpc_key c prefix sequence command_id t))
unfolding derive_rpc_key
rpc_key-IsKeyed c prefix sequence command_id t = digest-IsKeyed c _

-- The key of a frame has its last 16 bytes for the IV.
pub av_key-IsKeyed :
    (c : Primitives) (prefix : List ℕ) (sequence timestamp channel : ℕ)
    → let key = derive_av_key c prefix sequence timestamp channel in
      IsKeyed key (drop (length key - 16) key)
unfolding derive_av_key
av_key-IsKeyed c prefix sequence timestamp channel =
    let key = derive_av_key c prefix sequence timestamp channel in
    record {
      key_size = inr (inr (c.length-md5 _));
      iv_size = omega (arith, length-drop (length key - 16) key, c.length-md5 _);
    }

-- An accepted key and IV make padded encryption succeed on every text, with at least one byte.
pub encrypt_padded_total :
    (c : Primitives) (key iv text : List ℕ)
    → IsKeyed key iv
    → (secret : List ℕ) × (aes_cbc_encrypt_padded c text key iv ≡ ok secret)
      × (0 < length secret)
      × (aes_cbc_decrypt_padded c secret key iv ≡ ok text)
unfolding aes_cbc_encrypt_padded
encrypt_padded_total c key iv text k =
    let encrypted : aes_cbc_encrypt_padded c text key iv ≡ ok (c.cbc_encrypt key iv (c.pad text)) =
      unfold validate in ground arith in
    (
      c.cbc_encrypt key iv (c.pad text),
      encrypted,
      omega (arith, c.length-encrypt key iv (c.pad text), c.length-pad_pos text),
      sym (ap (λ r. r >>= λ secret. aes_cbc_decrypt_padded c secret key iv) encrypted)
          ∙ decrypt-encrypt_padded c key iv text k,
    )
