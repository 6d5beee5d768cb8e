-- ===== src/Crypto.antt =====
-- ino_a9_bridge/src/wificam_bridge/crypto.py and the key derivations of pprpc.py, over a cipher, a
-- padding and a digest that the repository takes from elsewhere.
pub mod Laws
pub mod Examples
use ino_a9_local_bridge.Base.{
  ℕ, ◌%◌, ◌≡◌, ◌<◌, List, [], ◌∷◌, ◌++◌, Option, none, some, Bool, true, false, not, ◌&&◌, ◌||◌,
}
use ino_a9_local_bridge.Base.Tests.{◌==◌}
use ino_a9_local_bridge.Base.Lists.{length}
use ino_a9_local_bridge.Base.Text.{codes, decimal}
use ino_a9_local_bridge.Base.Except.{Result, ok, err, value_error, require, ◌>>=◌, ◌>>◌}

-- What the package `cryptography` and `hashlib` do: AES in CBC mode on whole blocks, PKCS#7 padding
-- to a block of 16 bytes, and MD5 written in 32 hexadecimal digits.
pub record Primitives : Type 0 where
  pub cbc_encrypt : List ℕ → List ℕ → List ℕ → List ℕ
  pub cbc_decrypt : List ℕ → List ℕ → List ℕ → List ℕ
  pub pad : List ℕ → List ℕ
  pub unpad : List ℕ → Option (List ℕ)
  pub md5_hexdigest : List ℕ → List ℕ
  -- On whole blocks decryption undoes encryption and keeps the length.
  pub decrypt-encrypt :
      (key iv text : List ℕ)
      → length text % 16 ≡ 0
      → cbc_decrypt key iv (cbc_encrypt key iv text) ≡ text
  pub length-encrypt : (key iv text : List ℕ) → length (cbc_encrypt key iv text) ≡ length text
  -- Padding fills the last block, always adds a byte, and can be taken off.
  pub unpad-pad : (text : List ℕ) → unpad (pad text) ≡ some text
  pub length-pad : (text : List ℕ) → length (pad text) % 16 ≡ 0
  pub length-pad_pos : (text : List ℕ) → 0 < length (pad text)
  pub length-md5 : (text : List ℕ) → length (md5_hexdigest text) ≡ 32

abbrev pub aes_block_size : ℕ
aes_block_size = 16

abbrev pub is_key_size : ℕ → Bool
is_key_size n = n == 16 || n == 24 || n == 32

-- `_validate`
unfoldable pub validate : List ℕ → List ℕ → Result (Unit {0})
validate key iv = do
  require (is_key_size (length key)) value_error
  require (length iv == aes_block_size) value_error

abbrev pub unpadded : Option (List ℕ) → Result (List ℕ)
unpadded none = err value_error
unpadded (some text) = ok text

module _ (c : Primitives) where
  unfoldable pub aes_cbc_encrypt_padded : List ℕ → List ℕ → List ℕ → Result (List ℕ)
  unfolding validate
  aes_cbc_encrypt_padded plaintext key iv = do
    validate key iv
    ok (c.cbc_encrypt key iv (c.pad plaintext))

  unfoldable pub aes_cbc_decrypt_padded : List ℕ → List ℕ → List ℕ → Result (List ℕ)
  unfolding validate
  aes_cbc_decrypt_padded ciphertext key iv = do
    validate key iv
    require (not (length ciphertext == 0 || not (length ciphertext % aes_block_size == 0)))
        value_error
    unpadded (c.unpad (c.cbc_decrypt key iv ciphertext))

  pub aes_cbc_encrypt_unpadded : List ℕ → List ℕ → List ℕ → Result (List ℕ)
  unfolding validate
  aes_cbc_encrypt_unpadded plaintext key iv = do
    validate key iv
    require (length plaintext % aes_block_size == 0) value_error
    ok (c.cbc_encrypt key iv plaintext)

  unfoldable pub aes_cbc_decrypt_unpadded : List ℕ → List ℕ → List ℕ → Result (List ℕ)
  unfolding validate
  aes_cbc_decrypt_unpadded ciphertext key iv = do
    validate key iv
    require (length ciphertext % aes_block_size == 0) value_error
    ok (c.cbc_decrypt key iv ciphertext)

  -- f",ID:{command_id}-SEQ:{sequence}-RPC:{rpc_type}" behind the prefix.
  unfoldable pub derive_rpc_key : List ℕ → ℕ → ℕ → ℕ → List ℕ
  derive_rpc_key prefix sequence command_id rpc_type = c.md5_hexdigest (
      prefix
      ++ (codes ",ID:"
          ++ (decimal command_id
              ++ (codes "-SEQ:" ++ (decimal sequence ++ (codes "-RPC:" ++ decimal rpc_type))))))

  -- f",AVSeq:{sequence}-TT:{timestamp}-AVChannel:{channel}" behind the prefix.
  unfoldable pub derive_av_key : List ℕ → ℕ → ℕ → ℕ → List ℕ
  derive_av_key prefix sequence timestamp channel = c.md5_hexdigest (
      prefix
      ++ (codes ",AVSeq:"
          ++ (decimal sequence
              ++ (codes "-TT:"
                  ++ (decimal timestamp ++ (codes "-AVChannel:" ++ decimal channel))))))
