-- ===== src/Camera/Rpc/Total.antt =====
-- Packing and opening a payload raise only what the code raises.
use ino_a9_local_bridge.Base.{ℕ, List, [], Option, none, some, ◌||◌}
use ino_a9_local_bridge.Base.Tests.{◌==◌}
use ino_a9_local_bridge.Base.Lists.{length, take, is_empty}
use ino_a9_local_bridge.Base.Except.{ok, value_error, camera_error}
use ino_a9_local_bridge.Base.Raises.{
  Raises, IsPython, ok-Raises, err-Raises, >>=-Raises, require-Raises, require-then-Raises,
  if_Raises,
}
use ino_a9_local_bridge.Crypto.{
  Primitives, validate, unpadded, aes_cbc_encrypt_padded, aes_cbc_decrypt_padded, is_key_size,
  aes_block_size, derive_rpc_key,
}
use ino_a9_local_bridge.Packet.{RpcPacket}
use ino_a9_local_bridge.Camera.Rpc.{
  pack_rpc, seal, decrypt_rpc_payload, rpc_request, rpc_response, aes_256_cbc,
}

validate-Raises : (key iv : List ℕ) → Raises IsPython (validate key iv)
unfolding validate
validate-Raises key iv =
    require-then-Raises (is_key_size (length key)) value_error _ tt
      (require-Raises (length iv == aes_block_size) value_error tt)

module _ (c : Primitives) where
  seal-Raises :
      (prefix plaintext : List ℕ) (sequence command_id t : ℕ)
      → Raises IsPython (seal c prefix sequence command_id t plaintext)
  unfolding seal aes_cbc_encrypt_padded
  seal-Raises prefix plaintext sequence command_id t =
      let key = derive_rpc_key c prefix sequence command_id t in
      if_Raises (is_empty plaintext) (ok []) _ (ok-Raises []) (
        >>=-Raises (validate key (take 16 key)) _ (validate-Raises key (take 16 key))
          λ _. ok-Raises _)

  pub pack_rpc-Raises :
      (sequence command_id t code : ℕ) (plaintext prefix : List ℕ)
      → Raises IsPython (pack_rpc c sequence command_id plaintext prefix t code)
  unfolding pack_rpc
  pack_rpc-Raises sequence command_id t code plaintext prefix =
      require-then-Raises (t == rpc_request || t == rpc_response) value_error _ tt (
        >>=-Raises (seal c prefix sequence command_id t plaintext) _
          (seal-Raises prefix plaintext sequence command_id t) λ payload. ok-Raises _)

  unpadded-Raises : (text : Option (List ℕ)) → Raises IsPython (unpadded text)
  unpadded-Raises none = err-Raises value_error tt
  unpadded-Raises (some text) = ok-Raises text

  pub decrypt_rpc_payload-Raises :
      (p : RpcPacket) (prefix : List ℕ) → Raises IsPython (decrypt_rpc_payload c p prefix)
  unfolding decrypt_rpc_payload aes_cbc_decrypt_padded
  decrypt_rpc_payload-Raises p prefix =
      let key = derive_rpc_key c prefix p.sequence p.command_id p.rpc_type in
      if_Raises (is_empty p.payload) (ok []) _ (ok-Raises []) (
        require-then-Raises (p.encryption_type == aes_256_cbc) camera_error _ tt (
          >>=-Raises (validate key (take 16 key)) _ (validate-Raises key (take 16 key))
            λ _. require-then-Raises _ value_error _ tt (unpadded-Raises _)))
