-- ===== src/Camera/Rpc.antt =====
-- `pack_rpc` and `decrypt_rpc_payload` of ino_a9_bridge/src/wificam_bridge/camera.py.
pub mod RoundTrip
pub mod Total
pub mod Examples
use ino_a9_local_bridge.Base.{
  ℕ, ◌+◌, ◌*◌, bit_or, List, [], ◌∷◌, ◌++◌, Bool, true, false, ◌||◌, not,
}
use ino_a9_local_bridge.Base.Tests.{◌==◌, if◌then◌else◌}
use ino_a9_local_bridge.Base.Lists.{length, take, is_empty}
use ino_a9_local_bridge.Base.Except.{
  Result, ok, err, value_error, camera_error, require, ◌>>=◌, ◌>>◌,
}
use ino_a9_local_bridge.Crypto.{
  Primitives, aes_cbc_encrypt_padded, aes_cbc_decrypt_padded, derive_rpc_key,
}
use ino_a9_local_bridge.Varint.{encode_varint}
use ino_a9_local_bridge.Packet.{RpcPacket}

abbrev pub aes_256_cbc : ℕ
aes_256_cbc = 3

abbrev pub rpc_request : ℕ
rpc_request = 0

abbrev pub rpc_response : ℕ
rpc_response = 1

-- The body's fields, in the order of the wire; a response alone carries a code.
pub rpc_body : ℕ → ℕ → ℕ → ℕ → List ℕ → List ℕ
rpc_body sequence command_id rpc_type response_code payload =
    encode_varint sequence
    ++ (encode_varint command_id
        ++ (bit_or (aes_256_cbc * 4) rpc_type
            ∷ ((if rpc_type == rpc_response then encode_varint response_code else []) ++ payload)))

module _ (c : Primitives) where
  -- An empty payload is not encrypted.
  pub seal : List ℕ → ℕ → ℕ → ℕ → List ℕ → Result (List ℕ)
  seal prefix sequence command_id rpc_type plaintext =
      if is_empty plaintext
      then ok []
      else let key = derive_rpc_key c prefix sequence command_id rpc_type in
        aes_cbc_encrypt_padded c plaintext key (take 16 key)

  unfoldable pub pack_rpc : ℕ → ℕ → List ℕ → List ℕ → ℕ → ℕ → Result (List ℕ)
  unfolding seal rpc_body
  pack_rpc sequence command_id plaintext prefix rpc_type response_code = do
    require (rpc_type == rpc_request || rpc_type == rpc_response) value_error
    payload ← seal prefix sequence command_id rpc_type plaintext
    let body = rpc_body sequence command_id rpc_type response_code payload
    ok (0x48 ∷ (encode_varint (length body) ++ body))

  unfoldable pub decrypt_rpc_payload : RpcPacket → List ℕ → Result (List ℕ)
  decrypt_rpc_payload packet prefix = if is_empty packet.payload then ok [] else do
    require (packet.encryption_type == aes_256_cbc) camera_error
    let key = derive_rpc_key c prefix packet.sequence packet.command_id packet.rpc_type
    aes_cbc_decrypt_padded c packet.payload key (take 16 key)
