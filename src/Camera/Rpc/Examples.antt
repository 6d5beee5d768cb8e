-- ===== src/Camera/Rpc/Examples.antt =====
-- A request without a payload, and a response with one.
use ino_a9_local_bridge.Base.{ℕ, ◌≡◌, refl, List, [], ◌∷◌, some, true, false, arith}
use ino_a9_local_bridge.Base.Except.{ok}
use ino_a9_local_bridge.Crypto.{aes_cbc_decrypt_padded, validate, derive_rpc_key}
use ino_a9_local_bridge.Crypto.Examples.{plain, copies, padded}
use ino_a9_local_bridge.Varint.Encode.{encode_varint_small}
use ino_a9_local_bridge.Packet.{RpcPacket, rpc, parse_packet}
use ino_a9_local_bridge.Packet.Layout.{code_read}
use ino_a9_local_bridge.Commands.Response.{encode_message}
use ino_a9_local_bridge.Commands.Examples.{reported}
use ino_a9_local_bridge.Camera.Rpc.{pack_rpc, rpc_body, seal, decrypt_rpc_payload}
use ino_a9_local_bridge.Camera.Rpc.RoundTrip.{parse_packet-pack_rpc}

abbrev request_bytes : List ℕ
request_bytes = 0x48 ∷ 3 ∷ 7 ∷ 9 ∷ 12 ∷ []

abbrev pub prefix : List ℕ
prefix = copies 4 65

request_packs : pack_rpc plain 7 9 [] prefix 0 0 ≡ ok request_bytes
unfolding pack_rpc rpc_body seal
request_packs =
    rw
      (
        encode_varint_small 7 (omega arith),
        encode_varint_small 9 (omega arith),
        encode_varint_small 3 (omega arith),
      )
      refl

parse_packet-pack_rpc_example :
    (p : RpcPacket) × (parse_packet request_bytes (some false) true ≡ ok (rpc p))
    × (p.sequence ≡ 7)
    × (p.command_id ≡ 9)
    × (p.rpc_type ≡ 0)
    × (p.response_code ≡ code_read 0 0)
    × (decrypt_rpc_payload plain p prefix ≡ ok [])
parse_packet-pack_rpc_example =
    parse_packet-pack_rpc plain 7 9 0 0 [] prefix request_bytes (omega arith) (omega arith)
      (omega arith) (omega arith) (omega arith) request_packs

-- A response that carries a message of fields under the cipher that does nothing.
abbrev pub sealed_response : RpcPacket
sealed_response = record {
  header = record { message_type = 4; flag = 8; body_length = 20; is_udp = false; size = 2 };
  sequence = 7;
  command_id = 2649;
  encryption_type = 3;
  rpc_type = 1;
  response_code = some 0;
  payload = padded (encode_message reported);
}

pub sealed_response_opens :
    decrypt_rpc_payload plain sealed_response prefix ≡ ok (encode_message reported)
unfolding decrypt_rpc_payload aes_cbc_decrypt_padded validate derive_rpc_key
sealed_response_opens =
    rw
      (
        encode_varint_small 24 (omega arith),
        encode_varint_small 70 (omega arith),
        encode_varint_small 18 (omega arith),
        encode_varint_small 2 (omega arith),
        encode_varint_small 8 (omega arith),
        encode_varint_small 4 (omega arith),
      )
      refl
