-- ===== src/Session/Attempt/Examples.antt =====
-- A camera that lets a client in and sends one chunk of sound.
use ino_a9_local_bridge.Camera.Client.Examples.{settings, world, fresh}
use native.Mathlib.Decide.{dec_le}
use ino_a9_local_bridge.Varint.{decode_loop, decode_varint, encode_loop, encode_varint}
use ino_a9_local_bridge.Crypto.{aes_cbc_decrypt_padded, derive_rpc_key, aes_cbc_encrypt_padded}
use ino_a9_local_bridge.Base.Tests.{lt_wf}
use ino_a9_local_bridge.Camera.Reassembler.{
  push, extract_g711_alaw_payload, Reassembler, reassembler,
}
use ino_a9_local_bridge.Packet.{
  parse_av, parse_rpc, parse_packet, parse_fixed_header, read_next, iter_loop, Packet, AvPacket,
  iter_tcp_packets,
}
use ino_a9_local_bridge.Camera.Client.Frames.{frames, Stream, max_frame_bytes}
use ino_a9_local_bridge.Protobuf.{
  encode_protobuf_varint, decode_field_varint, first_bytes_field, encode_protobuf_bytes,
  build_lan_auth_request,
}
use ino_a9_local_bridge.Camera.Rpc.{decrypt_rpc_payload, pack_rpc}
use ino_a9_local_bridge.Camera.Client.{close, send_request, Client}
use ino_a9_local_bridge.Camera.Client.Connect.{connect}
use ino_a9_local_bridge.Base.{ℕ, ◌≡◌, refl, List, [], ◌++◌, some, false}
use ino_a9_local_bridge.Base.Except.{ok}
use ino_a9_local_bridge.Crypto.Examples.{plain, copies}
use ino_a9_local_bridge.Camera.Client.Collects.{media}
use ino_a9_local_bridge.Camera.Client.Frames.Emits.{delivered}
use ino_a9_local_bridge.Session.Attempt.{attempt, attempt-delivered}

abbrev empty : Reassembler
empty = record {
  session_prefix = copies 32 97;
  max_frame_bytes = max_frame_bytes;
  fragments = [];
  sizes = [];
  metadata = [];
  expected_index = [];
}

abbrev stream : Stream
stream = record {
  reassembler = empty;
  activity_deadline = 104800000000;
  frame_deadline = 104100000000;
  next_heartbeat = 4700000000;
  latest_av_sequence = some 1;
}

last : Client
unfolding attempt
last = (attempt plain world settings false 1 fresh).0

goes_on : attempt plain world settings false 1 fresh ≡ (last, ok (some stream))
unfolding aes_cbc_decrypt_padded aes_cbc_encrypt_padded attempt build_lan_auth_request close connect
    dec_le decode_field_varint decode_loop decode_varint decrypt_rpc_payload derive_rpc_key
    encode_loop encode_protobuf_bytes encode_protobuf_varint encode_varint extract_g711_alaw_payload
    first_bytes_field frames iter_loop iter_tcp_packets last lt_wf pack_rpc parse_av
    parse_fixed_header parse_packet parse_rpc push read_next reassembler send_request
goes_on = refl

attempt-delivered_example :
    (bytes_read : List ℕ) × (packets : List Packet) × (handled : List AvPacket) × (prefix : List ℕ)
    × (r : Reassembler) × (last.received ≡ bytes_read)
    × (iter_tcp_packets bytes_read ≡ ok (packets, last.buffer))
    × (handled ++ media last.pending ≡ media packets)
    × (last.session_prefix ≡ some prefix)
    × (reassembler prefix max_frame_bytes ≡ ok r)
    × (last.outputs ≡ delivered plain r handled)
attempt-delivered_example = attempt-delivered plain world settings false 1 stream fresh last goes_on
