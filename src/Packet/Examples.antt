-- ===== src/Packet/Examples.antt =====
-- Two small commands as they cross the wire.
use ino_a9_local_bridge.Base.{ℕ, ◌≡◌, refl, List, [], ◌∷◌, ◌++◌, none, some, true, false}
use ino_a9_local_bridge.Base.Except.{ok, err, packet_error, unsupported_type}
use ino_a9_local_bridge.Base.Raises.{Raises, IsPacketError}
use ino_a9_local_bridge.Varint.{decode_loop, decode_varint}
use ino_a9_local_bridge.Packet.{
  FixedHeader, Packet, rpc, parse_fixed_header, parse_packet, parse_body, parse_rpc,
  parse_response_code, asks_for_more, message, read_next, after_header, appended, iter_loop,
  iter_tcp_packets,
}
use ino_a9_local_bridge.Packet.Errors.{parse_packet-Raises}
use ino_a9_local_bridge.Packet.Stream.{prepend}
use ino_a9_local_bridge.Packet.Stream.Chunks.{iter_tcp_packets-append, iter_tcp_packets-append_err}
use ino_a9_local_bridge.Packet.Stream.Frames.{
  Framed, iter_tcp_packets-Framed, iter_tcp_packets-Raises,
}

abbrev command_bytes : List ℕ
command_bytes = 0x48 ∷ 3 ∷ 1 ∷ 5 ∷ 0 ∷ []

abbrev command_header : FixedHeader
command_header = record { message_type = 4; flag = 8; body_length = 3; is_udp = false; size = 2 }

abbrev command : Packet
command = rpc (record {
  header = command_header;
  sequence = 1;
  command_id = 5;
  encryption_type = 0;
  rpc_type = 0;
  response_code = none;
  payload = [];
})

-- A whole command and the beginning of the next.
abbrev received : List ℕ
received = 0x48 ∷ 3 ∷ 1 ∷ 5 ∷ 0 ∷ 0x48 ∷ 3 ∷ []

abbrev begun : List ℕ
begun = 0x48 ∷ 3 ∷ []

abbrev following : List ℕ
following = 2 ∷ 5 ∷ 0 ∷ []

command_parses : parse_packet command_bytes (some false) true ≡ ok command
unfolding parse_packet parse_fixed_header parse_body parse_rpc parse_response_code decode_varint
    decode_loop
command_parses = refl

received_parses : iter_tcp_packets received ≡ ok (command ∷ [], begun)
unfolding iter_tcp_packets iter_loop read_next after_header appended asks_for_more message
    parse_packet parse_fixed_header parse_body parse_rpc parse_response_code decode_varint
    decode_loop
received_parses = refl

broken_raises : iter_tcp_packets (0x18 ∷ 3 ∷ []) ≡ err (packet_error unsupported_type)
unfolding iter_tcp_packets iter_loop read_next after_header appended asks_for_more message
    parse_fixed_header decode_varint decode_loop
broken_raises = refl

iter_tcp_packets-append_example :
    iter_tcp_packets (received ++ following)
    ≡ prepend (command ∷ []) (iter_tcp_packets (begun ++ following))
iter_tcp_packets-append_example =
    iter_tcp_packets-append received following (command ∷ []) begun received_parses

iter_tcp_packets-append_err_example :
    iter_tcp_packets ((0x18 ∷ 3 ∷ []) ++ following) ≡ err (packet_error unsupported_type)
iter_tcp_packets-append_err_example =
    iter_tcp_packets-append_err (0x18 ∷ 3 ∷ []) following (packet_error unsupported_type)
      broken_raises

iter_tcp_packets-Framed_example : Framed begun received (command ∷ [])
iter_tcp_packets-Framed_example =
    iter_tcp_packets-Framed received (command ∷ []) begun received_parses

iter_tcp_packets-Raises_example : Raises IsPacketError (iter_tcp_packets (0x18 ∷ 3 ∷ []))
iter_tcp_packets-Raises_example = iter_tcp_packets-Raises (0x18 ∷ 3 ∷ [])

parse_packet-Raises_example : Raises IsPacketError (parse_packet following none true)
parse_packet-Raises_example = parse_packet-Raises following none true
