-- ===== src/Packet.antt =====
-- The packets of ino_a9_bridge/src/wificam_bridge/pprpc.py: headers, bodies and the reader of a TCP
-- stream.
pub mod Header
pub mod Errors
pub mod Layout
pub mod Stream
pub mod Examples
use mathlib.Core.Bool.{not, ◌&&◌}
use ino_a9_local_bridge.Base.{
  ℕ, zero, suc, ◌+◌, ◌-◌, ◌*◌, ◌/◌, bit_and, List, [], ◌∷◌, ◌++◌, Option, none, some, Bool, true,
  false, ◌||◌,
}
use ino_a9_local_bridge.Base.Tests.{ltb, leb, ◌==◌, if◌then◌else◌}
use ino_a9_local_bridge.Base.Lists.{length, drop, get_elem?}
use ino_a9_local_bridge.Base.Slices.{slice, starts_with, contains}
use ino_a9_local_bridge.Base.Except.{
  Result, ok, err, Exception, PacketFault, packet_error, missing_magic, missing_type,
  unsupported_type, unsupported_flag, truncated_varint, oversized_varint, truncated_packet,
  trailing_data, missing_rpc_type, unsupported_rpc_type, missing_av_bytes, out_of_fuel, require,
  ◌>>=◌, ◌>>◌,
}
use ino_a9_local_bridge.Varint.{decode_varint}
use Prim.Native.String.{String}

abbrev pub udp_magic : List ℕ
udp_magic = 0x51 ∷ 0x70 ∷ []

-- `range(3, 9)`
abbrev pub supported_type : ℕ → Bool
supported_type t = leb 3 t && ltb t 9

abbrev pub supported_flag : ℕ → Bool
supported_flag f = f == 8 || f == 9 || f == 10

pub record FixedHeader : Type 0 where
  pub message_type : ℕ
  pub flag : ℕ
  pub body_length : ℕ
  pub is_udp : Bool
  pub size : ℕ

pub record RpcPacket : Type 0 where
  pub header : FixedHeader
  pub sequence : ℕ
  pub command_id : ℕ
  pub encryption_type : ℕ
  pub rpc_type : ℕ
  pub response_code : Option ℕ
  pub payload : List ℕ

pub record AvPacket : Type 0 where
  pub header : FixedHeader
  pub is_key_frame : Bool
  pub media_format : ℕ
  pub encryption_type : ℕ
  pub channel : ℕ
  pub sequence : ℕ
  pub timestamp : ℕ
  pub encrypted_length : ℕ
  pub payload : List ℕ

pub record RawPacket : Type 0 where
  pub header : FixedHeader
  pub payload : List ℕ

pub data Packet : Type 0 where
  rpc : RpcPacket → Packet
  av : AvPacket → Packet
  raw : RawPacket → Packet

-- `data[offset]` behind a test of `offset >= len(data)` that raises `fault`.
abbrev pub byte_at : List ℕ → ℕ → PacketFault → Result ℕ
byte_at bytes offset fault = elim (get_elem? bytes offset) [
  | none ↦ err (packet_error fault)
  | some byte ↦ ok byte
]

-- `detected_udp if udp is None else udp`
abbrev pub transport : Option Bool → Bool → Bool
transport none detected = detected
transport (some udp) detected = udp

unfoldable pub parse_fixed_header : List ℕ → Option Bool → Result (FixedHeader × ℕ)
parse_fixed_header bytes udp = do
  let detected_udp = starts_with bytes udp_magic
  require (not (transport udp false && not detected_udp)) (packet_error missing_magic)
  let is_udp = transport udp detected_udp
  require (not (is_udp && not detected_udp)) (packet_error missing_magic)
  let offset : ℕ = if is_udp then 2 else 0
  type_and_flag ← byte_at bytes offset missing_type
  let message_type = type_and_flag / 16
  let flag = bit_and type_and_flag 0x0f
  require (supported_type message_type) (packet_error unsupported_type)
  require (supported_flag flag) (packet_error unsupported_flag)
  (body_length, offset') ← decode_varint bytes (offset + 1) 4
  ok (
    record {
      message_type = message_type;
      flag = flag;
      body_length = body_length;
      is_udp = is_udp;
      size = offset';
    },
    offset',
  )

-- The response code stands in responses only.
pub parse_response_code : ℕ → List ℕ → ℕ → Result (Option ℕ × ℕ)
parse_response_code rpc_type body cursor =
    if rpc_type == 1
    then (do (code, cursor') ← decode_varint body cursor 4; ok (some code, cursor'))
    else ok (none, cursor)

unfoldable pub parse_rpc : FixedHeader → List ℕ → Result RpcPacket
unfolding parse_response_code
parse_rpc header body = do
  (sequence, cursor) ← decode_varint body 0 4
  (command_id, cursor') ← decode_varint body cursor 4
  flags ← byte_at body cursor' missing_rpc_type
  let rpc_type = bit_and flags 0x03
  require (rpc_type == 0 || rpc_type == 1) (packet_error unsupported_rpc_type)
  (response_code, end) ← parse_response_code rpc_type body (cursor' + 1)
  ok (record {
    header = header;
    sequence = sequence;
    command_id = command_id;
    encryption_type = flags / 4;
    rpc_type = rpc_type;
    response_code = response_code;
    payload = drop end body;
  })

unfoldable pub parse_av : FixedHeader → List ℕ → Result AvPacket
parse_av header body = do
  format_byte ← byte_at body 0 missing_av_bytes
  encryption_type ← byte_at body 1 missing_av_bytes
  (channel, c1) ← decode_varint body 2 4
  (sequence, c2) ← decode_varint body c1 4
  (timestamp, c3) ← decode_varint body c2 9
  (encrypted_length, c4) ← decode_varint body c3 4
  ok (record {
    header = header;
    is_key_frame = not (format_byte / 128 == 0);
    media_format = bit_and format_byte 0x7f;
    encryption_type = encryption_type;
    channel = channel;
    sequence = sequence;
    timestamp = timestamp;
    encrypted_length = encrypted_length;
    payload = drop c4 body;
  })

-- The body goes to the parser of its message type.
pub parse_body : FixedHeader → List ℕ → Result Packet
parse_body header body =
    if header.message_type == 4 || header.message_type == 5
    then (do p ← parse_rpc header body; ok (rpc p))
    else if header.message_type == 6
    then (do p ← parse_av header body; ok (av p))
    else ok (raw (record { header = header; payload = body }))

unfoldable pub parse_packet : List ℕ → Option Bool → Bool → Result Packet
unfolding parse_body
parse_packet bytes udp exact = do
  (header, offset) ← parse_fixed_header bytes udp
  let end = offset + header.body_length
  require (leb end (length bytes)) (packet_error truncated_packet)
  require (not (exact && not (end == length bytes))) (packet_error trailing_data)
  parse_body header (slice bytes offset end)

-- The texts of the errors, without the numbers that some of them end in.
message : PacketFault → String
message truncated_varint = "truncated varint"
message oversized_varint = "varint exceeds supported size"
message missing_magic = "missing UDP magic 0x5170"
message missing_type = "missing type/flag byte"
message unsupported_type = "unsupported message type "
message unsupported_flag = "unsupported flag "
message truncated_packet = "truncated packet: declared "
message trailing_data = "trailing data: "
message missing_rpc_type = "RPC packet missing encryption/type byte"
message unsupported_rpc_type = "unsupported RPC type "
message missing_av_bytes = "AV packet missing format/encryption bytes"

-- `"truncated" in str(error) or "missing" in str(error)`
pub asks_for_more : PacketFault → Bool
unfolding message
asks_for_more fault = contains "truncated" (message fault) || contains "missing" (message fault)

-- One round of `iter_tcp_packets`: it leaves the loop, raises, or appends a packet of some size.
pub data Next : Type 0 where
  incomplete : Next
  broken : Exception → Next
  complete : Packet → ℕ → Next

appended : ℕ → Result Packet → Next
appended size (ok packet) = complete packet size
appended size (err e) = broken e

-- The `except PacketError` clause, and what follows a header that was read.
after_header : List ℕ → ℕ → Result (FixedHeader × ℕ) → Next
unfolding appended
after_header bytes offset (err (packet_error fault)) =
    if asks_for_more fault then incomplete else broken (packet_error fault)
after_header bytes offset (err e) = broken e
after_header bytes offset (ok (header, body_offset)) =
    let packet_size = body_offset + header.body_length in
    if ltb (length bytes - offset) packet_size
    then incomplete
    else appended packet_size
        (parse_packet (slice bytes offset (offset + packet_size)) (some false) true)

unfoldable pub read_next : List ℕ → ℕ → Next
unfolding after_header
read_next bytes offset =
    after_header bytes offset (parse_fixed_header (drop offset bytes) (some false))

-- `while offset < len(data)`; the first argument bounds the rounds.
unfoldable pub iter_loop : ℕ → List ℕ → ℕ → List Packet → Result (List Packet × List ℕ)
iter_loop zero bytes offset packets =
    if ltb offset (length bytes) then err out_of_fuel else ok (packets, drop offset bytes)
iter_loop (suc fuel) bytes offset packets = elim (ltb offset (length bytes)) [
  | false ↦ ok (packets, drop offset bytes)
  | true ↦ elim (read_next bytes offset) [
    | incomplete ↦ ok (packets, drop offset bytes)
    | broken e ↦ err e
    | complete packet size ↦ iter_loop fuel bytes (offset + size) (packets ++ (packet ∷ []))
  ]
]

-- Each round takes a byte at least, so as many rounds as bytes are enough.
unfoldable pub iter_tcp_packets : List ℕ → Result (List Packet × List ℕ)
iter_tcp_packets bytes = iter_loop (length bytes) bytes 0 []
