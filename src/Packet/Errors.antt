-- ===== src/Packet/Errors.antt =====
-- The only exception that the parsers of pprpc.py raise is `PacketError`.
use ino_a9_local_bridge.Base.{ℕ, ◌≡◌, refl, List, Option, none, some, Bool}
use ino_a9_local_bridge.Base.Lists.{get_elem?}
use ino_a9_local_bridge.Base.Except.{PacketFault}
use ino_a9_local_bridge.Base.Raises.{Raises, IsPacketError, raising, ok-Raises, err-Raises}
use ino_a9_local_bridge.Varint.Errors.{decode_varint-Raises}
use ino_a9_local_bridge.Packet.{
  FixedHeader, byte_at, parse_fixed_header, parse_rpc, parse_av, parse_body, parse_packet,
  parse_response_code,
}

byte_at-Raises :
    (bytes : List ℕ) (offset : ℕ) (f : PacketFault) → Raises IsPacketError (byte_at bytes offset f)
byte_at-Raises bytes offset f = go (get_elem? bytes offset) refl
  where
    go : (o : Option ℕ) → get_elem? bytes offset ≡ o → Raises IsPacketError (byte_at bytes offset f)
    go none q = rw (q, byte_at) (err-Raises _ tt)
    go (some b) q = rw (q, byte_at) (ok-Raises b)

ruleset packet_raising = (raising, byte_at-Raises, decode_varint-Raises)

pub parse_fixed_header-Raises :
    (bytes : List ℕ) (udp : Option Bool) → Raises IsPacketError (parse_fixed_header bytes udp)
unfolding parse_fixed_header
parse_fixed_header-Raises bytes udp = search packet_raising depth 20

parse_response_code-Raises :
    (t : ℕ) (body : List ℕ) (cursor : ℕ) → Raises IsPacketError (parse_response_code t body cursor)
unfolding parse_response_code
parse_response_code-Raises t body cursor = search packet_raising depth 20

parse_rpc-Raises : (h : FixedHeader) (body : List ℕ) → Raises IsPacketError (parse_rpc h body)
unfolding parse_rpc
parse_rpc-Raises h body = search (packet_raising, parse_response_code-Raises) depth 20

parse_av-Raises : (h : FixedHeader) (body : List ℕ) → Raises IsPacketError (parse_av h body)
unfolding parse_av
parse_av-Raises h body = search packet_raising depth 20

parse_body-Raises : (h : FixedHeader) (body : List ℕ) → Raises IsPacketError (parse_body h body)
unfolding parse_body
parse_body-Raises h body = search (packet_raising, parse_rpc-Raises, parse_av-Raises) depth 20

-- On any bytes, `parse_packet` returns a packet or raises `PacketError`, and nothing else.
pub parse_packet-Raises :
    (bytes : List ℕ) (udp : Option Bool) (exact : Bool)
    → Raises IsPacketError (parse_packet bytes udp exact)
unfolding parse_packet
parse_packet-Raises bytes udp exact =
    search (packet_raising, parse_fixed_header-Raises, parse_body-Raises) depth 20
