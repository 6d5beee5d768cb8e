-- ===== src/Packet/Header.antt =====
-- `parse_fixed_header` and `parse_packet` on any input.
use ino_a9_local_bridge.Base.{
  ℕ, ◌+◌, ◌^◌, ◌≤◌, ◌<◌, ◌≡◌, refl, List, [], ◌∷◌, ◌++◌, Option, some, Bool, true, false, arith,
}
use ino_a9_local_bridge.Base.Lists.{length}
use ino_a9_local_bridge.Base.Slices.{slice}
use ino_a9_local_bridge.Base.Except.{
  ok, err, packet_error, missing_type, PacketFault, truncated_varint, >>=-eq-ok,
}
use ino_a9_local_bridge.Varint.Decode.{decode_varint_takes, decode_varint-append}
use ino_a9_local_bridge.Packet.{
  FixedHeader, Packet, parse_fixed_header, parse_body, parse_packet, asks_for_more,
}

pub record IsHeader (bytes : List ℕ) (h : FixedHeader) (offset : ℕ) : Type 0 where
  pub end : h.size ≡ offset
  pub least : 2 ≤ offset
  pub inside : offset ≤ length bytes
  pub type_low : 3 ≤ h.message_type
  pub type_high : h.message_type ≤ 8
  pub flag_low : 8 ≤ h.flag
  pub flag_high : h.flag ≤ 10
  pub short : h.body_length < 2 ^ 28

pub parse_fixed_header-IsHeader :
    (bytes : List ℕ) (udp : Option Bool) (h : FixedHeader) (o : ℕ)
    → parse_fixed_header bytes udp ≡ ok (h, o)
    → IsHeader bytes h o
unfolding parse_fixed_header
parse_fixed_header-IsHeader bytes udp h o e = ground (
  arith,
  decode_varint_takes bytes 1 4 h.body_length o,
  decode_varint_takes bytes 3 4 h.body_length o,
)

pub parse_fixed_header-append :
    (bytes more : List ℕ)
    → ((f : PacketFault)
        → parse_fixed_header bytes (some false) ≡ err (packet_error f)
        → asks_for_more f ≡ false)
    → parse_fixed_header (bytes ++ more) (some false) ≡ parse_fixed_header bytes (some false)
unfolding parse_fixed_header asks_for_more
parse_fixed_header-append [] more h = cc (h missing_type refl)
parse_fixed_header-append (b ∷ bytes) more h =
    ground (arith, decode_varint-append (b ∷ bytes) more 1 4, h truncated_varint)

-- A packet that `parse_packet` accepts with `exact` has a header, its header and its body length
-- make up the bytes exactly, and the packet is what the body parser returns on that body.
pub parse_packet-eq-ok :
    (bytes : List ℕ) (udp : Option Bool) (p : Packet)
    → parse_packet bytes udp true ≡ ok p
    → (h : FixedHeader) × (o : ℕ) × (parse_fixed_header bytes udp ≡ ok (h, o))
      × (o + h.body_length ≡ length bytes)
      × (parse_body h (slice bytes o (o + h.body_length)) ≡ ok p)
unfolding parse_packet
parse_packet-eq-ok bytes udp p e =
    let ((h, o), q, e') = >>=-eq-ok (parse_fixed_header bytes udp) _ e in
    (h, o, q, ground arith, ground arith)
