-- ===== src/Packet/Layout.antt =====
-- The parsers on bytes that are laid out as a sender writes them.
use ino_a9_local_bridge.Base.{
  ℕ, ◌+◌, ◌/◌, ◌%◌, ◌^◌, ◌≤◌, ◌<◌, ◌≡◌, refl, ap, ap₂, ◌∙◌, List, [], ◌∷◌, ◌++◌, Option, none, some,
  Bool, false, ◌⊎◌, arith, inl, inr,
}
use ino_a9_local_bridge.Base.Tests.{◌==◌, if◌then◌else◌, Bool-cases}
use ino_a9_local_bridge.Base.Lists.{
  length, length-append, take, drop, drop_past, drop_next, get_elem?_here, take_all,
}
use ino_a9_local_bridge.Base.Slices.{slice}
use ino_a9_local_bridge.Base.Bits.{bit_and_3, bit_and_15}
use ino_a9_local_bridge.Base.Except.{ok}
use ino_a9_local_bridge.Varint.{encode_varint}
use ino_a9_local_bridge.Varint.RoundTrip.{decode_varint-encode_varint}
use ino_a9_local_bridge.Packet.{
  FixedHeader, RpcPacket, rpc, parse_rpc, parse_body, parse_packet, parse_fixed_header,
  parse_response_code,
}

-- A number that fits the four groups of seven bits that the parsers read.
abbrev pub IsShort : ℕ → Type 0
IsShort n = n < 128 ^ 4

-- The code's field of the body, and what the parser makes of it.
abbrev pub code_bytes : ℕ → ℕ → List ℕ
code_bytes rpc_type code = if rpc_type == 1 then encode_varint code else []

abbrev pub code_read : ℕ → ℕ → Option ℕ
code_read rpc_type code = if rpc_type == 1 then some code else none

module _ (body : List ℕ) (cursor t code : ℕ) (payload : List ℕ) where
  response_code_layout :
      t ≤ 1
      → IsShort code
      → drop cursor body ≡ code_bytes t code ++ payload
      → parse_response_code t body cursor
        ≡ ok (code_read t code, cursor + length (code_bytes t code))
  unfolding parse_response_code
  response_code_layout h hc at = elim (Bool-cases (t == 1)) [
    | inl e ↦
        rw e (rw (decode_varint-encode_varint 3 code body cursor payload hc (rw e at at)) refl)
    | inr e ↦ rw e (ap (λ (n : ℕ). ok (none, n)) (omega arith))
  ]

module _ (h : FixedHeader) (sequence command_id flags code : ℕ) (payload : List ℕ) where
  abbrev pub layout : List ℕ
  layout =
      encode_varint sequence
      ++ (encode_varint command_id ++ (flags ∷ (code_bytes (flags % 4) code ++ payload)))

  -- A body of a request or a response, field by field.
  pub parse_rpc-layout :
      IsShort sequence
      → IsShort command_id
      → IsShort code
      → flags % 4 ≤ 1
      → parse_rpc h layout
        ≡ ok (record {
          header = h;
          sequence = sequence;
          command_id = command_id;
          encryption_type = flags / 4;
          rpc_type = flags % 4;
          response_code = code_read (flags % 4) code;
          payload = payload;
        })
  unfolding parse_rpc
  parse_rpc-layout hs hc hk ht =
      let c1 : ℕ = 0 + length (encode_varint sequence) in
      let c2 = c1 + length (encode_varint command_id) in
      let d1 = drop_past layout 0 (encode_varint sequence) refl in
      let d2 = drop_past layout c1 (encode_varint command_id) d1 in
      let e1 = decode_varint-encode_varint 3 sequence layout 0 _ hs refl in
      let e2 = decode_varint-encode_varint 3 command_id layout c1 _ hc d1 in
      let e3 = get_elem?_here layout c2 d2 in
      let d3 = drop_next layout c2 d2 in
      let e4 = response_code_layout layout (c2 + 1) (flags % 4) code payload ht hk d3 in
      let d4 = drop_past layout (c2 + 1) (code_bytes (flags % 4) code) d3 in
      ground (arith, e1, e2, e3, e4, d4, bit_and_3 flags)

-- A packet that starts with the byte `first` and declares the length of its body.
module _ (first : ℕ) (body : List ℕ) where
  abbrev pub framed : List ℕ
  framed = first ∷ (encode_varint (length body) ++ body)

  abbrev pub framed_header : FixedHeader
  framed_header = record {
    message_type = first / 16;
    flag = first % 16;
    body_length = length body;
    is_udp = false;
    size = 1 + length (encode_varint (length body));
  }

  -- The parser finds the header and hands the body on, if the type and the flag are known and the
  -- length fits its field.
  pub parse_packet-framed :
      (exact : Bool)
      → 3 ≤ first / 16
      → first / 16 ≤ 8
      → 8 ≤ first % 16
      → first % 16 ≤ 10
      → IsShort (length body)
      → parse_packet framed (some false) exact ≡ parse_body framed_header body
  unfolding parse_packet parse_fixed_header
  parse_packet-framed exact t1 t2 f1 f2 short =
      let e1 = decode_varint-encode_varint 3 (length body) framed 1 body short refl in
      let d1 = drop_past framed 1 (encode_varint (length body)) {zs = body} refl in
      let whole : slice framed (1 + length (encode_varint (length body)))
            (1 + length (encode_varint (length body)) + length body)
          ≡ body =
        ap₂ take (omega arith) d1 ∙ take_all body in
      ground (arith, e1, whole, bit_and_15 first, length-append (encode_varint (length body)) body)

-- The type of an RPC message leads to the RPC parser.
pub parse_body-rpc :
    (h : FixedHeader) (body : List ℕ) (p : RpcPacket)
    → (h.message_type ≡ 4) ⊎ (h.message_type ≡ 5)
    → parse_rpc h body ≡ ok p
    → parse_body h body ≡ ok (rpc p)
unfolding parse_body
parse_body-rpc h body p t e = ground arith
