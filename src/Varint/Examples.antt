-- ===== src/Varint/Examples.antt =====
-- The number 300, which takes two bytes.
use ino_a9_local_bridge.Base.{
  ℕ, ◌+◌, ◌*◌, ◌^◌, ◌≤◌, ◌<◌, ◌≡◌, ◌≢◌, refl, List, [], ◌∷◌, ◌++◌, arith,
}
use ino_a9_local_bridge.Base.Lists.{length, All}
use ino_a9_local_bridge.Base.Except.{ok, err, packet_error, truncated_varint}
use ino_a9_local_bridge.Varint.{IsByte, decode_loop, decode_varint, encode_varint}
use ino_a9_local_bridge.Varint.Encode.{encode_varint_shape}
use ino_a9_local_bridge.Varint.Decode.{decode_varint_takes, decode_varint-append}
use ino_a9_local_bridge.Varint.RoundTrip.{decode_varint-encode_varint}

abbrev behind_a_byte : List ℕ
behind_a_byte = 7 ∷ (encode_varint 300 ++ (9 ∷ []))

abbrev written : List ℕ
written = 0xac ∷ 0x02 ∷ []

decode_varint-encode_varint_example :
    decode_varint behind_a_byte 1 4 ≡ ok (300, 1 + length (encode_varint 300))
decode_varint-encode_varint_example =
    decode_varint-encode_varint 3 300 behind_a_byte 1 (9 ∷ []) (omega arith) refl

written_decodes : decode_varint written 0 4 ≡ ok (300, 2)
unfolding decode_varint decode_loop
written_decodes = refl

decode_varint_takes_example : (0 < 2) × (2 ≤ 0 + 4) × (2 ≤ length written) × (300 < 2 ^ (7 * 4))
decode_varint_takes_example = decode_varint_takes written 0 4 300 2 written_decodes

written_complete : decode_varint written 0 4 ≢ err (packet_error truncated_varint)
unfolding decode_varint decode_loop
written_complete e = cc e

decode_varint-append_example :
    decode_varint (written ++ (0xff ∷ [])) 0 4 ≡ decode_varint written 0 4
decode_varint-append_example = decode_varint-append written (0xff ∷ []) 0 4 written_complete

encode_varint_shape_example :
    All IsByte (encode_varint 300)
    × (1 ≤ length (encode_varint 300))
    × (length (encode_varint 300) ≤ 2)
encode_varint_shape_example = encode_varint_shape 1 300 (omega arith)
