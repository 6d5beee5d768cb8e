-- ===== src/Protobuf/Examples.antt =====
-- Small messages and the time messages that the camera and the bridge exchange.
use ino_a9_local_bridge.Base.{◌≡◌, [], ◌∷◌, arith}
use ino_a9_local_bridge.Base.Except.{ok}
use ino_a9_local_bridge.Varint.{decode_varint}
use ino_a9_local_bridge.Protobuf.{decode_field_varint, first_varint_field}
use ino_a9_local_bridge.Protobuf.Decode.{as_camera_error, decode_field_varint-decode_varint}
use ino_a9_local_bridge.Protobuf.Fields.{
  Fields, encode_fields, AreWide, first_varint_field-encode_fields,
}

abbrev audio_fields : Fields
audio_fields = (5, 21) ∷ (6, 8000) ∷ []

audio-AreWide : AreWide audio_fields
audio-AreWide = (omega arith, omega arith, (omega arith, omega arith, tt))

decode_field_varint-decode_varint_example :
    decode_field_varint (0xac ∷ 2 ∷ []) 0 ≡ as_camera_error (decode_varint (0xac ∷ 2 ∷ []) 0 10)
decode_field_varint-decode_varint_example = decode_field_varint-decode_varint (0xac ∷ 2 ∷ []) 0

abbrev time_fields : Fields
time_fields = (1, 99) ∷ []

time_asked : first_varint_field (encode_fields time_fields) 1 ≡ ok 99
time_asked = first_varint_field-encode_fields 1 time_fields (omega arith, omega arith, tt)
