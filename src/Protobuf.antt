-- ===== src/Protobuf.antt =====
-- The protobuf fields of ino_a9_bridge/src/wificam_bridge/camera.py: `encode_protobuf_varint`,
-- `encode_protobuf_bytes`, `_decode_varint`, `_first_varint_field`, `_first_bytes_field`, and the
-- time messages built from them.
pub mod Decode
pub mod Fields
pub mod Time
pub mod Total
pub mod Examples
use Prim.Native.Nat.{◌-◌}
use ino_a9_local_bridge.Base.{
  ℕ, zero, suc, ◌+◌, ◌*◌, ◌/◌, ◌%◌, ◌^◌, bit_and, bit_or, List, [], ◌∷◌, ◌++◌, Option, none, some,
  Bool, true, false, not,
}
use ino_a9_local_bridge.Base.Tests.{ltb, leb, ◌==◌, if◌then◌else◌}
use ino_a9_local_bridge.Base.Lists.{length, get_elem?}
use ino_a9_local_bridge.Base.Slices.{slice}
use ino_a9_local_bridge.Base.Int.{ℤ, pos, negsuc}
use ino_a9_local_bridge.Base.Except.{
  Result, ok, err, value_error, camera_error, out_of_fuel, require, ◌>>=◌, ◌>>◌,
}
use ino_a9_local_bridge.Varint.{encode_varint, add_group}

-- `value & ((1 << 64) - 1)`: the bit pattern of an int64.
abbrev pub to_word : ℤ → ℕ
to_word (pos n) = n % 2 ^ 64
to_word (negsuc n) = 2 ^ 64 - 1 - n % 2 ^ 64

-- `if field_number <= 0: raise ValueError`
abbrev pub positive : ℤ → Result ℕ
positive (pos zero) = err value_error
positive (pos (suc n)) = ok (suc n)
positive (negsuc n) = err value_error

unfoldable pub encode_protobuf_varint : ℤ → ℤ → Result (List ℕ)
encode_protobuf_varint field_number value = do
  number ← positive field_number
  ok (encode_varint (number * 8) ++ encode_varint (to_word value))

unfoldable pub encode_protobuf_bytes : ℤ → List ℕ → Result (List ℕ)
encode_protobuf_bytes field_number value = do
  number ← positive field_number
  ok (encode_varint (bit_or (number * 8) 2) ++ (encode_varint (length value) ++ value))

-- `for shift in range(0, 70, 7)`: the first argument is how many shifts are left.
decode_shifts : ℕ → List ℕ → ℕ → ℕ → ℕ → Result (ℕ × ℕ)
decode_shifts zero bytes offset value shift = err camera_error
decode_shifts (suc left) bytes offset value shift = elim (get_elem? bytes offset) [
  | none ↦ err camera_error
  | some byte ↦
      let value' = bit_or value (bit_and byte 0x7f * 2 ^ shift) in
      let more = decode_shifts left bytes (offset + 1) value' (shift + 7) in
      if ltb byte 0x80 then ok (value', offset + 1) else more
]

-- `_decode_varint`
unfoldable pub decode_field_varint : List ℕ → ℕ → Result (ℕ × ℕ)
unfolding decode_shifts
decode_field_varint bytes offset = decode_shifts 10 bytes offset 0 0

-- `while offset < len(payload)`; the first argument bounds the rounds.
varint_field_loop : ℕ → List ℕ → ℕ → ℕ → Result ℕ
varint_field_loop zero payload field_number offset =
    if ltb offset (length payload) then err out_of_fuel else err camera_error
varint_field_loop (suc fuel) payload field_number offset = elim (ltb offset (length payload)) [
  | false ↦ err camera_error
  | true ↦ do
    (tag, offset') ← decode_field_varint payload offset
    require (bit_and tag 7 == 0) camera_error
    (value, offset'') ← decode_field_varint payload offset'
    let rest = varint_field_loop fuel payload field_number offset''
    if tag / 8 == field_number then ok value else rest
]

-- Each round takes two bytes at least.
pub first_varint_field : List ℕ → ℕ → Result ℕ
first_varint_field payload field_number = varint_field_loop (length payload) payload field_number 0

bytes_field_loop : ℕ → List ℕ → ℕ → ℕ → Result (List ℕ)
bytes_field_loop zero payload field_number offset =
    if ltb offset (length payload) then err out_of_fuel else err camera_error
bytes_field_loop (suc fuel) payload field_number offset = elim (ltb offset (length payload)) [
  | false ↦ err camera_error
  | true ↦ do
    (tag, offset') ← decode_field_varint payload offset
    require (bit_and tag 7 == 2) camera_error
    (size, offset'') ← decode_field_varint payload offset'
    let end = offset'' + size
    require (leb end (length payload)) camera_error
    let rest = bytes_field_loop fuel payload field_number end
    if tag / 8 == field_number then ok (slice payload offset'' end) else rest
]

unfoldable pub first_bytes_field : List ℕ → ℕ → Result (List ℕ)
unfolding bytes_field_loop
first_bytes_field payload field_number = bytes_field_loop (length payload) payload field_number 0

-- The texts of the credentials as their UTF-8 bytes.
unfoldable pub build_lan_auth_request : List ℕ → List ℕ → Result (List ℕ)
build_lan_auth_request user lan_password = do
  f2 ← encode_protobuf_bytes (pos 2) user
  f3 ← encode_protobuf_bytes (pos 3) lan_password
  ok (f2 ++ f3)

-- `current` is the clock's reading in milliseconds.
pub build_time_sync_response : List ℕ → ℤ → Result (List ℕ)
build_time_sync_response request_payload current = do
  request_timestamp ← first_varint_field request_payload 1
  f1 ← encode_protobuf_varint (pos 1) (pos request_timestamp)
  f2 ← encode_protobuf_varint (pos 2) (negsuc 29)
  f3 ← encode_protobuf_varint (pos 3) current
  ok (f1 ++ (f2 ++ f3))

abbrev pub non_negative : ℤ → Result ℕ
non_negative (pos n) = ok n
non_negative (negsuc n) = err value_error

-- `if ans_seq is not None and …`
abbrev pub non_negative? : Option ℤ → Result (Option ℕ)
non_negative? none = ok none
non_negative? (some z) = do n ← non_negative z; ok (some n)

acknowledgement : Option ℕ → Result (List ℕ)
acknowledgement none = ok []
acknowledgement (some n) = encode_protobuf_varint (pos 4) (pos n)

pub build_time_request_payload : ℤ → Option ℤ → Result (List ℕ)
unfolding acknowledgement
build_time_request_payload now_ms ans_seq = do
  now ← non_negative now_ms
  sequence ← non_negative? ans_seq
  payload ← encode_protobuf_varint (pos 1) (pos now)
  ack ← acknowledgement sequence
  ok (payload ++ ack)
