-- ===== src/Protobuf/Fields.antt =====
-- `_first_varint_field` and `_first_bytes_field` against the list of fields that a message holds.
use ino_a9_local_bridge.Base.{
  ℕ, zero, suc, ◌+◌, ◌*◌, ◌^◌, ◌≤◌, ◌<◌, ◌≡◌, refl, ap, ◌∙◌, List, [], ◌∷◌, ◌++◌, arith,
}
use ino_a9_local_bridge.Base.Tests.{le→ltb, ◌==◌, if◌then◌else◌}
use ino_a9_local_bridge.Base.Lists.{length, length-append, length-drop, drop, drop_past}
use ino_a9_local_bridge.Base.Bits.{bit_and_7}
use ino_a9_local_bridge.Base.Except.{Result, ok, err, camera_error}
use ino_a9_local_bridge.Varint.{encode_varint}
use ino_a9_local_bridge.Varint.Encode.{encode_varint_pos}
use ino_a9_local_bridge.Protobuf.{varint_field_loop, first_varint_field}
use ino_a9_local_bridge.Protobuf.Decode.{decode_field_varint-encode_varint}

-- A message of varint fields, each a field number and a value.
abbrev pub Fields : Type 0
Fields = List (ℕ × ℕ)

abbrev pub encode_fields : Fields → List ℕ
encode_fields [] = []
encode_fields ((n, v) ∷ fields) = encode_varint (n * 8) ++ (encode_varint v ++ encode_fields fields)

-- The first field of a number, or the error for a message without it.
abbrev pub find_field : ℕ → Fields → Result ℕ
find_field number [] = err camera_error
find_field number ((n, v) ∷ fields) = if n == number then ok v else find_field number fields

-- Tags and values that the ten bytes of a varint hold.
abbrev pub AreWide : Fields → Type 0
AreWide [] = Unit
AreWide ((n, v) ∷ fields) = (n * 8 < 2 ^ 70) × (v < 2 ^ 70) × AreWide fields

module _ (payload : List ℕ) (number offset : ℕ) where
  loop_end :
      (fuel : ℕ)
      → drop offset payload ≡ []
      → varint_field_loop fuel payload number offset ≡ err camera_error
  unfolding varint_field_loop
  loop_end zero e =
      rw (le→ltb offset (length payload) (omega (arith, ap length e, length-drop offset payload)))
  loop_end (suc fuel) e = rw (
    le→ltb offset (length payload) (omega (arith, ap length e, length-drop offset payload)),
    varint_field_loop,
  )

  -- One round over a field that stands at the cursor.
  loop_field :
      (fuel n v : ℕ) (rest : List ℕ)
      → n * 8 < 2 ^ 70
      → v < 2 ^ 70
      → drop offset payload ≡ encode_varint (n * 8) ++ (encode_varint v ++ rest)
      → varint_field_loop (suc fuel) payload number offset ≡ (
          if n == number
          then ok v
          else varint_field_loop fuel payload number
              (offset + length (encode_varint (n * 8)) + length (encode_varint v)))
  unfolding varint_field_loop
  loop_field fuel n v rest hn hv at =
      let before : offset < length payload = omega (
        arith,
        ap length at,
        length-drop offset payload,
        length-append (encode_varint (n * 8)) (encode_varint v ++ rest),
        encode_varint_pos (n * 8),
      ) in
      let e1 = decode_field_varint-encode_varint (n * 8) payload offset _ hn at in
      let at' = drop_past payload offset (encode_varint (n * 8)) at in
      let e2 =
        decode_field_varint-encode_varint v payload (offset + length (encode_varint (n * 8))) rest
          hv at' in
      ground (arith, e1, e2, bit_and_7 (n * 8))

fields_loop :
    (fuel : ℕ) (payload : List ℕ) (number offset : ℕ) (fields : Fields)
    → AreWide fields
    → length (encode_fields fields) ≤ fuel
    → drop offset payload ≡ encode_fields fields
    → varint_field_loop fuel payload number offset ≡ find_field number fields
fields_loop fuel payload number offset [] w h at = loop_end payload number offset fuel at
fields_loop zero payload number offset ((n, v) ∷ fields) w h at = absurd (
    omega (
      arith,
      length-append (encode_varint (n * 8)) (encode_varint v ++ encode_fields fields),
      encode_varint_pos (n * 8),
    ))
fields_loop (suc fuel) payload number offset ((n, v) ∷ fields) (hn, hv, w) h at =
    let at' = drop_past payload offset (encode_varint (n * 8)) at in
    let at'' = drop_past payload (offset + length (encode_varint (n * 8))) (encode_varint v) at' in
    let shorter : length (encode_fields fields) ≤ fuel = omega (
      arith,
      length-append (encode_varint (n * 8)) (encode_varint v ++ encode_fields fields),
      length-append (encode_varint v) (encode_fields fields),
      encode_varint_pos (n * 8),
    ) in
    loop_field payload number offset fuel n v (encode_fields fields) hn hv at
    ∙ ap (λ r. if n == number then ok v else r)
        (fields_loop fuel payload number _ fields w shorter at'')

-- On a message of varint fields whose tags and values fit ten bytes, `_first_varint_field` returns
-- the value of the first field with the number, and raises `CameraError` where there is none.
pub first_varint_field-encode_fields :
    (number : ℕ) (fields : Fields)
    → AreWide fields
    → first_varint_field (encode_fields fields) number ≡ find_field number fields
unfolding first_varint_field
first_varint_field-encode_fields number fields w =
    fields_loop _ (encode_fields fields) number 0 fields w (omega arith) refl
