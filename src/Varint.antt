-- ===== src/Varint.antt =====
-- The protobuf-style integers of `decode_varint` and `encode_varint` in
-- ino_a9_bridge/src/wificam_bridge/pprpc.py. Bytes are a list of numbers and a cursor is an index.
pub mod Encode
pub mod Decode
pub mod RoundTrip
pub mod Errors
pub mod Examples
use mathlib.Core.Logic.{dite}
use mathlib.Core.WellFounded.{Acc}
use native.Mathlib.Decide.{dec_le}
use ino_a9_local_bridge.Base.{
  ℕ, zero, suc, ◌+◌, ◌*◌, ◌/◌, ◌%◌, ◌^◌, ◌≤◌, ◌<◌, bit_and, bit_or, List, [], ◌∷◌, ◌++◌, Option,
  none, some, arith,
}
use ino_a9_local_bridge.Base.Tests.{ltb, if◌then◌else◌, lt_wf}
use ino_a9_local_bridge.Base.Lists.{length, get_elem?}
use ino_a9_local_bridge.Base.Int.{ℤ, pos, negsuc}
use ino_a9_local_bridge.Base.Except.{
  Result, ok, err, packet_error, value_error, truncated_varint, oversized_varint,
}

abbrev pub IsByte : ℕ → Type 0
IsByte b = b < 256

abbrev pub max_varint_bytes : ℕ
max_varint_bytes = 10

-- One round of the `for` loop: `left` rounds are to come, and the byte at `offset` was found.
-- `value |= (byte & 0x7F) << (7 * index)`
abbrev pub add_group : ℕ → ℕ → ℕ → ℕ
add_group value byte index = bit_or value (bit_and byte 0x7f * 2 ^ (7 * index))

-- `index` counts up to `max_bytes`; the first argument is how many rounds are left.
unfoldable pub decode_loop : ℕ → List ℕ → ℕ → ℕ → ℕ → Result (ℕ × ℕ)
decode_loop zero bytes offset value index = err (packet_error oversized_varint)
decode_loop (suc left) bytes offset value index = elim (get_elem? bytes offset) [
  | none ↦ err (packet_error truncated_varint)
  | some byte ↦
      let value' = add_group value byte index in
      let more = decode_loop left bytes (offset + 1) value' (index + 1) in
      if ltb byte 0x80 then ok (value', offset + 1) else more
]

-- The value and the offset behind it.
unfoldable pub decode_varint : List ℕ → ℕ → ℕ → Result (ℕ × ℕ)
decode_varint bytes offset max_bytes = decode_loop max_bytes bytes offset 0 0

pub shift_shrinks : (v : ℕ) → 0x80 ≤ v → v / 128 < v
shift_shrinks v h = omega arith

-- `while value >= 0x80`; `value >>= 7` is a division by 128.
unfoldable pub encode_loop : List ℕ → (value : ℕ) → Acc ◌<◌ value → List ℕ
encode_loop output value (Acc.intro _ smaller) =
    dite (dec_le 0x80 value)
      (λ more.
        encode_loop (output ++ (bit_or (bit_and value 0x7f) 0x80 ∷ [])) (value / 128)
          (smaller _ (shift_shrinks value more)))
      (λ _. output ++ (value ∷ []))

-- `encode_varint` on the integers that it accepts.
unfoldable pub encode_varint : ℕ → List ℕ
encode_varint value = encode_loop [] value (lt_wf.apply value)

-- `encode_varint` on every integer: the sign test stands before the loop.
pub encode_int : ℤ → Result (List ℕ)
encode_int (pos value) = ok (encode_varint value)
encode_int (negsuc _) = err value_error
