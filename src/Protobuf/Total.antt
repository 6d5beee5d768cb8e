-- ===== src/Protobuf/Total.antt =====
-- The field loops end on every payload, well formed or not: their rounds never run out, and they
-- raise nothing but `CameraError`.
use native.Mathlib.Decide.{dec_lt}
use ino_a9_local_bridge.Base.{ℕ, zero, suc, ◌+◌, ◌≤◌, List, arith}
use ino_a9_local_bridge.Base.Tests.{lt→ltb, le→ltb}
use ino_a9_local_bridge.Base.Lists.{length}
use ino_a9_local_bridge.Base.Except.{Exception, camera_error, value_error}
use ino_a9_local_bridge.Base.Int.{ℤ, pos, negsuc}
use ino_a9_local_bridge.Base.Raises.{
  Raises, IsCameraError, IsPython, IsCameraError-IsPython, Raises-weaken, ok-Raises, err-Raises,
  require-then-Raises, if_Raises, >>=-Raises, >>=-Raises_eq,
}
use ino_a9_local_bridge.Protobuf.{
  varint_field_loop, first_varint_field, bytes_field_loop, first_bytes_field,
  encode_protobuf_varint, encode_protobuf_bytes, build_lan_auth_request, build_time_sync_response,
}
use ino_a9_local_bridge.Protobuf.Decode.{decode_field_varint_takes, decode_field_varint-Raises}

varint_loop-Raises :
    (fuel : ℕ) (payload : List ℕ) (number offset : ℕ)
    → length payload ≤ offset + fuel
    → Raises IsCameraError (varint_field_loop fuel payload number offset)
unfolding varint_field_loop
varint_loop-Raises zero payload number offset h =
    rw (le→ltb offset (length payload) (omega arith)) (err-Raises camera_error tt)
varint_loop-Raises (suc fuel) payload number offset h = elim (dec_lt offset (length payload)) [
  | no q ↦
      rw (le→ltb offset (length payload) (omega arith), varint_field_loop)
        (err-Raises camera_error tt)
  | yes q ↦
      rw (lt→ltb offset (length payload) q, varint_field_loop)
        (>>=-Raises_eq _ _ (decode_field_varint-Raises payload offset) (λ (tag, o1) e1.
          require-then-Raises _ camera_error _ tt (
            >>=-Raises_eq _ _ (decode_field_varint-Raises payload o1) (λ (v, o2) e2.
              if_Raises _ _ _ (ok-Raises v) (
                varint_loop-Raises fuel payload number o2 (
                  omega (
                    arith,
                    decode_field_varint_takes payload offset tag o1 e1,
                    decode_field_varint_takes payload o1 v o2 e2,
                  )))))))
]

bytes_loop-Raises :
    (fuel : ℕ) (payload : List ℕ) (number offset : ℕ)
    → length payload ≤ offset + fuel
    → Raises IsCameraError (bytes_field_loop fuel payload number offset)
unfolding bytes_field_loop
bytes_loop-Raises zero payload number offset h =
    rw (le→ltb offset (length payload) (omega arith)) (err-Raises camera_error tt)
bytes_loop-Raises (suc fuel) payload number offset h = elim (dec_lt offset (length payload)) [
  | no q ↦
      rw (le→ltb offset (length payload) (omega arith), bytes_field_loop)
        (err-Raises camera_error tt)
  | yes q ↦
      rw (lt→ltb offset (length payload) q, bytes_field_loop)
        (>>=-Raises_eq _ _ (decode_field_varint-Raises payload offset) (λ (tag, o1) e1.
          require-then-Raises _ camera_error _ tt (
            >>=-Raises_eq _ _ (decode_field_varint-Raises payload o1) (λ (size, o2) e2.
              require-then-Raises _ camera_error _ tt (
                if_Raises _ _ _ (ok-Raises _) (
                  bytes_loop-Raises fuel payload number (o2 + size) (
                    omega (
                      arith,
                      decode_field_varint_takes payload offset tag o1 e1,
                      decode_field_varint_takes payload o1 size o2 e2,
                    ))))))))
]

-- On any payload each field reader ends, with a value or with `CameraError`.
pub first_field-Raises :
    (payload : List ℕ) (number : ℕ)
    → Raises IsCameraError (first_varint_field payload number)
      × Raises IsCameraError (first_bytes_field payload number)
unfolding first_varint_field first_bytes_field
first_field-Raises payload number = (
  varint_loop-Raises (length payload) payload number 0 (omega arith),
  bytes_loop-Raises (length payload) payload number 0 (omega arith),
)

pub encode_protobuf_varint-Raises :
    {P : Exception → Type 0} (number value : ℤ)
    → P value_error
    → Raises P (encode_protobuf_varint number value)
unfolding encode_protobuf_varint
encode_protobuf_varint-Raises (pos zero) value h = err-Raises value_error h
encode_protobuf_varint-Raises (pos (suc n)) value h = ok-Raises _
encode_protobuf_varint-Raises (negsuc n) value h = err-Raises value_error h

-- The answer to a time request ends too.
pub build_time_sync_response-Raises :
    (request : List ℕ) (current : ℤ) → Raises IsPython (build_time_sync_response request current)
unfolding build_time_sync_response
build_time_sync_response-Raises request current =
    >>=-Raises _ _
      (Raises-weaken (first_varint_field request 1) IsCameraError-IsPython
        (first_field-Raises request 1).0)
      (λ t. >>=-Raises _ _ (encode_protobuf_varint-Raises (pos 1) (pos t) tt) (λ f1.
        >>=-Raises _ _ (encode_protobuf_varint-Raises (pos 2) (negsuc 29) tt) (λ f2.
          >>=-Raises _ _ (encode_protobuf_varint-Raises (pos 3) current tt) (λ f3. ok-Raises _))))

encode_protobuf_bytes-Raises :
    (number : ℤ) (value : List ℕ) → Raises IsPython (encode_protobuf_bytes number value)
unfolding encode_protobuf_bytes
encode_protobuf_bytes-Raises (pos zero) value = err-Raises value_error tt
encode_protobuf_bytes-Raises (pos (suc n)) value = ok-Raises _
encode_protobuf_bytes-Raises (negsuc n) value = err-Raises value_error tt

pub build_lan_auth_request-Raises :
    (user lan_password : List ℕ) → Raises IsPython (build_lan_auth_request user lan_password)
unfolding build_lan_auth_request
build_lan_auth_request-Raises user lan_password =
    >>=-Raises _ _ (encode_protobuf_bytes-Raises (pos 2) user)
      (λ f2. >>=-Raises _ _ (encode_protobuf_bytes-Raises (pos 3) lan_password) (λ f3. ok-Raises _))
