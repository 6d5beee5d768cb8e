-- ===== src/Protobuf/Decode.antt =====
-- `_decode_varint` of camera.py is `decode_varint` of pprpc.py at ten bytes, with its own exception.
use native.Mathlib.Decide.{dec_le}
use ino_a9_local_bridge.Base.{
  ℕ, zero, suc, ◌+◌, ◌*◌, ◌^◌, ◌≡◌, refl, sym, ap, ◌∙◌, bit_and, bit_or, List, none, some, arith,
  inl, inr, ◌++◌, ◌<◌, ◌≤◌,
}
use ino_a9_local_bridge.Base.Tests.{Option-cases, lt→ltb, le→ltb}
use ino_a9_local_bridge.Base.Lists.{get_elem?, length, drop}
use ino_a9_local_bridge.Base.Except.{Result, ok, err, camera_error}
use ino_a9_local_bridge.Base.Raises.{Raises, IsCameraError, ok-Raises, err-Raises}
use ino_a9_local_bridge.Varint.{add_group, decode_varint, encode_varint, decode_loop}
use ino_a9_local_bridge.Varint.Decode.{
  decode_loop_end, decode_loop_last, decode_loop_more, decode_loop-zero, decode_varint-loop,
  decode_varint_takes,
}
use ino_a9_local_bridge.Varint.RoundTrip.{decode_varint-encode_varint}
use ino_a9_local_bridge.Protobuf.{decode_shifts, decode_field_varint}

-- The same answer, with every exception turned into `CameraError`.
abbrev pub as_camera_error {ℓ} : {A : Type ℓ} → Result A → Result A
as_camera_error (ok a) = ok a
as_camera_error (err e) = err camera_error

module _ (left : ℕ) (bytes : List ℕ) (offset value shift : ℕ) where
  shifts_end :
      get_elem? bytes offset ≡ none
      → decode_shifts (suc left) bytes offset value shift ≡ err camera_error
  unfolding decode_shifts
  shifts_end h = rw (h, decode_shifts)

  module _ {byte : ℕ} (here : get_elem? bytes offset ≡ some byte) where
    abbrev value' : ℕ
    value' = bit_or value (bit_and byte 0x7f * 2 ^ shift)

    shifts_last :
        byte < 128 → decode_shifts (suc left) bytes offset value shift ≡ ok (value', offset + 1)
    unfolding decode_shifts
    shifts_last h = rw (here, decode_shifts) (rw (lt→ltb byte 128 h))

    shifts_more :
        128 ≤ byte
        → decode_shifts (suc left) bytes offset value shift
          ≡ decode_shifts left bytes (offset + 1) value' (shift + 7)
    unfolding decode_shifts
    shifts_more h = rw (here, decode_shifts) (rw (le→ltb byte 128 h))

decode_shifts-loop :
    (left : ℕ) (bytes : List ℕ) (offset value index shift : ℕ)
    → shift ≡ 7 * index
    → decode_shifts left bytes offset value shift
      ≡ as_camera_error (decode_loop left bytes offset value index)
decode_shifts-loop zero bytes offset value index shift s =
    unfold decode_shifts in rw (decode_loop-zero bytes offset value index) refl
decode_shifts-loop (suc left) bytes offset value index shift s =
    elim (Option-cases (get_elem? bytes offset)) [
      | inl n ↦
          shifts_end left bytes offset value shift n
          ∙ ap as_camera_error (sym (decode_loop_end left bytes offset value index n))
      | inr (byte, g) ↦
          let same : bit_or value (bit_and byte 0x7f * 2 ^ shift) ≡ add_group value byte index =
            ap (λ (t : ℕ). bit_or value (bit_and byte 0x7f * 2 ^ t)) s in
          elim (dec_le 128 byte) [
            | yes q ↦
                shifts_more left bytes offset value shift g q
                ∙ ap (λ (t : ℕ). decode_shifts left bytes (offset + 1) t (shift + 7)) same
                ∙ decode_shifts-loop left bytes (offset + 1) (add_group value byte index)
                    (index + 1) (shift + 7) (omega arith)
                ∙ ap as_camera_error (sym (decode_loop_more left bytes offset value index g q))
            | no q ↦
                shifts_last left bytes offset value shift g (omega arith)
                ∙ ap (λ (t : ℕ). ok (t, offset + 1)) same
                ∙ ap as_camera_error
                    (sym (decode_loop_last left bytes offset value index g (omega arith)))
          ]
    ]

-- The two decoders of the repository agree on every input: the value and the cursor are the same
-- at ten bytes, and one raises where the other does.
pub decode_field_varint-decode_varint :
    (bytes : List ℕ) (offset : ℕ)
    → decode_field_varint bytes offset ≡ as_camera_error (decode_varint bytes offset 10)
unfolding decode_field_varint
decode_field_varint-decode_varint bytes offset =
    decode_shifts-loop 10 bytes offset 0 0 0 refl
    ∙ ap as_camera_error (sym (decode_varint-loop bytes offset 10))

-- Where the encoding of a number below 2 ^ 70 stands, it is read back.
pub decode_field_varint-encode_varint :
    (v : ℕ) (bytes : List ℕ) (offset : ℕ) (rest : List ℕ)
    → v < 2 ^ 70
    → drop offset bytes ≡ encode_varint v ++ rest
    → decode_field_varint bytes offset ≡ ok (v, offset + length (encode_varint v))
decode_field_varint-encode_varint v bytes offset rest h at =
    decode_field_varint-decode_varint bytes offset
    ∙ ap as_camera_error (decode_varint-encode_varint 9 v bytes offset rest (omega arith) at)

pub decode_field_varint_takes :
    (bytes : List ℕ) (offset v o : ℕ)
    → decode_field_varint bytes offset ≡ ok (v, o)
    → (offset < o) × (o ≤ length bytes) × (v < 2 ^ 70)
decode_field_varint_takes bytes offset v o e =
    go (decode_varint bytes offset 10) refl
      (sym (decode_field_varint-decode_varint bytes offset) ∙ e)
  where
    go :
        (r : Result (ℕ × ℕ))
        → decode_varint bytes offset 10 ≡ r
        → as_camera_error r ≡ ok (v, o)
        → (offset < o) × (o ≤ length bytes) × (v < 2 ^ 70)
    go (ok p) q e' = let t = decode_varint_takes bytes offset 10 v o (q ∙ e') in (t.0, t.2, t.3)
    go (err x) q e' = cc

pub decode_field_varint-Raises :
    (bytes : List ℕ) (offset : ℕ) → Raises IsCameraError (decode_field_varint bytes offset)
decode_field_varint-Raises bytes offset =
    rw (decode_field_varint-decode_varint bytes offset) (go (decode_varint bytes offset 10))
  where
    go : (r : Result (ℕ × ℕ)) → Raises IsCameraError (as_camera_error r)
    go (ok p) = ok-Raises p
    go (err e) = err-Raises camera_error tt
