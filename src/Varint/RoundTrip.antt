-- ===== src/Varint/RoundTrip.antt =====
-- `decode_varint` reads back what `encode_varint` wrote, wherever it stands in the input.
use native.Mathlib.Decide.{dec_le}
use native.Mathlib.Nat.{div-add-mod}
use ino_a9_local_bridge.Base.{
  ℕ, zero, suc, ◌+◌, ◌*◌, ◌/◌, ◌%◌, ◌^◌, ◌<◌, ◌≡◌, refl, ap, ◌∙◌, List, ◌∷◌, ◌++◌, arith,
}
use ino_a9_local_bridge.Base.Lists.{length, drop, get_elem?_here, drop_next}
use ino_a9_local_bridge.Base.Except.{Result, ok}
use ino_a9_local_bridge.Varint.{add_group, decode_loop, decode_varint, encode_varint}
use ino_a9_local_bridge.Varint.Encode.{encode_varint_small, encode_varint_large}
use ino_a9_local_bridge.Varint.Decode.{
  add_group_lem, add_group_bound, decode_loop_last, decode_loop_more, seven_more,
}

ok_same : {a b c d : ℕ} → a ≡ c → b ≡ d → ◌≡◌ {A = Result (ℕ × ℕ)} (ok (a, b)) (ok (c, d))
ok_same p q = cc

-- The last group: `v` fits seven bits.
last_group :
    (k v : ℕ) (bytes : List ℕ) (offset value index : ℕ) (rest : List ℕ)
    → v < 128
    → value < 2 ^ (7 * index)
    → drop offset bytes ≡ encode_varint v ++ rest
    → decode_loop (suc k) bytes offset value index
      ≡ ok (value + v * 2 ^ (7 * index), offset + length (encode_varint v))
last_group k v bytes offset value index rest h b here =
    let at : drop offset bytes ≡ v ∷ rest = rw (encode_varint_small v h) at here in
    let low : v % 128 ≡ v = omega arith in
    rw (encode_varint_small v h) (
      decode_loop_last k bytes offset value index (get_elem?_here bytes offset at) h
      ∙ ok_same (add_group_lem value v index b ∙ ap (λ (t : ℕ). value + t * 2 ^ (7 * index)) low)
          refl)

-- The lowest group of `v` and the rest, both shifted.
split_groups :
    (v i : ℕ) → (v % 128 + 128) % 128 * 2 ^ (7 * i) + v / 128 * 2 ^ (7 * (i + 1)) ≡ v * 2 ^ (7 * i)
split_groups v i =
    let low : (v % 128 + 128) % 128 ≡ v % 128 = omega arith in
    rw (low, seven_more) (omega (arith, ap (λ (t : ℕ). t * 2 ^ (7 * i)) (div-add-mod v 128)))

-- `v` is what is still to be read, after `index` groups whose value is `value`.
decode_loop-encode :
    (k v : ℕ) (bytes : List ℕ) (offset value index : ℕ) (rest : List ℕ)
    → v < 128 ^ suc k
    → value < 2 ^ (7 * index)
    → drop offset bytes ≡ encode_varint v ++ rest
    → decode_loop (suc k) bytes offset value index
      ≡ ok (value + v * 2 ^ (7 * index), offset + length (encode_varint v))
decode_loop-encode zero v bytes offset value index rest h b here =
    last_group zero v bytes offset value index rest (omega arith) b here
decode_loop-encode (suc k) v bytes offset value index rest h b here = elim (dec_le 128 v) [
  | no q ↦ last_group (suc k) v bytes offset value index rest (omega arith) b here
  | yes q ↦
      let low = v % 128 + 128 in
      let at : drop offset bytes ≡ low ∷ (encode_varint (v / 128) ++ rest) =
        rw (encode_varint_large v q) at here in
      let value' = add_group value low index in
      rw (encode_varint_large v q) (
        decode_loop_more (suc k) bytes offset value index (get_elem?_here bytes offset at)
          (omega arith)
        ∙ decode_loop-encode k (v / 128) bytes (offset + 1) value' (index + 1) rest (omega arith)
            (add_group_bound value low index b) (drop_next bytes offset at)
        ∙ ok_same (omega (arith, add_group_lem value low index b, split_groups v index))
            (omega arith))
]

-- At a cursor where the encoding of `v` stands, `decode_varint` returns `v` and the cursor behind
-- the encoding, whatever stands before and after it, if `v` fits `max_bytes` groups of seven bits.
pub decode_varint-encode_varint :
    (k v : ℕ) (bytes : List ℕ) (offset : ℕ) (rest : List ℕ)
    → v < 128 ^ suc k
    → drop offset bytes ≡ encode_varint v ++ rest
    → decode_varint bytes offset (suc k) ≡ ok (v, offset + length (encode_varint v))
unfolding decode_varint
decode_varint-encode_varint k v bytes offset rest h here =
    decode_loop-encode k v bytes offset 0 0 rest h (omega arith) here ∙ ok_same (omega arith) refl
