-- ===== src/Varint/Encode.antt =====
-- `encode_varint` as plain arithmetic: one equation, without the loop's accumulator.
use mathlib.Core.Logic.{dif_pos, dif_neg}
use mathlib.Core.WellFounded.{Acc, Acc-prop}
use native.Mathlib.Bridge.{le_prop}
use native.Mathlib.Decide.{dec_le}
use ino_a9_local_bridge.Base.{
  ℕ, zero, suc, ◌+◌, ◌/◌, ◌%◌, ◌^◌, ◌≤◌, ◌<◌, ◌≡◌, sym, ap, ◌∙◌, bit_and, bit_or, List, [], ◌∷◌,
  ◌++◌, append_assoc, arith,
}
use ino_a9_local_bridge.Base.Tests.{lt_wf}
use ino_a9_local_bridge.Base.Lists.{length, All}
use ino_a9_local_bridge.Base.Bits.{bit_and_127, bit_or_128}
use ino_a9_local_bridge.Varint.{IsByte, encode_loop, encode_varint, shift_shrinks}

group_byte : (v : ℕ) → bit_or (bit_and v 0x7f) 0x80 ≡ v % 128 + 128
group_byte v = rw bit_and_127 (bit_or_128 (v % 128) (omega arith))

-- The loop's two branches.
loop_last : (out : List ℕ) (v : ℕ) (w : Acc ◌<◌ v) → v < 128 → encode_loop out v w ≡ out ++ (v ∷ [])
unfolding encode_loop
loop_last out v (Acc.intro _ smaller) h = dif_neg (dec_le 128 v) (λ k. omega arith) _ _

loop_more :
    (out : List ℕ) (v : ℕ) (w : Acc ◌<◌ v) (w' : Acc ◌<◌ (v / 128))
    → 128 ≤ v
    → encode_loop out v w ≡ encode_loop (out ++ ((v % 128 + 128) ∷ [])) (v / 128) w'
unfolding encode_loop
loop_more out v (Acc.intro _ smaller) w' h =
    dif_pos (dec_le 128 v) le_prop h _ _
    ∙ rw (group_byte v) (
        ap (encode_loop (out ++ ((v % 128 + 128) ∷ [])) (v / 128))
          {x = smaller (v / 128) (shift_shrinks v h)} (Acc-prop _ w'))

loop-append :
    (out : List ℕ) (v : ℕ) (w : Acc ◌<◌ v) → encode_loop out v w ≡ out ++ encode_loop [] v w
loop-append out v (Acc.intro _ smaller) = elim (dec_le 128 v) [
  | no k ↦
      let h : v < 128 = omega arith in
      loop_last out v _ h ∙ ap (λ t. out ++ t) (sym (loop_last [] v (Acc.intro v smaller) h))
  | yes h ↦
      let w' : Acc ◌<◌ (v / 128) = smaller _ (shift_shrinks v h) in
      let b : List ℕ = (v % 128 + 128) ∷ [] in
      loop_more out v _ w' h
      ∙ loop-append (out ++ b) (v / 128) (smaller _ (shift_shrinks v h))
      ∙ append_assoc out b (encode_loop [] (v / 128) w')
      ∙ ap (λ t. out ++ t)
          (sym (
            loop_more [] v (Acc.intro v smaller) w' h
            ∙ loop-append b (v / 128) (smaller _ (shift_shrinks v h))))
]

-- `encode_varint` without its loop.
pub encode_varint_small : (v : ℕ) → v < 128 → encode_varint v ≡ v ∷ []
unfolding encode_varint
encode_varint_small v h = loop_last [] v _ h

pub encode_varint_large :
    (v : ℕ) → 128 ≤ v → encode_varint v ≡ (v % 128 + 128) ∷ encode_varint (v / 128)
unfolding encode_varint
encode_varint_large v h = loop_more [] v _ (lt_wf.apply (v / 128)) h ∙ loop-append _ (v / 128) _

-- What `encode_varint` writes for a value of at most k + 1 groups of seven bits: 1 to k + 1 bytes.
pub encode_varint_shape :
    (k v : ℕ)
    → v < 128 ^ suc k
    → All IsByte (encode_varint v)
      × (1 ≤ length (encode_varint v))
      × (length (encode_varint v) ≤ suc k)
encode_varint_shape zero v h = rw (encode_varint_small v (omega arith)) (omega arith)
encode_varint_shape (suc k) v h = elim (dec_le 128 v) [
  | no q ↦ rw (encode_varint_small v (omega arith)) (omega arith)
  | yes q ↦
      let (bytes, lo, hi) = encode_varint_shape k (v / 128) (omega arith) in
      rw (encode_varint_large v q) (((omega arith), bytes), omega arith, omega arith)
]

pub encode_varint_pos : (v : ℕ) → 1 ≤ length (encode_varint v)
encode_varint_pos v = elim (dec_le 128 v) [
  | no q ↦ rw (encode_varint_small v (omega arith)) (omega arith)
  | yes q ↦ rw (encode_varint_large v q) (omega arith)
]
