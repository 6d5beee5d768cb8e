-- ===== src/Varint/Decode.antt =====
-- `decode_varint` on any input.
use mathlib.Core.Logic.{◌≢◌}
use native.Mathlib.Nat.{pow-suc, pow-le-pow_right}
use native.Mathlib.Decide.{dec_le}
use ino_a9_local_bridge.Base.{
  ℕ, zero, suc, ◌+◌, ◌*◌, ◌%◌, ◌^◌, ◌≤◌, ◌<◌, ◌≡◌, refl, sym, ◌∙◌, List, [], ◌∷◌, ◌++◌, arith, inl,
  inr, some, none,
}
use ino_a9_local_bridge.Base.Tests.{Option-cases, lt→ltb, le→ltb}
use ino_a9_local_bridge.Base.Lists.{length, get_elem?}
use ino_a9_local_bridge.Base.Bits.{bit_and_127, bit_or_above}
use ino_a9_local_bridge.Base.Except.{
  ok_pair, ok, err, packet_error, truncated_varint, oversized_varint,
}
use ino_a9_local_bridge.Varint.{add_group, decode_loop, decode_varint}

-- `|=` adds the group above the bits that are there.
pub add_group_lem :
    (value byte index : ℕ)
    → value < 2 ^ (7 * index)
    → add_group value byte index ≡ value + byte % 128 * 2 ^ (7 * index)
add_group_lem value byte index h = rw bit_and_127 (bit_or_above (7 * index) value (byte % 128) h)

pub seven_more : (i : ℕ) → 2 ^ (7 * (i + 1)) ≡ 128 * 2 ^ (7 * i)
seven_more i =
    let e : 7 * (i + 1) ≡ suc (suc (suc (suc (suc (suc (suc (7 * i))))))) = omega arith in
    rw e (
      omega (
        arith,
        pow-suc 2 (7 * i),
        pow-suc 2 (suc (7 * i)),
        pow-suc 2 (suc (suc (7 * i))),
        pow-suc 2 (suc (suc (suc (7 * i)))),
        pow-suc 2 (suc (suc (suc (suc (7 * i))))),
        pow-suc 2 (suc (suc (suc (suc (suc (7 * i)))))),
        pow-suc 2 (suc (suc (suc (suc (suc (suc (7 * i))))))),
      ))

-- A value below 2 ^ (7 * index) and one more group stay below the next power.
pub add_group_bound :
    (value byte index : ℕ)
    → value < 2 ^ (7 * index)
    → add_group value byte index < 2 ^ (7 * (index + 1))
add_group_bound value byte index h =
    rw (add_group_lem value byte index h, seven_more) (grind (arith, fits))
  where
    fits : byte % 128 * 2 ^ (7 * index) ≤ 127 * 2 ^ (7 * index)
    fits = grind arith

module _ (left : ℕ) (bytes : List ℕ) (offset value index : ℕ) where
  pub decode_loop_end :
      get_elem? bytes offset ≡ none
      → decode_loop (suc left) bytes offset value index ≡ err (packet_error truncated_varint)
  unfolding decode_loop
  decode_loop_end h = rw (h, decode_loop)

  module _ {byte : ℕ} (here : get_elem? bytes offset ≡ some byte) where
    pub decode_loop_last :
        byte < 128
        → decode_loop (suc left) bytes offset value index
          ≡ ok (add_group value byte index, offset + 1)
    unfolding decode_loop
    decode_loop_last h = rw (here, decode_loop) (rw (lt→ltb byte 128 h))

    pub decode_loop_more :
        128 ≤ byte
        → decode_loop (suc left) bytes offset value index
          ≡ decode_loop left bytes (offset + 1) (add_group value byte index) (index + 1)
    unfolding decode_loop
    decode_loop_more h = rw (here, decode_loop) (rw (le→ltb byte 128 h))

get_elem?-lt : (bytes : List ℕ) (i : ℕ) {b : ℕ} → get_elem? bytes i ≡ some b → i < length bytes
get_elem?-lt [] i h = cc
get_elem?-lt (x ∷ bytes) zero h = omega arith
get_elem?-lt (x ∷ bytes) (suc i) h = omega (arith, get_elem?-lt bytes i h)

-- What a successful call returns: the cursor moves on by 1 to `max_bytes` bytes and stays inside
-- the input, and the value fits its groups.
decode_loop_takes :
    (left : ℕ) (bytes : List ℕ) (offset value index v o : ℕ)
    → value < 2 ^ (7 * index)
    → decode_loop left bytes offset value index ≡ ok (v, o)
    → (offset < o) × (o ≤ offset + left) × (o ≤ length bytes) × (v < 2 ^ (7 * (index + left)))
decode_loop_takes zero bytes offset value index v o h e = unfold decode_loop in cc
decode_loop_takes (suc left) bytes offset value index v o h e =
    elim (Option-cases (get_elem? bytes offset)) [
      | inl n ↦ cc (decode_loop_end left bytes offset value index n)
      | inr (byte, g) ↦ elim (dec_le 128 byte) [
        | yes q ↦
            let rest =
              decode_loop_takes left bytes (offset + 1) (add_group value byte index) (index + 1) v o
                (add_group_bound value byte index h)
                (sym (decode_loop_more left bytes offset value index g q) ∙ e) in
            let p : index + suc left ≡ index + 1 + left = omega arith in
            rw p (omega arith, omega arith, rest.2, rest.3)
        | no q ↦
            let (ev, eo) =
              ok_pair (sym (decode_loop_last left bytes offset value index g (omega arith)) ∙ e) in
            let inside : offset < length bytes = get_elem?-lt bytes offset g in
            let fits : v < 2 ^ (7 * (index + 1)) = rw ev at (add_group_bound value byte index h) in
            let wider : 2 ^ (7 * (index + 1)) ≤ 2 ^ (7 * (index + suc left)) =
              pow-le-pow_right (omega arith) (omega arith) in
            (omega arith, omega arith, omega arith, omega arith)
      ]
    ]

-- A successful `decode_varint` moves the cursor on by 1 to `max_bytes` bytes, stays inside the
-- input, and returns a value of at most seven bits for each byte allowed.
pub decode_varint_takes :
    (bytes : List ℕ) (offset max_bytes v o : ℕ)
    → decode_varint bytes offset max_bytes ≡ ok (v, o)
    → (offset < o) × (o ≤ offset + max_bytes) × (o ≤ length bytes) × (v < 2 ^ (7 * max_bytes))
unfolding decode_varint
decode_varint_takes bytes offset m v o e =
    let t = decode_loop_takes m bytes offset 0 0 v o (omega arith) e in
    let p : 0 + m ≡ m = omega arith in (t.0, t.1, t.2, rw p at t.3)

get_elem?-append :
    (bytes more : List ℕ) (i : ℕ) {b : ℕ}
    → get_elem? bytes i ≡ some b
    → get_elem? (bytes ++ more) i ≡ some b
get_elem?-append [] more i h = cc
get_elem?-append (x ∷ bytes) more zero h = h
get_elem?-append (x ∷ bytes) more (suc i) h = get_elem?-append bytes more i h

decode_loop-append :
    (left : ℕ) (bytes more : List ℕ) (offset value index : ℕ)
    → decode_loop left bytes offset value index ≢ err (packet_error truncated_varint)
    → decode_loop left (bytes ++ more) offset value index
      ≡ decode_loop left bytes offset value index
decode_loop-append zero bytes more offset value index h = unfold decode_loop in refl
decode_loop-append (suc left) bytes more offset value index h =
    elim (Option-cases (get_elem? bytes offset)) [
      | inl n ↦ absurd (h (decode_loop_end left bytes offset value index n))
      | inr (byte, g) ↦
          let g' : get_elem? (bytes ++ more) offset ≡ some byte =
            get_elem?-append bytes more offset g in
          elim (dec_le 128 byte) [
            | yes q ↦
                let step = decode_loop_more left bytes offset value index g q in
                decode_loop_more left (bytes ++ more) offset value index g' q
                ∙ decode_loop-append left bytes more (offset + 1) _ _ (λ e. h (step ∙ e))
                ∙ sym step
            | no q ↦
                decode_loop_last left (bytes ++ more) offset value index g' (omega arith)
                ∙ sym (decode_loop_last left bytes offset value index g (omega arith))
          ]
    ]

-- Unless the input ended inside the number, bytes added behind the input change nothing.
pub decode_varint-append :
    (bytes more : List ℕ) (offset max_bytes : ℕ)
    → decode_varint bytes offset max_bytes ≢ err (packet_error truncated_varint)
    → decode_varint (bytes ++ more) offset max_bytes ≡ decode_varint bytes offset max_bytes
unfolding decode_varint
decode_varint-append bytes more offset m h = decode_loop-append m bytes more offset 0 0 h

-- The loop's start and its last exit, for those who run it beside a loop of their own.
pub decode_varint-loop :
    (bytes : List ℕ) (offset max_bytes : ℕ)
    → decode_varint bytes offset max_bytes ≡ decode_loop max_bytes bytes offset 0 0
unfolding decode_varint
decode_varint-loop bytes offset max_bytes = refl

pub decode_loop-zero :
    (bytes : List ℕ) (offset value index : ℕ)
    → decode_loop 0 bytes offset value index ≡ err (packet_error oversized_varint)
unfolding decode_loop
decode_loop-zero bytes offset value index = refl
