-- ===== src/Packet/Stream.antt =====
-- `iter_tcp_packets` as a function of the bytes that are left, without the offset and the list
-- that its loop carries.
pub mod Loop
pub mod Chunks
pub mod Frames
use native.Mathlib.Decide.{dec_le}
use ino_a9_local_bridge.Base.{
  ℕ, zero, suc, ◌+◌, ◌-◌, ◌≤◌, ◌<◌, ◌≡◌, ◌≢◌, refl, sym, ap, ◌∙◌, List, [], ◌∷◌, ◌++◌, append-nil,
  append_assoc, some, Bool, true, false, ◌⊎◌, arith, inl, inr,
}
use ino_a9_local_bridge.Base.Tests.{ltb, lt→ltb, le→ltb, Bool-cases}
use ino_a9_local_bridge.Base.Lists.{
  length, take, drop, length-drop, length-append, take-length, drop-drop, drop_all, take-append,
  drop-append,
}
use ino_a9_local_bridge.Base.Slices.{slice}
use ino_a9_local_bridge.Base.Except.{
  Exception, Result, ok, err, packet_error, out_of_fuel, PacketFault, Result-cases, ok_pair,
}
use ino_a9_local_bridge.Packet.{
  FixedHeader, Packet, Next, incomplete, broken, complete, parse_fixed_header, parse_packet,
  asks_for_more, appended, after_header, read_next, iter_loop, iter_tcp_packets,
}
use ino_a9_local_bridge.Packet.Header.{
  IsHeader, parse_fixed_header-IsHeader, parse_fixed_header-append, parse_packet-eq-ok,
}

-- The answer for the bytes behind packets that were read.
abbrev pub prepend : List Packet → Result (List Packet × List ℕ) → Result (List Packet × List ℕ)
prepend ps (ok (qs, rest)) = ok (ps ++ qs, rest)
prepend ps (err e) = err e

pub prepend-nil : (r : Result (List Packet × List ℕ)) → prepend [] r ≡ r
prepend-nil (ok (qs, rest)) = refl
prepend-nil (err e) = refl

pub prepend-prepend :
    (ps qs : List Packet) (r : Result (List Packet × List ℕ))
    → prepend ps (prepend qs r) ≡ prepend (ps ++ qs) r
prepend-prepend ps qs (ok (rs, rest)) = ap (λ t. ok (t, rest)) (sym (append_assoc ps qs rs))
prepend-prepend ps qs (err e) = refl

pub frames : ℕ → List ℕ → Result (List Packet × List ℕ)
frames fuel [] = ok ([], [])
frames zero (b ∷ bytes) = err out_of_fuel
frames (suc fuel) (b ∷ bytes) = elim (read_next (b ∷ bytes) 0) [
  | incomplete ↦ ok ([], b ∷ bytes)
  | broken e ↦ err e
  | complete packet size ↦ prepend (packet ∷ []) (frames fuel (drop size (b ∷ bytes)))
]

module _ (bytes : List ℕ) (offset size : ℕ) where
  same_slice : slice bytes offset (offset + size) ≡ slice (drop offset bytes) 0 (0 + size)
  same_slice = ap (λ (n : ℕ). take n (drop offset bytes)) (omega arith)

  same_room : length bytes - offset ≡ length (drop offset bytes) - 0
  same_room = omega (arith, length-drop offset bytes)

-- A round looks at the bytes from the offset on only.
read_next-drop :
    (bytes : List ℕ) (offset : ℕ) → read_next bytes offset ≡ read_next (drop offset bytes) 0
unfolding read_next
read_next-drop bytes offset = shift (parse_fixed_header (drop offset bytes) (some false))
  where
    shift :
        (r : Result (FixedHeader × ℕ))
        → after_header bytes offset r ≡ after_header (drop offset bytes) 0 r
    shift (err (packet_error f)) = refl
    shift (err _) = refl
    shift (ok (h, o)) =
        rw (same_slice bytes offset (o + h.body_length), same_room bytes offset) refl

-- A packet that a round appends is the parse of the first `size` bytes, which are there.
read_next-eq-complete :
    (bytes : List ℕ) (p : Packet) (size : ℕ)
    → read_next bytes 0 ≡ complete p size
    → (0 < size) × (size ≤ length bytes) × (parse_packet (take size bytes) (some false) true ≡ ok p)
unfolding read_next
read_next-eq-complete bytes p size = invert (parse_fixed_header bytes (some false)) refl
  where
    invert :
        (r : Result (FixedHeader × ℕ))
        → parse_fixed_header bytes (some false) ≡ r
        → after_header bytes 0 r ≡ complete p size
        → (0 < size)
          × (size ≤ length bytes)
          × (parse_packet (take size bytes) (some false) true ≡ ok p)
    invert (err (packet_error f)) q e = ground arith
    invert (err _) q e = cc
    invert (ok (h, o)) q e =
        let header = parse_fixed_header-IsHeader bytes (some false) h o q in
        let whole : slice bytes 0 (0 + (o + h.body_length)) ≡ take (o + h.body_length) bytes =
          ap (λ (n : ℕ). take n bytes) (omega arith) in
        ground (arith, header.least, whole)

module _ (bytes more : List ℕ) where
  settled :
      (r : Result (FixedHeader × ℕ))
      → after_header bytes 0 r ≢ incomplete
      → (f : PacketFault) → r ≡ err (packet_error f)
      → asks_for_more f ≡ false
  unfolding after_header
  settled r n f e = elim (Bool-cases (asks_for_more f)) [
    | inl more' ↦ absurd (n (ap (after_header bytes 0) e ∙ rw more' refl))
    | inr done ↦ done
  ]

  after_header-append :
      (r : Result (FixedHeader × ℕ))
      → after_header bytes 0 r ≢ incomplete
      → after_header (bytes ++ more) 0 r ≡ after_header bytes 0 r
  unfolding after_header
  after_header-append (err (packet_error f)) n = refl
  after_header-append (err _) n = refl
  after_header-append (ok (h, o)) n =
      let size = o + h.body_length in
      elim (dec_le size (length bytes)) [
        | no q ↦ absurd (n (ground arith))
        | yes q ↦
            let same : slice (bytes ++ more) 0 (0 + size) ≡ slice bytes 0 (0 + size) =
              take-append (0 + size - 0) bytes more (omega arith) in
            ground (arith, same, length-append bytes more)
      ]

  -- A round that does not wait for more bytes does the same when more bytes follow.
  pub read_next-append :
      read_next bytes 0 ≢ incomplete → read_next (bytes ++ more) 0 ≡ read_next bytes 0
  unfolding read_next
  read_next-append n =
      let r = parse_fixed_header bytes (some false) in
      ap (after_header (bytes ++ more) 0) (parse_fixed_header-append bytes more (settled r n))
      ∙ after_header-append r n

-- A whole packet in front of any bytes is read by one round.
pub read_next-packet :
    (front back : List ℕ) (p : Packet)
    → parse_packet front (some false) true ≡ ok p
    → read_next (front ++ back) 0 ≡ complete p (length front)
unfolding read_next
read_next-packet front back p e =
    let (h, o, q, total, _) = parse_packet-eq-ok front (some false) p e in
    let q' : parse_fixed_header (front ++ back) (some false) ≡ ok (h, o) =
      parse_fixed_header-append front back (λ f k. cc) ∙ q in
    let whole : slice (front ++ back) 0 (0 + (o + h.body_length)) ≡ front =
      ap (λ (n : ℕ). take n (front ++ back)) (omega arith) ∙ take-length front back in
    ap (after_header (front ++ back) 0) q' ∙ ground (arith, whole, length-append front back)
