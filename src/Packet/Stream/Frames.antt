-- ===== src/Packet/Stream/Frames.antt =====
-- `iter_tcp_packets` loses no byte, stops only where it must, and always ends.
use ino_a9_local_bridge.Base.{
  ℕ, zero, suc, ◌+◌, ◌-◌, ◌≤◌, ◌≡◌, ◌≢◌, sym, ap, subst, ◌∙◌, List, [], ◌∷◌, ◌++◌, some, Bool, true,
  false, arith, inl, inr,
}
use ino_a9_local_bridge.Base.Tests.{ltb, if◌then◌else◌, Bool-cases}
use ino_a9_local_bridge.Base.Slices.{slice}
use ino_a9_local_bridge.Base.Lists.{length, drop, take, take-append-drop}
use ino_a9_local_bridge.Base.Except.{Result, ok, err, ok_pair, packet_error}
use ino_a9_local_bridge.Base.Raises.{IsPacketError, OnlyRaises, Raises}
use ino_a9_local_bridge.Packet.{
  FixedHeader, Packet, Next, incomplete, broken, read_next, parse_fixed_header, parse_packet,
  asks_for_more, appended, after_header, iter_tcp_packets,
}
use ino_a9_local_bridge.Packet.Errors.{parse_fixed_header-Raises, parse_packet-Raises}
use ino_a9_local_bridge.Packet.Stream.{prepend, frames, read_next-eq-complete, read_next-packet}
use ino_a9_local_bridge.Packet.Stream.Loop.{
  Next-cases, frames_incomplete, frames_broken, frames_complete, frames-nil,
  iter_tcp_packets-frames, rest_shorter,
}
use ino_a9_local_bridge.Packet.Stream.Chunks.{prepend-eq-ok}

-- What a round raises is a `PacketError`.
abbrev OnlyPacketErrors : Next → Type 0
OnlyPacketErrors (broken e) = IsPacketError e
OnlyPacketErrors _ = Unit

if_OnlyPacketErrors :
    (b : Bool) (m n : Next)
    → OnlyPacketErrors m
    → OnlyPacketErrors n
    → OnlyPacketErrors (if b then m else n)
if_OnlyPacketErrors true m n hm hn = hm
if_OnlyPacketErrors false m n hm hn = hn

read_next_raises : (bytes : List ℕ) → OnlyPacketErrors (read_next bytes 0)
unfolding read_next
read_next_raises bytes =
    go (parse_fixed_header bytes (some false)) (parse_fixed_header-Raises bytes (some false)).raises
  where
    parsed :
        (size : ℕ) (r : Result Packet)
        → OnlyRaises IsPacketError r
        → OnlyPacketErrors (appended size r)
    parsed size (ok p) h = tt
    parsed size (err e) h = h

    go :
        (r : Result (FixedHeader × ℕ))
        → OnlyRaises IsPacketError r
        → OnlyPacketErrors (after_header bytes 0 r)
    go (err (packet_error f)) h = elim (Bool-cases (asks_for_more f)) [
      | inl e ↦ rw e tt
      | inr e ↦ rw e tt
    ]
    go (err _) h = h
    go (ok (h, o)) _ =
        let size = o + h.body_length in
        let front = slice bytes 0 (0 + size) in
        let whole = parse_packet front (some false) true in
        if_OnlyPacketErrors (ltb (length bytes - 0) size) incomplete (appended size whole) tt
          (parsed size whole (parse_packet-Raises front (some false) true).raises)

prepend_raises :
    (ps : List Packet) (r : Result (List Packet × List ℕ))
    → OnlyRaises IsPacketError r
    → OnlyRaises IsPacketError (prepend ps r)
prepend_raises ps (ok (qs, rest)) h = tt
prepend_raises ps (err e) h = h

frames_raises :
    (f : ℕ) (bytes : List ℕ) → length bytes ≤ f → OnlyRaises IsPacketError (frames f bytes)
frames_raises f [] h = rw (frames-nil f) tt
frames_raises zero (b ∷ bytes) h = absurd (omega arith)
frames_raises (suc f) (b ∷ bytes) h = elim (Next-cases (read_next (b ∷ bytes) 0)) [
  | inl r ↦ rw (frames_incomplete f b bytes r) tt
  | inr (inl (x, r)) ↦ rw (frames_broken f b bytes r) (rw r at (read_next_raises (b ∷ bytes)))
  | inr (inr (p, size, r)) ↦
      let less = rest_shorter b bytes r in
      rw (frames_complete f b bytes r)
        (prepend_raises (p ∷ []) _ (frames_raises f (drop size (b ∷ bytes)) (omega arith)))
]

-- On any bytes the loop ends: it returns packets and a remainder, or raises `PacketError`. The
-- rounds that it is given never run out.
pub iter_tcp_packets-Raises : (bytes : List ℕ) → Raises IsPacketError (iter_tcp_packets bytes)
iter_tcp_packets-Raises bytes = record {
  raises =
      rw (iter_tcp_packets-frames (length bytes) bytes (omega arith))
        (frames_raises (length bytes) bytes (omega arith));
}

-- No packet is whole at the front of `rest`.
abbrev pub NoPacket : List ℕ → Type 0
NoPacket rest =
    (front back : List ℕ) (p : Packet)
    → rest ≡ front ++ back
    → parse_packet front (some false) true ≢ ok p

-- `bytes` is cut into packets that each parse alone, and a rest where no whole packet starts.
pub data Framed (rest : List ℕ) : List ℕ → List Packet → Type 0 where
  stop :
      {bytes : List ℕ} {packets : List Packet}
      → packets ≡ []
      → bytes ≡ rest
      → NoPacket rest
      → Framed rest bytes packets
  cut :
      {bytes : List ℕ} {packets : List Packet} (front back : List ℕ) (p : Packet) (ps : List Packet)
      → bytes ≡ front ++ back
      → packets ≡ p ∷ ps
      → parse_packet front (some false) true ≡ ok p
      → Framed rest back ps
      → Framed rest bytes packets

NoPacket-nil : NoPacket []
NoPacket-nil [] back p e h = unfold parse_packet parse_fixed_header in cc h
NoPacket-nil (b ∷ front) back p e h = cc e

NoPacket-incomplete : (bytes : List ℕ) → read_next bytes 0 ≡ incomplete → NoPacket bytes
NoPacket-incomplete bytes r front back p e h =
    cc (r, ap (λ t. read_next t 0) e, read_next-packet front back p h)

frames-Framed :
    (f : ℕ) (bytes : List ℕ) (packets : List Packet) (rest : List ℕ)
    → frames f bytes ≡ ok (packets, rest)
    → Framed rest bytes packets
frames-Framed f [] packets rest e =
    let (a, b) = ok_pair (sym (frames-nil f) ∙ e) in stop (sym a) b (subst NoPacket b NoPacket-nil)
frames-Framed zero (b ∷ bytes) packets rest e = unfold frames in cc e
frames-Framed (suc f) (b ∷ bytes) packets rest e = elim (Next-cases (read_next (b ∷ bytes) 0)) [
  | inl r ↦
      let (a, q) = ok_pair (sym (frames_incomplete f b bytes r) ∙ e) in
      stop (sym a) q (subst NoPacket q (NoPacket-incomplete (b ∷ bytes) r))
  | inr (inl (x, r)) ↦ cc (frames_broken f b bytes r)
  | inr (inr (p, size, r)) ↦
      let left = frames f (drop size (b ∷ bytes)) in
      let (ps, q, split) = prepend-eq-ok p left (sym (frames_complete f b bytes r) ∙ e) in
      let (_, _, parsed) = read_next-eq-complete (b ∷ bytes) p size r in
      cut (take size (b ∷ bytes)) (drop size (b ∷ bytes)) p ps
        (sym (take-append-drop size (b ∷ bytes))) split parsed
        (frames-Framed f (drop size (b ∷ bytes)) ps rest q)
]

-- What `iter_tcp_packets` returns: the bytes are the packets' own bytes, in order and with none
-- lost, followed by the remainder, at whose front no packet is whole.
pub iter_tcp_packets-Framed :
    (bytes : List ℕ) (packets : List Packet) (rest : List ℕ)
    → iter_tcp_packets bytes ≡ ok (packets, rest)
    → Framed rest bytes packets
iter_tcp_packets-Framed bytes packets rest e =
    frames-Framed (length bytes) bytes packets rest
      (sym (iter_tcp_packets-frames (length bytes) bytes (omega arith)) ∙ e)
