-- ===== src/Camera/Reassembler/Delivery.antt =====
-- Frames whose fragments arrive in order, among the packets of other frames.
pub mod Image
use ino_a9_local_bridge.Base.{
  ℕ, ◌+◌, ◌≤◌, ◌<◌, ◌≡◌, ◌≢◌, refl, sym, subst, ap, ap₂, ◌∙◌, List, [], ◌∷◌, ◌++◌, append-nil,
  append_assoc, Option, none, some, Bool, true, false, not, ◌&&◌, ◌||◌, arith, inl, inr,
}
use ino_a9_local_bridge.Base.Tests.{ltb, ◌==◌, if◌then◌else◌, Bool-cases, ==_iff, ltb→le, le→ltb}
use ino_a9_local_bridge.Base.Lists.{length, length-append}
use ino_a9_local_bridge.Base.Except.{Result, ok}
use ino_a9_local_bridge.Crypto.{Primitives}
use ino_a9_local_bridge.Packet.{AvPacket}
use ino_a9_local_bridge.Camera.Reassembler.{Reassembler, push, decode_frame, mjpeg_format}
use ino_a9_local_bridge.Camera.Reassembler.Assembly.{
  Assembly, started, describe, Outcome, extend, continue, receive, advance,
}
use ino_a9_local_bridge.Camera.Reassembler.Refinement.{Represents, push-advance}
use ino_a9_local_bridge.Camera.Reassembler.Refinement.Others.{
  push-Represents_other, push_keeps_limits,
}

abbrev Frame : Type 0
Frame = Result (Option (List ℕ))

-- The packets of one frame among those that arrive.
abbrev pub own : ℕ → List AvPacket → List AvPacket
own q [] = []
own q (p ∷ ps) = let rest = own q ps in if p.sequence == q then p ∷ rest else rest

-- What `push` returns for the packets of the frame, when all packets are pushed in turn.
abbrev pub outputs : Primitives → ℕ → Reassembler → List AvPacket → List Frame
outputs c q s [] = []
outputs c q s (p ∷ ps) =
    let rest = outputs c q (push c s p).0 ps in
    if p.sequence == q then (push c s p).1 ∷ rest else rest

module _ (c : Primitives) (session_prefix : List ℕ) (max_frame_bytes : ℕ) where
  abbrev pub advance_all : List AvPacket → Option Assembly → List Frame
  advance_all [] o = []
  advance_all (p ∷ ps) o =
      let step = advance c session_prefix max_frame_bytes p o in step.1 ∷ advance_all ps step.0

true≢false : true ≢ false
true≢false e = cc

-- Pushing packets of any frames gives for one frame what its machine gives for its own packets.
pub outputs-advance_all :
    (c : Primitives) (q : ℕ) (s : Reassembler) (ps : List AvPacket) (o : Option Assembly)
    → Represents s q o
    → outputs c q s ps ≡ advance_all c s.session_prefix s.max_frame_bytes (own q ps) o
outputs-advance_all c q s [] o h = refl
outputs-advance_all c q s (p ∷ ps) o h =
    let (prefix, limit) = push_keeps_limits c s p in
    elim (Bool-cases (p.sequence == q)) [
      | inl e ↦
          let here : p.sequence ≡ q = (==_iff p.sequence q).0 e in
          let (next, same) = push-advance c s p o (rw here h) in
          let o' = (advance c s.session_prefix s.max_frame_bytes p o).0 in
          let next' : Represents (push c s p).0 q o' =
            subst (λ n. Represents (push c s p).0 n o') here next in
          rw e (
            ap₂ (λ r rs. r ∷ rs) same
              (outputs-advance_all c q (push c s p).0 ps o' next'
                ∙ ap₂ (λ a b. advance_all c a b (own q ps) o') prefix limit))
      | inr e ↦
          let there : p.sequence ≢ q =
            λ same. true≢false (sym ((==_iff p.sequence q).1 same) ∙ e) in
          rw e (
            outputs-advance_all c q (push c s p).0 ps o (push-Represents_other c s p q o there h)
            ∙ ap₂ (λ a b. advance_all c a b (own q ps) o) prefix limit)
    ]

-- The packet is a fragment of the frame, with its marker and its index.
pub record Carries (p : AvPacket) (q index : ℕ) (fragment : List ℕ) : Type 0 where
  pub is_mjpeg : p.media_format ≡ mjpeg_format
  pub is_own : p.sequence ≡ q
  pub holds : p.payload ≡ 1 ∷ index ∷ 0 ∷ fragment

-- Fragments from an index on, in order, the last of them marked 0xff, and the bytes they carry.
pub data InOrder (q : ℕ) : ℕ → List AvPacket → List ℕ → Type 0 where
  last :
      {i : ℕ} (p : AvPacket) (fragment : List ℕ)
      → Carries p q 0xff fragment
      → InOrder q i (p ∷ []) fragment
  more :
      {i : ℕ} (p : AvPacket) (fragment : List ℕ) (ps : List AvPacket) (bytes : List ℕ)
      → 1 < i
      → i < 0xff
      → Carries p q i fragment
      → InOrder q (i + 1) ps bytes
      → InOrder q i (p ∷ ps) (fragment ++ bytes)

-- The first packet with an encrypted length.
abbrev pub description : List AvPacket → Option AvPacket → Option AvPacket
description [] m = m
description (p ∷ ps) m = description ps (describe p m)

-- Nothing but the last packet yields a frame.
abbrev pub at_end : List AvPacket → Frame → List Frame
at_end [] frame = []
at_end (p ∷ []) frame = frame ∷ []
at_end (p ∷ (p' ∷ ps)) frame = ok none ∷ at_end (p' ∷ ps) frame

at_end-more :
    {q i : ℕ} {ps : List AvPacket} {bytes : List ℕ} (p : AvPacket) (frame : Frame)
    → InOrder q i ps bytes
    → at_end (p ∷ ps) frame ≡ ok none ∷ at_end ps frame
at_end-more p frame (last p' fragment h) = refl
at_end-more p frame (more p' fragment ps bytes h1 h2 h r) = refl

module _ (c : Primitives) (session_prefix : List ℕ) (max_frame_bytes q : ℕ) where
  advance_first :
      (p : AvPacket) (fragment : List ℕ) (o : Option Assembly)
      → Carries p q 1 fragment
      → length fragment ≤ max_frame_bytes
      → advance c session_prefix max_frame_bytes p o ≡ (
        some (record { next_index = 2; bytes = fragment; described_by = describe p none }),
        ok none,
      )
  unfolding advance
  advance_first p fragment o h l =
      rw (h.is_mjpeg, h.holds, le→ltb max_frame_bytes (length fragment) l) refl

  advance_next :
      (p : AvPacket) (i : ℕ) (fragment : List ℕ) (a : Assembly)
      → Carries p q i fragment
      → 1 < i
      → i < 0xff
      → a.next_index ≡ i
      → length (a.bytes ++ fragment) ≤ max_frame_bytes
      → advance c session_prefix max_frame_bytes p (some a) ≡ (
        some (record {
          next_index = i + 1;
          bytes = a.bytes ++ fragment;
          described_by = describe p a.described_by;
        }),
        ok none,
      )
  unfolding advance
  advance_next p i fragment a h h1 h2 e l =
      rw (h.is_mjpeg, h.holds)
        (ground (arith, le→ltb max_frame_bytes (length (a.bytes ++ fragment)) l))

  advance_last :
      (p : AvPacket) (fragment : List ℕ) (a : Assembly)
      → Carries p q 0xff fragment
      → length (a.bytes ++ fragment) ≤ max_frame_bytes
      → advance c session_prefix max_frame_bytes p (some a)
        ≡ (none, decode_frame c session_prefix (describe p a.described_by) (a.bytes ++ fragment))
  unfolding advance
  advance_last p fragment a h l =
      rw (h.is_mjpeg, h.holds, le→ltb max_frame_bytes (length (a.bytes ++ fragment)) l) refl

  -- The rest of a frame that has begun.
  rest_InOrder :
      (i : ℕ) (ps : List AvPacket) (bytes : List ℕ) (a : Assembly)
      → InOrder q i ps bytes
      → a.next_index ≡ i
      → length (a.bytes ++ bytes) ≤ max_frame_bytes
      → advance_all c session_prefix max_frame_bytes ps (some a)
        ≡ at_end ps
            (decode_frame c session_prefix (description ps a.described_by) (a.bytes ++ bytes))
  rest_InOrder i ps bytes a (last p fragment h) e l =
      ap (λ step. step.1 ∷ []) (advance_last p fragment a h l)
  rest_InOrder i ps bytes a (more p fragment ps' bytes' h1 h2 h r) e l =
      let l' : length ((a.bytes ++ fragment) ++ bytes') ≤ max_frame_bytes =
        rw (append_assoc a.bytes fragment bytes') l in
      let l'' : length (a.bytes ++ fragment) ≤ max_frame_bytes =
        omega (arith, l', length-append (a.bytes ++ fragment) bytes') in
      let a' : Assembly = record {
        next_index = i + 1;
        bytes = a.bytes ++ fragment;
        described_by = describe p a.described_by;
      } in
      ap (λ step. step.1 ∷ advance_all c session_prefix max_frame_bytes ps' step.0)
        (advance_next p i fragment a h h1 h2 e l'')
      ∙ ap (λ rs. ok none ∷ rs) (rest_InOrder (i + 1) ps' bytes' a' r refl l')
      ∙ ap
          (λ b.
            ok none
            ∷ at_end ps'
                (decode_frame c session_prefix (description ps' (describe p a.described_by)) b))
          (append_assoc a.bytes fragment bytes')
      ∙ sym (at_end-more p _ r)

-- Whatever is held for the frame, and whatever packets of other frames arrive in between: a first
-- fragment and further ones in order, the last marked 0xff and all together within the limit, yield
-- no image before the last packet, and there the decoding of the joined bytes.
pub outputs-InOrder :
    (c : Primitives) (q : ℕ) (s : Reassembler) (ps : List AvPacket) (o : Option Assembly)
    (p : AvPacket) (fragment : List ℕ) (rest : List AvPacket) (bytes : List ℕ)
    → Represents s q o
    → own q ps ≡ p ∷ rest
    → Carries p q 1 fragment
    → InOrder q 2 rest bytes
    → length (fragment ++ bytes) ≤ s.max_frame_bytes
    → outputs c q s ps
      ≡ ok none
        ∷ at_end rest (
            decode_frame c s.session_prefix
              (description rest (describe p none))
              (fragment ++ bytes))
outputs-InOrder c q s ps o p fragment rest bytes h mine first r l =
    let l' : length fragment ≤ s.max_frame_bytes = omega (arith, l, length-append fragment bytes) in
    outputs-advance_all c q s ps o h
    ∙ ap (λ own_packets. advance_all c s.session_prefix s.max_frame_bytes own_packets o) mine
    ∙ ap (λ step. step.1 ∷ advance_all c s.session_prefix s.max_frame_bytes rest step.0)
        (advance_first c s.session_prefix s.max_frame_bytes q p fragment o first l')
    ∙ ap (λ rs. ok none ∷ rs)
        (rest_InOrder c s.session_prefix s.max_frame_bytes q 2 rest bytes _ r refl l)
