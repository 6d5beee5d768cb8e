-- ===== src/Packet/Stream/Loop.antt =====
-- The loop of `iter_tcp_packets` computes `frames`, and any fuel that covers the bytes is enough.
use ino_a9_local_bridge.Base.{
  ℕ, zero, suc, ◌+◌, ◌≤◌, ◌<◌, ◌≡◌, refl, sym, ap, ◌∙◌, List, [], ◌∷◌, ◌++◌, append-nil, true,
  false, ◌⊎◌, arith, inl, inr,
}
use ino_a9_local_bridge.Base.Tests.{ltb, lt→ltb, le→ltb}
use ino_a9_local_bridge.Base.Lists.{length, drop, length-drop, drop-drop}
use ino_a9_local_bridge.Base.Except.{Exception, ok, err, out_of_fuel}
use ino_a9_local_bridge.Packet.{
  Packet, Next, incomplete, broken, complete, read_next, iter_loop, iter_tcp_packets,
}
use ino_a9_local_bridge.Packet.Stream.{
  prepend, prepend-nil, prepend-prepend, frames, read_next-drop, read_next-eq-complete,
}

pub Next-cases :
    (n : Next)
    → (n ≡ incomplete)
      ⊎ ((e : Exception) × (n ≡ broken e))
      ⊎ ((p : Packet) × (size : ℕ) × (n ≡ complete p size))
Next-cases incomplete = inl refl
Next-cases (broken e) = inr (inl (e, refl))
Next-cases (complete p size) = inr (inr (p, size, refl))

-- One step of `frames`, by the outcome of the round.
module _ (fuel : ℕ) (b : ℕ) (bytes : List ℕ) where
  pub frames_incomplete :
      read_next (b ∷ bytes) 0 ≡ incomplete → frames (suc fuel) (b ∷ bytes) ≡ ok ([], b ∷ bytes)
  unfolding frames
  frames_incomplete e = rw (e, frames)

  pub frames_broken :
      {x : Exception} → read_next (b ∷ bytes) 0 ≡ broken x → frames (suc fuel) (b ∷ bytes) ≡ err x
  unfolding frames
  frames_broken e = rw (e, frames)

  pub frames_complete :
      {p : Packet} {size : ℕ}
      → read_next (b ∷ bytes) 0 ≡ complete p size
      → frames (suc fuel) (b ∷ bytes) ≡ prepend (p ∷ []) (frames fuel (drop size (b ∷ bytes)))
  unfolding frames
  frames_complete e = rw (e, frames)

pub frames-nil : (fuel : ℕ) → frames fuel [] ≡ ok ([], [])
unfolding frames
frames-nil zero = refl
frames-nil (suc fuel) = refl

at_end : (bytes : List ℕ) (offset : ℕ) → drop offset bytes ≡ [] → ltb offset (length bytes) ≡ false
at_end bytes offset e =
    le→ltb offset (length bytes) (omega (arith, ap length e, length-drop offset bytes))

before_end :
    (bytes : List ℕ) (offset : ℕ) {b : ℕ} {rest : List ℕ}
    → drop offset bytes ≡ b ∷ rest
    → ltb offset (length bytes) ≡ true
before_end bytes offset e =
    lt→ltb offset (length bytes) (omega (arith, ap length e, length-drop offset bytes))

-- One step of the loop, by what is left and by the outcome of the round.
module _ (bytes : List ℕ) (offset : ℕ) (packets : List Packet) where
  loop_end :
      (fuel : ℕ)
      → drop offset bytes ≡ []
      → iter_loop fuel bytes offset packets ≡ ok (packets ++ [], [])
  unfolding iter_loop
  loop_end zero e = rw (at_end bytes offset e, e, append-nil) refl
  loop_end (suc fuel) e = rw (at_end bytes offset e, iter_loop) (rw (e, append-nil) refl)

  module _ (b : ℕ) (rest : List ℕ) (e : drop offset bytes ≡ b ∷ rest) where
    loop_out_of_fuel : iter_loop zero bytes offset packets ≡ err out_of_fuel
    unfolding iter_loop
    loop_out_of_fuel = rw (before_end bytes offset e)

    round : read_next bytes offset ≡ read_next (b ∷ rest) 0
    round = read_next-drop bytes offset ∙ ap (λ t. read_next t 0) e

    loop_incomplete :
        (fuel : ℕ)
        → read_next (b ∷ rest) 0 ≡ incomplete
        → iter_loop (suc fuel) bytes offset packets ≡ ok (packets ++ [], b ∷ rest)
    unfolding iter_loop
    loop_incomplete fuel r =
        rw (before_end bytes offset e, iter_loop) (rw (round ∙ r) (rw (e, append-nil) refl))

    loop_broken :
        (fuel : ℕ) {x : Exception}
        → read_next (b ∷ rest) 0 ≡ broken x
        → iter_loop (suc fuel) bytes offset packets ≡ err x
    unfolding iter_loop
    loop_broken fuel r = rw (before_end bytes offset e, iter_loop) (rw (round ∙ r))

    loop_complete :
        (fuel : ℕ) {p : Packet} {size : ℕ}
        → read_next (b ∷ rest) 0 ≡ complete p size
        → iter_loop (suc fuel) bytes offset packets
          ≡ iter_loop fuel bytes (offset + size) (packets ++ (p ∷ []))
    unfolding iter_loop
    loop_complete fuel r = rw (before_end bytes offset e, iter_loop) (rw (round ∙ r))

pub iter_loop-frames :
    (fuel : ℕ) (bytes : List ℕ) (offset : ℕ) (packets : List Packet) (rest : List ℕ)
    → drop offset bytes ≡ rest
    → iter_loop fuel bytes offset packets ≡ prepend packets (frames fuel rest)
iter_loop-frames fuel bytes offset packets [] e =
    loop_end bytes offset packets fuel e ∙ ap (prepend packets) (sym (frames-nil fuel))
iter_loop-frames zero bytes offset packets (b ∷ rest) e =
    loop_out_of_fuel bytes offset packets b rest e ∙ unfold frames in refl
iter_loop-frames (suc fuel) bytes offset packets (b ∷ rest) e =
    elim (Next-cases (read_next (b ∷ rest) 0)) [
      | inl r ↦
          loop_incomplete bytes offset packets b rest e fuel r
          ∙ ap (prepend packets) (sym (frames_incomplete fuel b rest r))
      | inr (inl (x, r)) ↦
          loop_broken bytes offset packets b rest e fuel r
          ∙ ap (prepend packets) (sym (frames_broken fuel b rest r))
      | inr (inr (p, size, r)) ↦
          loop_complete bytes offset packets b rest e fuel r
          ∙ iter_loop-frames fuel bytes (offset + size) (packets ++ (p ∷ [])) (drop size (b ∷ rest))
              (sym (drop-drop offset size bytes) ∙ ap (drop size) e)
          ∙ sym (prepend-prepend packets (p ∷ []) (frames fuel (drop size (b ∷ rest))))
          ∙ ap (prepend packets) (sym (frames_complete fuel b rest r))
    ]

-- What is left after a packet is shorter.
pub rest_shorter :
    (b : ℕ) (bytes : List ℕ) {p : Packet} {size : ℕ}
    → read_next (b ∷ bytes) 0 ≡ complete p size
    → length (drop size (b ∷ bytes)) < length (b ∷ bytes)
rest_shorter b bytes {p} {size} r =
    let (positive, inside, _) = read_next-eq-complete (b ∷ bytes) p size r in
    omega (arith, length-drop size (b ∷ bytes))

-- Any two amounts of fuel that cover the bytes give the same answer.
pub frames_fuel :
    (f g : ℕ) (bytes : List ℕ)
    → length bytes ≤ f
    → length bytes ≤ g
    → frames f bytes ≡ frames g bytes
frames_fuel f g [] hf hg = frames-nil f ∙ sym (frames-nil g)
frames_fuel zero g (b ∷ bytes) hf hg = absurd (omega arith)
frames_fuel (suc f) zero (b ∷ bytes) hf hg = absurd (omega arith)
frames_fuel (suc f) (suc g) (b ∷ bytes) hf hg = elim (Next-cases (read_next (b ∷ bytes) 0)) [
  | inl r ↦ frames_incomplete f b bytes r ∙ sym (frames_incomplete g b bytes r)
  | inr (inl (x, r)) ↦ frames_broken f b bytes r ∙ sym (frames_broken g b bytes r)
  | inr (inr (p, size, r)) ↦
      let less = rest_shorter b bytes r in
      frames_complete f b bytes r
      ∙ ap (prepend (p ∷ [])) (frames_fuel f g (drop size (b ∷ bytes)) (omega arith) (omega arith))
      ∙ sym (frames_complete g b bytes r)
]

-- `iter_tcp_packets` with any fuel that covers the bytes.
pub iter_tcp_packets-frames :
    (fuel : ℕ) (bytes : List ℕ) → length bytes ≤ fuel → iter_tcp_packets bytes ≡ frames fuel bytes
unfolding iter_tcp_packets
iter_tcp_packets-frames fuel bytes h =
    iter_loop-frames (length bytes) bytes 0 [] bytes refl
    ∙ prepend-nil (frames (length bytes) bytes)
    ∙ frames_fuel (length bytes) fuel bytes (omega arith) h

pub iter_tcp_packets-nil : iter_tcp_packets [] ≡ ok ([], [])
unfolding iter_tcp_packets iter_loop
iter_tcp_packets-nil = refl
