-- ===== src/Packet/Stream/Chunks.antt =====
-- `iter_tcp_packets` on bytes that arrive in pieces, as the receive buffer of camera.py uses it.
use ino_a9_local_bridge.Base.{
  ℕ, zero, suc, ◌+◌, ◌≤◌, ◌≡◌, sym, ap, ◌∙◌, List, [], ◌∷◌, ◌++◌, some, true, false, arith, inl,
  inr,
}
use ino_a9_local_bridge.Base.Lists.{length, drop, length-append, drop-append, drop-length}
use ino_a9_local_bridge.Base.Except.{Exception, Result, ok, err, ok_pair}
use ino_a9_local_bridge.Packet.{
  Packet, broken, complete, read_next, parse_fixed_header, parse_packet, iter_tcp_packets,
}
use ino_a9_local_bridge.Packet.Stream.{
  prepend, prepend-nil, prepend-prepend, frames, read_next-append, read_next-eq-complete,
  read_next-packet,
}
use ino_a9_local_bridge.Packet.Stream.Loop.{
  Next-cases, frames_incomplete, frames_broken, frames_complete, frames-nil, frames_fuel,
  iter_tcp_packets-frames, rest_shorter,
}

-- One round of `frames` on bytes that more bytes follow.
module _ (b : ℕ) (bytes more : List ℕ) (g : ℕ) where
  append_broken :
      {x : Exception}
      → read_next (b ∷ bytes) 0 ≡ broken x
      → frames (suc g) ((b ∷ bytes) ++ more) ≡ err x
  append_broken r =
      frames_broken g b (bytes ++ more) (read_next-append (b ∷ bytes) more (λ q. cc) ∙ r)

  append_complete :
      {p : Packet} {size : ℕ}
      → read_next (b ∷ bytes) 0 ≡ complete p size
      → frames (suc g) ((b ∷ bytes) ++ more)
        ≡ prepend (p ∷ []) (frames g (drop size (b ∷ bytes) ++ more))
  append_complete {p} {size} r =
      let (_, inside, _) = read_next-eq-complete (b ∷ bytes) p size r in
      frames_complete g b (bytes ++ more) (read_next-append (b ∷ bytes) more (λ q. cc) ∙ r)
      ∙ ap (λ t. prepend (p ∷ []) (frames g t)) (drop-append size (b ∷ bytes) more inside)

pub prepend-eq-ok :
    (p : Packet) (r : Result (List Packet × List ℕ)) {ps : List Packet} {rest : List ℕ}
    → prepend (p ∷ []) r ≡ ok (ps, rest)
    → (qs : List Packet) × (r ≡ ok (qs, rest)) × (ps ≡ p ∷ qs)
prepend-eq-ok p (ok (qs, rest')) e = let (a, b) = ok_pair e in (qs, ap (λ t. ok (qs, t)) b, sym a)
prepend-eq-ok p (err x) e = cc

prepend-eq-err :
    (p : Packet) (r : Result (List Packet × List ℕ)) {x : Exception}
    → prepend (p ∷ []) r ≡ err x
    → r ≡ err x
prepend-eq-err p (ok (qs, rest)) e = cc
prepend-eq-err p (err y) e = e

-- Where nothing was read the bytes are kept, and the pieces join.
nothing_read :
    (g h : ℕ) (bytes more rest : List ℕ) (ps : List Packet)
    → length bytes + length more ≤ g
    → length rest + length more ≤ h
    → ◌≡◌ {A = Result (List Packet × List ℕ)} (ok ([], bytes)) (ok (ps, rest))
    → frames g (bytes ++ more) ≡ prepend ps (frames h (rest ++ more))
nothing_read g h bytes more rest ps hg hh e =
    let (none_read, kept) = ok_pair e in
    frames_fuel g h (bytes ++ more) (omega (arith, length-append bytes more))
      (omega (arith, length-append bytes more, ap length kept))
    ∙ sym (prepend-nil (frames h (bytes ++ more)))
    ∙ ap (λ t. prepend t (frames h (bytes ++ more))) none_read
    ∙ ap (λ t. prepend ps (frames h (t ++ more))) kept

frames-append :
    (f g h : ℕ) (bytes more rest : List ℕ) (ps : List Packet)
    → length bytes + length more ≤ g
    → length rest + length more ≤ h
    → frames f bytes ≡ ok (ps, rest)
    → frames g (bytes ++ more) ≡ prepend ps (frames h (rest ++ more))
frames-append f g h [] more rest ps hg hh e =
    nothing_read g h [] more rest ps hg hh (sym (frames-nil f) ∙ e)
frames-append zero g h (b ∷ bytes) more rest ps hg hh e = unfold frames in cc
frames-append (suc f) zero h (b ∷ bytes) more rest ps hg hh e = absurd (omega arith)
frames-append (suc f) (suc g) h (b ∷ bytes) more rest ps hg hh e =
    elim (Next-cases (read_next (b ∷ bytes) 0)) [
      | inl r ↦
          nothing_read (suc g) h (b ∷ bytes) more rest ps hg hh
            (sym (frames_incomplete f b bytes r) ∙ e)
      | inr (inl (x, r)) ↦ cc (frames_broken f b bytes r)
      | inr (inr (p, size, r)) ↦
          let (qs, q, split) =
            prepend-eq-ok p (frames f (drop size (b ∷ bytes)))
              (sym (frames_complete f b bytes r) ∙ e) in
          let less = rest_shorter b bytes r in
          append_complete b bytes more g r
          ∙ ap (prepend (p ∷ []))
              (frames-append f g h (drop size (b ∷ bytes)) more rest qs (omega arith) hh q)
          ∙ prepend-prepend (p ∷ []) qs (frames h (rest ++ more))
          ∙ ap (λ t. prepend t (frames h (rest ++ more))) (sym split)
    ]

frames-append_err :
    (f g : ℕ) (bytes more : List ℕ) {x : Exception}
    → length bytes ≤ f
    → length bytes + length more ≤ g
    → frames f bytes ≡ err x
    → frames g (bytes ++ more) ≡ err x
frames-append_err f g [] more hf hg e = cc (frames-nil f)
frames-append_err zero g (b ∷ bytes) more hf hg e = absurd (omega arith)
frames-append_err (suc f) zero (b ∷ bytes) more hf hg e = absurd (omega arith)
frames-append_err (suc f) (suc g) (b ∷ bytes) more hf hg e =
    elim (Next-cases (read_next (b ∷ bytes) 0)) [
      | inl r ↦ cc (frames_incomplete f b bytes r)
      | inr (inl (y, r)) ↦ append_broken b bytes more g r ∙ sym (frames_broken f b bytes r) ∙ e
      | inr (inr (p, size, r)) ↦
          let less = rest_shorter b bytes r in
          let rest = frames f (drop size (b ∷ bytes)) in
          let failed = prepend-eq-err p rest (sym (frames_complete f b bytes r) ∙ e) in
          append_complete b bytes more g r
          ∙ ap (prepend (p ∷ [])) (
              frames-append_err f g (drop size (b ∷ bytes)) more (omega arith) (omega arith) failed)
    ]

module _ (bytes more : List ℕ) where
  -- Reading a piece, and then the bytes kept from it with the next piece behind them, gives the
  -- packets, the remainder or the error that reading both pieces at once gives.
  pub iter_tcp_packets-append :
      (ps : List Packet) (rest : List ℕ)
      → iter_tcp_packets bytes ≡ ok (ps, rest)
      → iter_tcp_packets (bytes ++ more) ≡ prepend ps (iter_tcp_packets (rest ++ more))
  iter_tcp_packets-append ps rest e =
      let f = length bytes in
      let g = length bytes + length more in
      let h = length rest + length more in
      iter_tcp_packets-frames g (bytes ++ more) (omega (arith, length-append bytes more))
      ∙ frames-append f g h bytes more rest ps (omega arith) (omega arith)
          (sym (iter_tcp_packets-frames f bytes (omega arith)) ∙ e)
      ∙ ap (prepend ps)
          (sym (iter_tcp_packets-frames h (rest ++ more) (omega (arith, length-append rest more))))

  -- A stream that raised goes on raising the same exception, whatever follows.
  pub iter_tcp_packets-append_err :
      (x : Exception) → iter_tcp_packets bytes ≡ err x → iter_tcp_packets (bytes ++ more) ≡ err x
  iter_tcp_packets-append_err x e =
      let f = length bytes in
      let g = length bytes + length more in
      iter_tcp_packets-frames g (bytes ++ more) (omega (arith, length-append bytes more))
      ∙ frames-append_err f g bytes more (omega arith) (omega arith)
          (sym (iter_tcp_packets-frames f bytes (omega arith)) ∙ e)

-- A whole packet in front of any bytes is the first packet, and the rest is read as if it stood
-- alone.
pub iter_tcp_packets-packet :
    (front back : List ℕ) (p : Packet)
    → parse_packet front (some false) true ≡ ok p
    → iter_tcp_packets (front ++ back) ≡ prepend (p ∷ []) (iter_tcp_packets back)
iter_tcp_packets-packet [] back p e = unfold parse_packet parse_fixed_header in cc e
iter_tcp_packets-packet (b ∷ front) back p e =
    let f = length front + length back in
    iter_tcp_packets-frames (suc f) (b ∷ (front ++ back)) (omega (arith, length-append front back))
    ∙ frames_complete f b (front ++ back) (read_next-packet (b ∷ front) back p e)
    ∙ ap (λ t. prepend (p ∷ []) (frames f t)) (drop-length (b ∷ front) back)
    ∙ ap (prepend (p ∷ [])) (sym (iter_tcp_packets-frames f back (omega arith)))
