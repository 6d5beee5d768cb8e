-- ===== src/Camera/Client/Connect/Arrived.antt =====
-- What a client that has connected knows of the bytes that came.
use ino_a9_local_bridge.Base.{ℕ, ◌+◌, ◌≡◌, refl, ap, ◌∙◌, List, [], ◌++◌, some, inl, inr}
use ino_a9_local_bridge.Base.Tests.{Bool-cases}
use ino_a9_local_bridge.Base.Except.{Result, ok, err, err≢ok, camera_error}
use ino_a9_local_bridge.Crypto.{Primitives}
use ino_a9_local_bridge.Packet.{Packet, iter_tcp_packets}
use ino_a9_local_bridge.Packet.Stream.Loop.{iter_tcp_packets-nil}
use ino_a9_local_bridge.Camera.Client.{Settings, World, Client, M, raise, modify, handled, close}
use ino_a9_local_bridge.Camera.Client.Steps.{
  IsWritten, Keeps, Keeps-at, after-eq-ok, modify-Keeps, guard-eq-ok,
}
use ino_a9_local_bridge.Camera.Client.Collects.{
  media, Silent-IsWritten, Collects, Silent-Collects, lift-Collects, >>=-Collects,
}
use ino_a9_local_bridge.Camera.Client.Connect.{
  authenticate, handshake, opened, open_socket, connect, request_audio, start_audio,
}
use ino_a9_local_bridge.Camera.Client.Connect.Kept.{close-Keeps}
use ino_a9_local_bridge.Camera.Client.Connect.Media.{
  exchange-Collects, authenticate-Collects, start_video-Collects,
}

-- Nothing has come from the socket.
SameReceived : Client → Client → Type 0
SameReceived s t = t.received ≡ s.received

SameReceived-IsWritten : IsWritten SameReceived
unfolding SameReceived
SameReceived-IsWritten = record {
  same = λ s. refl;
  chain = λ s t u h k. k ∙ h;
  ticks = λ s. refl;
  writes = λ s sent. refl;
}

handled-eq-ok :
    (r : Client × Result (Unit {0})) (handler : M (Unit {0})) (t : Client)
    → handled r handler ≡ (t, ok tt)
    → r ≡ (t, ok tt)
handled-eq-ok (s, ok tt) handler t e = e
handled-eq-ok (s, err x) handler t e =
    let (_, u, cleaned, raised) = after-eq-ok (handler s) (λ _. raise x) t tt e in
    let wrong : ◌≡◌ {A = Result (Unit {0})} (err x) (ok tt) = ap (λ p. p.1) raised in
    absurd (err≢ok wrong)

module _ (c : Primitives) (w : World) (st : Settings) where
  keep_prefix-Collects :
      (prefix : List ℕ) → Collects [] (modify (λ s. record s { session_prefix = some prefix }))
  keep_prefix-Collects prefix = Silent-Collects _ (
      modify-Keeps Silent-IsWritten _
        λ s. record { received = refl; buffer = refl; pending = refl })

  handshake-Collects : Collects [] (handshake c w st)
  unfolding handshake
  handshake-Collects = >>=-Collects (authenticate c w st) _ (authenticate-Collects c w st) λ prefix.
      >>=-Collects (modify (λ s. record s { session_prefix = some prefix })) _
        (keep_prefix-Collects prefix) λ _. start_video-Collects c w st

  close_received : Keeps SameReceived (close w)
  unfolding SameReceived
  close_received = close-Keeps SameReceived-IsWritten w (λ s. refl) (λ s. refl)

  open_socket-media :
      (s t : Client)
      → open_socket c w st s ≡ (t, ok tt)
      → (stream : List ℕ) × (packets : List Packet) × (t.received ≡ s.received ++ stream)
        × (iter_tcp_packets stream ≡ ok (packets, t.buffer))
        × (media t.pending ≡ media packets)
  unfolding open_socket opened
  open_socket-media s t e = elim (Bool-cases (w.connects s.tick)) [
    | inr q ↦ absurd (err≢ok (ap (λ p. p.1) (rw q at e)))
    | inl q ↦
        let s1 = opened c w st (record s { tick = s.tick + 1 }) in
        let made = handled-eq-ok (handshake c w st s1) (close w) t (rw q at e) in
        let k = handshake-Collects.collects s1 t tt iter_tcp_packets-nil made in
        (k.reads.stream, k.packets, k.reads.heard, k.reads.parsed, k.pending)
  ]

  -- A connection that is made has lost no media packet: those that wait for `frames`, in their order,
  -- are the media packets among all packets of the bytes that came since, and what waits in the
  -- buffer is the rest of these bytes.
  pub connect-media :
      (s t : Client)
      → connect c w st s ≡ (t, ok tt)
      → (stream : List ℕ) × (packets : List Packet) × (t.received ≡ s.received ++ stream)
        × (iter_tcp_packets stream ≡ ok (packets, t.buffer))
        × (media t.pending ≡ media packets)
  unfolding connect SameReceived
  connect-media s t e =
      let (_, u, closed, e1) = after-eq-ok (close w s) (λ _. open_socket c w st) t tt e in
      let heard = Keeps-at s u (ok tt) close_received closed in
      let (stream, packets, received, parsed, waiting) = open_socket-media u t e1 in
      (stream, packets, received ∙ ap (λ x. x ++ stream) heard, parsed, waiting)

  request_audio-Collects : Collects [] (request_audio c w st)
  unfolding request_audio
  request_audio-Collects = search (>>=-Collects, lift-Collects, exchange-Collects) depth 12

  -- `start_audio` loses none either.
  pub start_audio-Collects : Collects [] (start_audio c w st)
  unfolding start_audio
  start_audio-Collects = record {
    collects = λ s t a read e.
        request_audio-Collects.collects s t a read
          (guard-eq-ok s.is_open (request_audio c w st) camera_error s t a e).1;
  }
