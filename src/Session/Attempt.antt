-- ===== src/Session/Attempt.antt =====
-- One attempt of `_reader_main` in ino_a9_bridge/src/wificam_bridge/session.py: the client connects,
-- asks for sound, and its frames are handed on.
pub mod Examples
use ino_a9_local_bridge.Base.{
  ℕ, ◌≡◌, refl, sym, ap, ap₂, subst, ◌∙◌, List, [], ◌∷◌, ◌++◌, append_assoc, append-nil, Option,
  some, Bool, true, false,
}
use ino_a9_local_bridge.Base.Tests.{if◌then◌else◌}
use ino_a9_local_bridge.Base.Except.{ok}
use ino_a9_local_bridge.Crypto.{Primitives}
use ino_a9_local_bridge.Packet.{Packet, AvPacket, iter_tcp_packets}
use ino_a9_local_bridge.Packet.Stream.Loop.{iter_tcp_packets-nil}
use ino_a9_local_bridge.Camera.Reassembler.{Reassembler, reassembler}
use ino_a9_local_bridge.Camera.Client.{Settings, World, Client, M, ◌>>=◌, ◌>>◌, pure}
use ino_a9_local_bridge.Camera.Client.Steps.{Keeps, Keeps-at, after-eq-ok, if_Keeps, pure-Keeps}
use ino_a9_local_bridge.Camera.Client.Reads.{Reads, Reads-IsRead, Reads-chain}
use ino_a9_local_bridge.Camera.Client.Collects.{
  media, media-append, Collects, if_Collects, pure-Collects,
}
use ino_a9_local_bridge.Camera.Client.Connect.{connect, start_audio}
use ino_a9_local_bridge.Camera.Client.Connect.Arrived.{connect-media, start_audio-Collects}
use ino_a9_local_bridge.Camera.Client.Connect.Kept.{
  SameOutputs, SameOutputs-IsKept, connect_outputs, start_audio-Keeps,
}
use ino_a9_local_bridge.Camera.Client.Frames.{Stream, frames, max_frame_bytes}
use ino_a9_local_bridge.Camera.Client.Frames.Emits.{delivered}
use ino_a9_local_bridge.Camera.Client.Frames.Order.{Handles}
use ino_a9_local_bridge.Camera.Client.Frames.Delivered.{frames-Handles}

module _ (c : Primitives) (w : World) (st : Settings) where
  -- `if self._start_audio`
  sound : Bool → M (Unit {0})
  sound with_audio = if with_audio then start_audio c w st else pure tt

  -- The last argument says how many rounds of the frames are looked at.
  pub attempt : Bool → ℕ → M (Option Stream)
  unfolding sound
  attempt with_audio rounds = do connect c w st; sound with_audio; frames c w st rounds

  sound-Collects : (b : Bool) → Collects [] (sound b)
  unfolding sound
  sound-Collects b =
      if_Collects b (start_audio c w st) (pure tt) (start_audio-Collects c w st) (pure-Collects tt)

  sound_outputs : (b : Bool) → Keeps SameOutputs (sound b)
  unfolding sound
  sound_outputs b =
      let k = SameOutputs-IsKept in
      if_Keeps k.written b (start_audio c w st) (pure tt) (start_audio-Keeps k c w st)
        (pure-Keeps k.written tt)

  -- While an attempt goes on, what the consumer got depends on nothing but the bytes that came from
  -- the socket since, all of them from the handshake on, and on the session prefix: the stream reader
  -- makes packets of these bytes, and the media packets among them, but for those that still wait,
  -- are worth in their order what was handed on. So no media packet is lost or handled twice, and the
  -- pieces in which the bytes came make no difference.
  pub attempt-delivered :
      (with_audio : Bool) (rounds : ℕ) (v : Stream) (s t : Client)
      → attempt with_audio rounds s ≡ (t, ok (some v))
      → (stream : List ℕ) × (packets : List Packet) × (handled : List AvPacket) × (prefix : List ℕ)
        × (r : Reassembler) × (t.received ≡ s.received ++ stream)
        × (iter_tcp_packets stream ≡ ok (packets, t.buffer))
        × (handled ++ media t.pending ≡ media packets)
        × (t.session_prefix ≡ some prefix)
        × (reassembler prefix max_frame_bytes ≡ ok r)
        × (t.outputs ≡ s.outputs ++ delivered c r handled)
  unfolding attempt
  attempt-delivered with_audio rounds v s t e =
      let (a, s1, connected, e1) = after-eq-ok (connect c w st s) _ t (some v) e in
      let (b, s2, sounds, e2) = after-eq-ok (sound with_audio s1) _ t (some v) e1 in
      let (stream1, ps1, heard, parsed, waiting) = connect-media c w st s s1 connected in
      let first : Reads (record s { buffer = [] }) ps1 s1 = record {
        stream = stream1;
        heard = heard;
        parsed = parsed;
      } in
      let k = (sound-Collects with_audio).collects s1 s2 b (Reads-IsRead first) sounds in
      let (prefix, r, found, made, h) =
        frames-Handles c w st rounds v s2 t (Reads-IsRead k.reads) e2 in
      let all = Reads-chain (Reads-chain first k.reads) h.reads in
      let connect_silent = Keeps-at s s1 (ok a) (connect_outputs c w st) connected in
      let sound_silent = Keeps-at s1 s2 (ok b) (sound_outputs with_audio) sounds in
      (
        all.stream,
        (ps1 ++ k.packets) ++ h.packets,
        media h.handled,
        prefix,
        r,
        all.heard,
        all.parsed,
        sym (media-append h.handled t.pending)
            ∙ ap media h.queue
            ∙ media-append s2.pending h.packets
            ∙ ap (λ x. x ++ media h.packets)
                (k.pending
                  ∙ ap (λ x. x ++ media k.packets) waiting
                  ∙ sym (media-append ps1 k.packets))
            ∙ sym (media-append (ps1 ++ k.packets) h.packets),
        h.session_prefix ∙ found,
        made,
        h.outputs ∙ ap (λ x. x ++ delivered c r (media h.handled)) (sound_silent ∙ connect_silent),
      )
