-- ===== src/Camera/Client/Frames/Delivered.antt =====
-- From the bytes of the socket to the frames and the sound that a session gets.
use ino_a9_local_bridge.Base.{
  ℕ, zero, suc, ◌+◌, ◌≡◌, refl, sym, ap, ap₂, subst, ◌∙◌, List, [], ◌++◌, append-nil, Option, none,
  some, Bool, true, false, ◌||◌,
}
use ino_a9_local_bridge.Base.Tests.{leb, if◌then◌else◌}
use ino_a9_local_bridge.Base.Except.{
  Exception, Result, ok, err, camera_error, ok-injective, timeout_error,
}
use ino_a9_local_bridge.Crypto.{Primitives}
use ino_a9_local_bridge.Packet.{Packet}
use ino_a9_local_bridge.Camera.Reassembler.{Reassembler, reassembler}
use ino_a9_local_bridge.Camera.Client.{Settings, World, Client, Output, M, pure, raise, ask}
use ino_a9_local_bridge.Camera.Client.Steps.{after-eq-ok, lift-eq-ok, guard-eq-ok}
use ino_a9_local_bridge.Camera.Client.Reads.{IsRead, Reads-IsRead}
use ino_a9_local_bridge.Camera.Client.Collects.{media}
use ino_a9_local_bridge.Camera.Client.Frames.{
  Stream, next_packets, activity, handle_packets, beat, treat, round, frames_loop, stopped,
  first_stream, stream, frames_with, frames, max_frame_bytes,
}
use ino_a9_local_bridge.Camera.Client.Frames.Emits.{
  delivered, pushed, Emits, ask-Emits, pure-Emits, if_Emits, >>=-Emits,
}
use ino_a9_local_bridge.Camera.Client.Frames.Handled.{
  Reassembles, handle_packets-Emits, heartbeat-Emits, activity-Emits,
}
use ino_a9_local_bridge.Camera.Client.Frames.Order.{
  Handles, Reads-between, Handles-same, Handles-chain, next_packets-Next, Handles-tick,
}

raise-Emits :
    {A : Type 0} {P : A → Type 0} {xs : List Output} (x : Exception)
    → Emits xs P (let m : M A = raise x in m)
raise-Emits {A} x = record { emits = λ s t a e. absurd (raised s t a e) }
  where
    raised : (s t : Client) (a : A) → (let m : M A = raise x in m s) ≡ (t, ok a) → ⊥
    raised s t a e = cc

pub some-injective : {A : Type 0} {a b : A} → some a ≡ some b → a ≡ b
some-injective {a = a} {b = b} e = cc

pub stopped-eq-some :
    (r : Client × Result (Option Stream)) (t : Client) (v : Stream)
    → stopped r ≡ (t, ok (some v))
    → r ≡ (t, ok (some v))
unfolding stopped
stopped-eq-some (s, ok (some v')) t v e = e
stopped-eq-some (s, ok none) t v e = cc
stopped-eq-some (s, err x) t v e = cc

-- A loop that goes on was not left.
pub goes_on :
    (b : Bool) (m : M (Option Stream)) (s t : Client) (v : Stream)
    → (if b then m else pure none) s ≡ (t, ok (some v))
    → m s ≡ (t, ok (some v))
goes_on true m s t v e = e
goes_on false m s t v e = cc

module _ (c : Primitives) (w : World) (st : Settings) where
  beat-Emits : (v : Stream) → Emits [] (Reassembles v.reassembler) (beat c w st v)
  unfolding beat
  beat-Emits v =
      >>=-Emits [] [] (ask w.monotonic) _ (ask-Emits w.monotonic)
        λ now _. heartbeat-Emits c w st now v

  treat-Emits :
      (v : Stream) (ps : List Packet)
      → Emits
          (delivered c v.reassembler (media ps))
          (Reassembles (pushed c v.reassembler (media ps)))
          (treat c w st v ps)
  unfolding treat
  treat-Emits v ps =
      let worth = delivered c v.reassembler (media ps) in
      subst (λ x. Emits x (Reassembles (pushed c v.reassembler (media ps))) (treat c w st v ps))
        (append-nil worth)
        (>>=-Emits [] (worth ++ []) (activity c w st v ps) _ (activity-Emits c w st v ps)
          λ active e.
            >>=-Emits worth [] (handle_packets c w st active ps) _
              (subst
                (λ r.
                  Emits (delivered c r (media ps)) (Reassembles (pushed c r (media ps)))
                    (handle_packets c w st active ps))
                e (handle_packets-Emits c w st active ps))
              λ v' same. >>=-Emits [] [] (ask w.monotonic) _ (ask-Emits w.monotonic) λ end _.
                if_Emits (leb v'.activity_deadline end || leb v'.frame_deadline end)
                  (raise timeout_error) (pure v') (raise-Emits timeout_error) (pure-Emits v' same))

  round-Handles :
      (v v' : Stream) (s t : Client)
      → IsRead s.buffer
      → round c w st v s ≡ (t, ok v')
      → Handles c v.reassembler v'.reassembler s t
  unfolding round
  round-Handles v v' s t read e =
      let (b, s1, first, e1) = after-eq-ok (beat c w st v s) _ t v' e in
      let (hand, s2, second_call, e2) = after-eq-ok (next_packets c w st b s1) _ t v' e1 in
      let (quiet, same) = (beat-Emits v).emits s s1 b first in
      let read1 : IsRead s1.buffer = subst IsRead (sym quiet.buffer) read in
      let next = next_packets-Next c w st b s1 s2 hand read1 second_call in
      let (loud, pushed_all) = (treat-Emits b hand).emits s2 t v' e2 in
      record {
        packets = next.packets;
        handled = hand;
        reads = Reads-between quiet next.reads loud;
        queue =
            ap (λ x. hand ++ x) loud.pending
            ∙ next.queue
            ∙ ap (λ x. x ++ next.packets) quiet.pending;
        outputs =
            loud.handed_on
            ∙ ap₂ (λ x y. x ++ delivered c y (media hand))
                (next.outputs ∙ quiet.handed_on ∙ append-nil s.outputs) same;
        reassembler = pushed_all ∙ ap (λ x. pushed c x (media hand)) same;
        session_prefix = loud.session_prefix ∙ next.session_prefix ∙ quiet.session_prefix;
      }

  frames_loop-Handles :
      (rounds : ℕ) (v v' : Stream) (s t : Client)
      → IsRead s.buffer
      → frames_loop c w st rounds v s ≡ (t, ok (some v'))
      → Handles c v.reassembler v'.reassembler s t
  unfolding frames_loop
  frames_loop-Handles zero v v' s t read e =
      let state : s ≡ t = ap (λ x. x.0) e in
      let same = some-injective (ok-injective (ap (λ x. x.1) e)) in
      subst (λ x. Handles c v.reassembler v'.reassembler s x) state
        (subst (λ x. Handles c v.reassembler x.reassembler s s) same
          (Handles-same c v.reassembler s read))
  frames_loop-Handles (suc rounds) v v' s t read e =
      let (v1, s1, first, rest) =
        after-eq-ok (round c w st v s) _ t (some v') (goes_on s.is_open _ s t v' e) in
      let one = round-Handles v v1 s s1 read first in
      Handles-chain c one (frames_loop-Handles rounds v1 v' s1 t (Reads-IsRead one.reads) rest)

  stream-Handles :
      (rounds : ℕ) (prefix : List ℕ) (v : Stream) (s t : Client)
      → IsRead s.buffer
      → stream c w st rounds prefix s ≡ (t, ok (some v))
      → (r : Reassembler) × (reassembler prefix max_frame_bytes ≡ ok r)
        × Handles c r v.reassembler s t
  unfolding stream
  stream-Handles rounds prefix v s t read e =
      let (r, made, e1) = lift-eq-ok (reassembler prefix max_frame_bytes) _ s t (some v) e in
      let s1 = record s { tick = s.tick + 1 + 1 } in
      let first = first_stream c w st r (w.monotonic s.tick) (w.monotonic (s.tick + 1)) in
      let run = stopped-eq-some (frames_loop c w st rounds first s1) t v e1 in
      let h = frames_loop-Handles rounds first v s1 t read run in
      (r, made, Handles-tick c (s.tick + 1 + 1) s h)

  frames_with-Handles :
      (rounds : ℕ) (o : Option (List ℕ)) (v : Stream) (s t : Client)
      → IsRead s.buffer
      → frames_with c w st rounds o s ≡ (t, ok (some v))
      → (prefix : List ℕ) × (r : Reassembler) × (o ≡ some prefix)
        × (reassembler prefix max_frame_bytes ≡ ok r)
        × Handles c r v.reassembler s t
  unfolding frames_with
  frames_with-Handles rounds none v s t read e = cc
  frames_with-Handles rounds (some prefix) v s t read e =
      let (_, run) =
        guard-eq-ok s.is_open (stream c w st rounds prefix) camera_error s t (some v) e in
      let (r, made, h) = stream-Handles rounds prefix v s t read run in (prefix, r, refl, made, h)

  -- While `frames` goes on, it has handled the packets that waited and those of the bytes that came,
  -- in this order, but for those that still wait; and it has handed on what their media packets are
  -- worth to a new reassembler.
  pub frames-Handles :
      (rounds : ℕ) (v : Stream) (s t : Client)
      → IsRead s.buffer
      → frames c w st rounds s ≡ (t, ok (some v))
      → (prefix : List ℕ) × (r : Reassembler) × (s.session_prefix ≡ some prefix)
        × (reassembler prefix max_frame_bytes ≡ ok r)
        × Handles c r v.reassembler s t
  unfolding frames
  frames-Handles rounds v s t = frames_with-Handles rounds s.session_prefix v s t
