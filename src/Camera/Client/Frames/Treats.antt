-- ===== src/Camera/Client/Frames/Treats.antt =====
-- The parts of a round of `frames`, and its deadline for frames.
use ino_a9_local_bridge.Base.{
  ℕ, ◌+◌, ◌*◌, ◌≤◌, ◌<◌, ◌≡◌, ap, subst, List, [], ◌∷◌, ◌++◌, Option, none, some, false, arith, inl,
}
use ino_a9_local_bridge.Base.Tests.{leb, ◌==◌, if◌then◌else◌}
use ino_a9_local_bridge.Base.Except.{ok-injective}
use ino_a9_local_bridge.Crypto.{Primitives}
use ino_a9_local_bridge.Packet.{Packet, rpc, av, raw, RpcPacket, AvPacket}
use ino_a9_local_bridge.Protobuf.{build_time_request_payload}
use ino_a9_local_bridge.Camera.Rpc.{rpc_response}
use ino_a9_local_bridge.Camera.Reassembler.{push, extract_g711_alaw_payload}
use ino_a9_local_bridge.Camera.Client.{
  second, time_sync_command, Settings, World, Client, Output, audio, frame, pure, lift, ask,
  next_sequence, send_request, handle_rpc_request,
}
use ino_a9_local_bridge.Camera.Client.Steps.{
  after-eq-ok, Keeps, >>=-Keeps, if_Keeps, pure-Keeps, lift-Keeps, ask-Keeps, modify-Keeps,
  send_request-Keeps, handle_rpc_request-Keeps, receive-Keeps,
}
use ino_a9_local_bridge.Camera.Client.Frames.{
  Stream, heartbeat_interval, latest, sequence_number, smaller, resolve, consumed, hand_on,
  hand_on_audio, hand_on_frame, handle_rpc, handle_av, handle_packets, heartbeat, next_packets,
  next_packets_from, activity,
}
use ino_a9_local_bridge.Camera.Client.Frames.Fair.{
  frames_in, frames_in-append, Grows, Grows-IsKept, Grows-IsWritten, handing-Keeps, consumed-Keeps,
  Fairly, pure-Fairly, >>=-Fairly, stream-Fairly, if_Fairly,
}

module _ (c : Primitives) (w : World) (st : Settings) where
  hand_on-Keeps : (output : Output) → Keeps Grows (hand_on c w st output)
  unfolding hand_on
  hand_on-Keeps output = >>=-Keeps Grows-IsWritten _ _ (handing-Keeps output) λ _.
      >>=-Keeps Grows-IsWritten (ask w.consume) _ (ask-Keeps Grows-IsWritten w.consume)
        consumed-Keeps

  hand_on_audio-Keeps : (chunk : Option (List ℕ)) → Keeps Grows (hand_on_audio c w st chunk)
  unfolding hand_on_audio
  hand_on_audio-Keeps none = pure-Keeps Grows-IsWritten tt
  hand_on_audio-Keeps (some chunk) = hand_on-Keeps (audio chunk)

  -- A frame that is handed on is one more, even where the consumer raises.
  record Hands (s t : Client) : Type 0 where
    grows : Grows s t
    new : frames_in s.outputs < frames_in t.outputs

  hand_on-Hands : (image : List ℕ) (s : Client) → Hands s (hand_on c w st (frame image) s).0
  unfolding hand_on
  hand_on-Hands image s =
      let s1 = record s { outputs = s.outputs ++ (frame image ∷ []) } in
      let rest =
        >>=-Keeps Grows-IsWritten (ask w.consume) consumed (ask-Keeps Grows-IsWritten w.consume)
          consumed-Keeps in
      let grown = rest.keeps s1 in
      let one = frames_in-append s.outputs (frame image ∷ []) in
      record {
        grows = Grows-IsWritten.chain s s1 _ ((handing-Keeps (frame image)).keeps s) grown;
        new = omega (arith, one, grown.more);
      }

  hand_on_frame-Fairly :
      (v : Stream) (image : Option (List ℕ))
      → Fairly w st.frame_timeout v.frame_deadline (hand_on_frame c w st v image)
  unfolding hand_on_frame
  hand_on_frame-Fairly v none = pure-Fairly v
  hand_on_frame-Fairly v (some image) = record {
    fairly = λ s t v' e.
        let s1 = record s { tick = s.tick + 1 } in
        let (a, u, first, rest) = after-eq-ok (hand_on c w st (frame image) s1) _ t v' e in
        let h = subst (Hands s1) (ap (λ x. x.0) first) (hand_on-Hands image s1) in
        let state : u ≡ t = ap (λ x. x.0) rest in
        let k = subst (Hands s1) state h in
        let again = ok-injective (ap (λ x. x.1) rest) in
        record {
          grows = record { ticks = omega (arith, k.grows.ticks); more = k.grows.more };
          fair = inl (
            k.new,
            record {
              read = s.tick;
              earlier = omega (arith, k.grows.ticks);
              bound =
                  subst (λ x. x.frame_deadline ≤ w.monotonic s.tick + st.frame_timeout) again
                    (omega arith);
            },
          );
        };
  }

  resolve-Grows : (p : RpcPacket) → Keeps Grows (resolve p)
  unfolding resolve
  resolve-Grows p = record { keeps = λ s. record { ticks = omega arith; more = omega arith } }

  handle_rpc-Keeps : (p : RpcPacket) → Keeps Grows (handle_rpc c w st p)
  unfolding handle_rpc
  handle_rpc-Keeps p =
      let k = Grows-IsWritten in
      >>=-Keeps k (if p.rpc_type == rpc_response then resolve p else pure false) _
        (if_Keeps k (p.rpc_type == rpc_response) (resolve p) (pure false) (resolve-Grows p)
          (pure-Keeps k false))
        λ resolved. if_Keeps k resolved (pure tt) _ (pure-Keeps k tt) (
          >>=-Keeps k (handle_rpc_request c w st p) _ (handle_rpc_request-Keeps k c w st p)
            λ _. pure-Keeps k tt)

  handle_av-Fairly :
      (v : Stream) (p : AvPacket)
      → Fairly w st.frame_timeout v.frame_deadline (handle_av c w st v p)
  unfolding handle_av
  handle_av-Fairly v p =
      let (r, result) = push c v.reassembler p in
      >>=-Fairly v.frame_deadline (hand_on_audio c w st (extract_g711_alaw_payload p)) _
        (hand_on_audio-Keeps (extract_g711_alaw_payload p))
        λ _.
          >>=-Fairly v.frame_deadline (lift result) _ (lift-Keeps Grows-IsWritten result) λ image.
            hand_on_frame-Fairly
              (record v {
                latest_av_sequence = some (latest v.latest_av_sequence p.sequence);
                reassembler = r;
              })
              image

  pub handle_packets-Fairly :
      (v : Stream) (ps : List Packet)
      → Fairly w st.frame_timeout v.frame_deadline (handle_packets c w st v ps)
  unfolding handle_packets
  handle_packets-Fairly v [] = pure-Fairly v
  handle_packets-Fairly v (rpc p ∷ ps) =
      >>=-Fairly v.frame_deadline (handle_rpc c w st p) _ (handle_rpc-Keeps p)
        λ _. handle_packets-Fairly v ps
  handle_packets-Fairly v (av p ∷ ps) =
      stream-Fairly v.frame_deadline (handle_av c w st v p) _ (handle_av-Fairly v p)
        λ v'. handle_packets-Fairly v' ps
  handle_packets-Fairly v (raw p ∷ ps) = handle_packets-Fairly v ps

  sequenced-Keeps : Keeps Grows next_sequence
  unfolding next_sequence
  sequenced-Keeps = record { keeps = λ s. record { ticks = omega arith; more = omega arith } }

  pub heartbeat-Fairly :
      (now : ℕ) (v : Stream) → Fairly w st.frame_timeout v.frame_deadline (heartbeat c w st now v)
  unfolding heartbeat
  heartbeat-Fairly now v =
      let k = Grows-IsWritten in
      let d = v.frame_deadline in
      if_Fairly d (leb v.next_heartbeat now) _ (pure v)
        (>>=-Fairly d next_sequence _ sequenced-Keeps λ sequence.
          >>=-Fairly d (ask w.wall_clock) _ (ask-Keeps k w.wall_clock) λ current.
            let request =
              build_time_request_payload current (sequence_number v.latest_av_sequence) in
            >>=-Fairly d (lift request) _ (lift-Keeps k request) λ payload.
              >>=-Fairly d (send_request c w st sequence time_sync_command payload) _
                (send_request-Keeps k c w st sequence time_sync_command payload)
                λ _. pure-Fairly (record v { next_heartbeat = now + heartbeat_interval }))
        (pure-Fairly v)

  pub activity-Fairly :
      (v : Stream) (ps : List Packet)
      → Fairly w st.frame_timeout v.frame_deadline (activity c w st v ps)
  unfolding activity
  activity-Fairly v [] = pure-Fairly v
  activity-Fairly v (p ∷ ps) =
      >>=-Fairly v.frame_deadline (ask w.monotonic) _ (ask-Keeps Grows-IsWritten w.monotonic)
        λ now. pure-Fairly (record v { activity_deadline = now + st.frame_timeout })

  next_packets_from-Keeps :
      (v : Stream) (ps : List Packet) → Keeps Grows (next_packets_from c w st v ps)
  unfolding next_packets_from
  next_packets_from-Keeps v (p ∷ ps) =
      >>=-Keeps Grows-IsWritten _ _ (modify-Keeps Grows-IsWritten _ (λ s. Grows-IsKept.queues s ps))
        λ _. pure-Keeps Grows-IsWritten (p ∷ [])
  next_packets_from-Keeps v [] =
      >>=-Keeps Grows-IsWritten (ask w.monotonic) _ (ask-Keeps Grows-IsWritten w.monotonic) λ now.
        receive-Keeps Grows-IsKept c w st
          (smaller (smaller (now + 2 * second) v.activity_deadline) v.next_heartbeat)

  pub next_packets-Keeps : (v : Stream) → Keeps Grows (next_packets c w st v)
  unfolding next_packets
  next_packets-Keeps v = record { keeps = λ s. (next_packets_from-Keeps v s.pending).keeps s }
