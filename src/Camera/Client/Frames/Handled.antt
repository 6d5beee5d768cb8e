-- ===== src/Camera/Client/Frames/Handled.antt =====
-- Handling packets hands on what their media packets are worth.
use ino_a9_local_bridge.Base.{
  ℕ, ◌+◌, ◌≡◌, refl, sym, ap, subst, List, [], ◌∷◌, ◌++◌, append_assoc, Option, none, some, Bool,
  false,
}
use ino_a9_local_bridge.Base.Tests.{leb, ◌==◌, if◌then◌else◌}
use ino_a9_local_bridge.Base.Except.{Exception, ok}
use ino_a9_local_bridge.Crypto.{Primitives}
use ino_a9_local_bridge.Packet.{Packet, rpc, av, raw, RpcPacket, AvPacket}
use ino_a9_local_bridge.Protobuf.{build_time_request_payload}
use ino_a9_local_bridge.Camera.Rpc.{rpc_response}
use ino_a9_local_bridge.Camera.Reassembler.{Reassembler, push, extract_g711_alaw_payload}
use ino_a9_local_bridge.Camera.Client.{
  time_sync_command, Settings, World, Client, Output, audio, frame, pure, raise, lift, modify, ask,
  next_sequence, send_request, handle_rpc_request,
}
use ino_a9_local_bridge.Camera.Client.Steps.{Keeps, send_request-Keeps, handle_rpc_request-Keeps}
use ino_a9_local_bridge.Camera.Client.Collects.{media}
use ino_a9_local_bridge.Camera.Client.Frames.{
  Stream, latest, sequence_number, heartbeat_interval, resolve, consumed, hand_on, hand_on_audio,
  hand_on_frame, handle_rpc, handle_av, handle_packets, heartbeat, activity,
}
use ino_a9_local_bridge.Camera.Client.Frames.Emits.{
  audio_of, frame_of, frame_in, delivered, pushed, Emits, Quiet, Quiet-IsWritten, Any, Quiet-Emits,
  ask-Emits, pure-Emits, lift-Emits, >>=-Emits, if_Emits,
}

-- The reassembler is as given.
abbrev pub Reassembles : Reassembler → Stream → Type 0
Reassembles r st = st.reassembler ≡ r

consumed-Emits : (raised : Option Exception) → Emits [] (λ (a : Unit {0}). Any a) (consumed raised)
consumed-Emits none = pure-Emits tt tt
consumed-Emits (some e) = record { emits = λ s t a q. absurd (raised s t a q) }
  where
    raised : (s t : Client) (a : Unit {0}) → raise e s ≡ (t, ok a) → ⊥
    raised s t a q = cc

module _ (c : Primitives) (w : World) (settings : Settings) where
  hand_on-Emits :
      (output : Output)
      → Emits (output ∷ []) (λ (a : Unit {0}). Any a) (hand_on c w settings output)
  unfolding hand_on
  hand_on-Emits output =
      >>=-Emits (output ∷ []) [] (modify (λ s. record s { outputs = s.outputs ++ (output ∷ []) })) _
        (record {
          emits = λ s t a e.
              let state = ap (λ x. x.0) e in
              (
                record {
                  received = ap (λ x. x.received) (sym state);
                  buffer = ap (λ x. x.buffer) (sym state);
                  pending = ap (λ x. x.pending) (sym state);
                  session_prefix = ap (λ x. x.session_prefix) (sym state);
                  handed_on = ap (λ x. x.outputs) (sym state);
                },
                tt,
              );
        })
        λ _ _.
          >>=-Emits [] [] (ask w.consume) _ (ask-Emits w.consume) λ raised _. consumed-Emits raised

  hand_on_audio-Emits :
      (chunk : Option (List ℕ))
      → Emits (audio_of chunk) (λ (a : Unit {0}). Any a) (hand_on_audio c w settings chunk)
  unfolding hand_on_audio
  hand_on_audio-Emits none = pure-Emits tt tt
  hand_on_audio-Emits (some chunk) = hand_on-Emits (audio chunk)

  hand_on_frame-Emits :
      (st : Stream) (image : Option (List ℕ))
      → Emits (frame_of image) (Reassembles st.reassembler) (hand_on_frame c w settings st image)
  unfolding hand_on_frame
  hand_on_frame-Emits st none = pure-Emits st refl
  hand_on_frame-Emits st (some image) =
      >>=-Emits [] (frame image ∷ []) (ask w.monotonic) _ (ask-Emits w.monotonic) λ now _.
        >>=-Emits (frame image ∷ []) [] (hand_on c w settings (frame image)) _
          (hand_on-Emits (frame image))
          λ _ _. pure-Emits (record st { frame_deadline = now + settings.frame_timeout }) refl

  resolve-Keeps : (p : RpcPacket) → Keeps Quiet (resolve p)
  unfolding resolve
  resolve-Keeps p = record {
    keeps = λ s. record {
      received = refl;
      buffer = refl;
      pending = refl;
      session_prefix = refl;
      outputs = refl;
    };
  }

  answered-Emits :
      (p : RpcPacket) → Emits [] (λ (a : Bool). Any a) (handle_rpc_request c w settings p)
  answered-Emits p =
      Quiet-Emits (handle_rpc_request c w settings p)
        (handle_rpc_request-Keeps Quiet-IsWritten c w settings p)

  handle_rpc-Emits :
      (p : RpcPacket) → Emits [] (λ (a : Unit {0}). Any a) (handle_rpc c w settings p)
  unfolding handle_rpc
  handle_rpc-Emits p =
      >>=-Emits [] [] (if p.rpc_type == rpc_response then resolve p else pure false) _
        (if_Emits (p.rpc_type == rpc_response) (resolve p) (pure false)
          (Quiet-Emits (resolve p) (resolve-Keeps p)) (pure-Emits false tt))
        λ resolved _. if_Emits resolved (pure tt) _ (pure-Emits tt tt) (
          >>=-Emits [] [] (handle_rpc_request c w settings p) _ (answered-Emits p)
            λ _ _. pure-Emits tt tt)

  handle_av-Emits :
      (st : Stream) (p : AvPacket)
      → Emits
          (audio_of (extract_g711_alaw_payload p) ++ frame_in (push c st.reassembler p).1)
          (Reassembles (push c st.reassembler p).0)
          (handle_av c w settings st p)
  unfolding handle_av
  handle_av-Emits st p =
      let sound = extract_g711_alaw_payload p in
      let (r, result) = push c st.reassembler p in
      let st' = record st {
        latest_av_sequence = some (latest st.latest_av_sequence p.sequence);
        reassembler = r;
      } in
      >>=-Emits (audio_of sound) (frame_in result) (hand_on_audio c w settings sound) _
        (hand_on_audio-Emits sound)
        λ _ _. >>=-Emits [] (frame_in result) (lift result) _ (lift-Emits result) λ image e.
          subst (λ x. Emits x (Reassembles r) (hand_on_frame c w settings st' image))
            (ap frame_in (sym e)) (hand_on_frame-Emits st' image)

  pub handle_packets-Emits :
      (st : Stream) (ps : List Packet)
      → Emits
          (delivered c st.reassembler (media ps))
          (Reassembles (pushed c st.reassembler (media ps)))
          (handle_packets c w settings st ps)
  unfolding handle_packets
  handle_packets-Emits st [] = pure-Emits st refl
  handle_packets-Emits st (rpc p ∷ ps) =
      >>=-Emits [] (delivered c st.reassembler (media ps)) (handle_rpc c w settings p) _
        (handle_rpc-Emits p) λ _ _. handle_packets-Emits st ps
  handle_packets-Emits st (av p ∷ ps) =
      let sound = audio_of (extract_g711_alaw_payload p) in
      let image = frame_in (push c st.reassembler p).1 in
      let r = (push c st.reassembler p).0 in
      let rest = delivered c r (media ps) in
      subst
        (λ x.
          Emits x (Reassembles (pushed c r (media ps)))
            (handle_packets c w settings st (av p ∷ ps)))
        (append_assoc sound image rest)
        (>>=-Emits (sound ++ image) rest (handle_av c w settings st p) _ (handle_av-Emits st p)
          λ st' e.
            subst
              (λ x.
                Emits (delivered c x (media ps)) (Reassembles (pushed c x (media ps)))
                  (handle_packets c w settings st' ps))
              e (handle_packets-Emits st' ps))
  handle_packets-Emits st (raw p ∷ ps) = handle_packets-Emits st ps

  sequenced-Emits : Emits [] (λ (a : ℕ). Any a) next_sequence
  unfolding next_sequence
  sequenced-Emits = Quiet-Emits next_sequence (record {
    keeps = λ s. record {
      received = refl;
      buffer = refl;
      pending = refl;
      session_prefix = refl;
      outputs = refl;
    };
  })

  pub heartbeat-Emits :
      (now : ℕ) (st : Stream)
      → Emits [] (Reassembles st.reassembler) (heartbeat c w settings now st)
  unfolding heartbeat
  heartbeat-Emits now st =
      if_Emits (leb st.next_heartbeat now) _ (pure st)
        (>>=-Emits [] [] next_sequence _ sequenced-Emits λ sequence _.
          >>=-Emits [] [] (ask w.wall_clock) _ (ask-Emits w.wall_clock) λ current _.
            let request =
              build_time_request_payload current (sequence_number st.latest_av_sequence) in
            >>=-Emits [] [] (lift request) _ (lift-Emits request) λ payload _.
              >>=-Emits [] [] (send_request c w settings sequence time_sync_command payload) _
                (Quiet-Emits (send_request c w settings sequence time_sync_command payload) (
                  send_request-Keeps Quiet-IsWritten c w settings sequence time_sync_command
                    payload))
                λ _ _. pure-Emits (record st { next_heartbeat = now + heartbeat_interval }) refl)
        (pure-Emits st refl)

  pub activity-Emits :
      (st : Stream) (ps : List Packet)
      → Emits [] (Reassembles st.reassembler) (activity c w settings st ps)
  unfolding activity
  activity-Emits st [] = pure-Emits st refl
  activity-Emits st (p ∷ ps) =
      >>=-Emits [] [] (ask w.monotonic) _ (ask-Emits w.monotonic)
        λ now _. pure-Emits (record st { activity_deadline = now + settings.frame_timeout }) refl
