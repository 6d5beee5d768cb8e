-- ===== src/Camera/Client/Frames.antt =====
-- The generator `frames` of camera.py: heartbeats, packets in the order of their arrival, and the
-- deadlines that a silent camera misses.
pub mod Emits
pub mod Handled
pub mod Order
pub mod Delivered
pub mod Fair
pub mod Treats
pub mod Rounds
pub mod Live
pub mod Examples
use ino_a9_local_bridge.Base.{
  ℕ, zero, suc, ◌+◌, ◌*◌, ◌/◌, List, [], ◌∷◌, ◌++◌, Option, none, some, Bool, true, false, not,
  ◌&&◌, ◌||◌,
}
use ino_a9_local_bridge.Base.Tests.{ltb, leb, ◌==◌, if◌then◌else◌}
use ino_a9_local_bridge.Base.Lists.{is_empty}
use ino_a9_local_bridge.Base.Int.{ℤ, pos}
use ino_a9_local_bridge.Base.Except.{Exception, Result, ok, err, camera_error, timeout_error}
use ino_a9_local_bridge.Crypto.{Primitives}
use ino_a9_local_bridge.Packet.{Packet, rpc, av, raw, RpcPacket, AvPacket}
use ino_a9_local_bridge.Protobuf.{build_time_request_payload}
use ino_a9_local_bridge.Camera.Rpc.{rpc_response}
use ino_a9_local_bridge.Camera.Reassembler.{
  Reassembler, reassembler, push, extract_g711_alaw_payload,
}
use ino_a9_local_bridge.Camera.Pending.{Calls, resolve_pending, fail_pending}
use ino_a9_local_bridge.Camera.Client.{
  second, time_sync_command, Settings, World, Client, Output, audio, frame, M, ◌>>=◌, ◌>>◌, pure,
  raise, lift, modify, ask, next_sequence, send_request, handle_rpc_request, receive,
}

abbrev pub heartbeat_interval : ℕ
heartbeat_interval = second / 2

-- The default of `MJPEGReassembler`.
abbrev pub max_frame_bytes : ℕ
max_frame_bytes = 2000000

-- The local variables of `frames`.
pub record Stream : Type 0 where
  pub reassembler : Reassembler
  pub activity_deadline : ℕ
  pub frame_deadline : ℕ
  pub next_heartbeat : ℕ
  pub latest_av_sequence : Option ℕ

-- `latest_av_sequence is None or packet.sequence > latest_av_sequence`
abbrev pub latest : Option ℕ → ℕ → ℕ
latest none sequence = sequence
latest (some n) sequence = if ltb n sequence then sequence else n

abbrev pub sequence_number : Option ℕ → Option ℤ
sequence_number none = none
sequence_number (some n) = some (pos n)

-- `min(time.monotonic() + 2.0, activity_deadline, next_heartbeat)`
abbrev pub smaller : ℕ → ℕ → ℕ
smaller a b = if ltb b a then b else a

-- `_resolve_pending`
pub resolve : RpcPacket → M Bool
resolve packet s =
    let (calls, resolved) = resolve_pending packet s.calls in
    (record s { calls = calls }, ok resolved)

-- The consumer returned, or raised.
abbrev pub consumed : Option Exception → M (Unit {0})
consumed none = pure tt
consumed (some e) = raise e

-- `finally`
pub stopped : Client × Result (Option Stream) → Client × Result (Option Stream)
stopped (s, ok (some st)) = (s, ok (some st))
stopped (s, r) = (record s { calls = fail_pending camera_error s.calls }, r)

module _ (c : Primitives) (w : World) (settings : Settings) where
  -- A call of `audio_callback`, or a `yield`.
  pub hand_on : Output → M (Unit {0})
  hand_on output = do
    modify (λ s. record s { outputs = s.outputs ++ (output ∷ []) })
    raised ← ask w.consume
    consumed raised

  pub hand_on_audio : Option (List ℕ) → M (Unit {0})
  unfolding hand_on
  hand_on_audio none = pure tt
  hand_on_audio (some chunk) = hand_on (audio chunk)

  -- A frame that is complete postpones the frame deadline.
  pub hand_on_frame : Stream → Option (List ℕ) → M Stream
  unfolding hand_on
  hand_on_frame st none = pure st
  hand_on_frame st (some image) = do
    now ← ask w.monotonic
    hand_on (frame image)
    pure (record st { frame_deadline = now + settings.frame_timeout })

  -- A response that no call waits for goes to the handler of requests, which leaves it alone.
  pub handle_rpc : RpcPacket → M (Unit {0})
  unfolding resolve
  handle_rpc packet = do
    resolved ← if packet.rpc_type == rpc_response then resolve packet else pure false
    if resolved then pure tt else do _ ← handle_rpc_request c w settings packet; pure tt

  -- With an audio callback, as sessions pass one.
  pub handle_av : Stream → AvPacket → M Stream
  unfolding hand_on_audio hand_on_frame
  handle_av st packet = do
    let st' = record st { latest_av_sequence = some (latest st.latest_av_sequence packet.sequence) }
    hand_on_audio (extract_g711_alaw_payload packet)
    let (reassembler', pushed) = push c st'.reassembler packet
    image ← lift pushed
    hand_on_frame (record st' { reassembler = reassembler' }) image

  -- The loop over the packets of a round.
  pub handle_packets : Stream → List Packet → M Stream
  unfolding handle_rpc handle_av
  handle_packets st [] = pure st
  handle_packets st (rpc p ∷ packets) = do handle_rpc p; handle_packets st packets
  handle_packets st (av p ∷ packets) = do st' ← handle_av st p; handle_packets st' packets
  handle_packets st (raw p ∷ packets) = handle_packets st packets

  -- A time request that acknowledges the latest media packet.
  pub heartbeat : ℕ → Stream → M Stream
  unfolding next_sequence
  heartbeat now st =
      if leb st.next_heartbeat now
      then (do
        sequence ← next_sequence
        current ← ask w.wall_clock
        payload ← lift (build_time_request_payload current (sequence_number st.latest_av_sequence))
        send_request c w settings sequence time_sync_command payload
        pure (record st { next_heartbeat = now + heartbeat_interval }))
      else pure st

  -- What `connect` put back comes first, one packet in a round.
  next_packets_from : Stream → List Packet → M (List Packet)
  next_packets_from st (packet ∷ packets) = do
    modify (λ s. record s { pending = packets })
    pure (packet ∷ [])
  next_packets_from st [] = do
    now ← ask w.monotonic
    receive c w settings
        (smaller (smaller (now + 2 * second) st.activity_deadline) st.next_heartbeat)

  pub next_packets : Stream → M (List Packet)
  unfolding next_packets_from
  next_packets st s = next_packets_from st s.pending s

  pub activity : Stream → List Packet → M Stream
  activity st [] = pure st
  activity st (packet ∷ packets) = do
    now ← ask w.monotonic
    pure (record st { activity_deadline = now + settings.frame_timeout })

  -- The start of a round,
  pub beat : Stream → M Stream
  unfolding heartbeat
  beat st = do now ← ask w.monotonic; heartbeat now st

  -- the packets of the round, with the deadlines behind them,
  pub treat : Stream → List Packet → M Stream
  unfolding activity handle_packets
  treat st packets = do
    active ← activity st packets
    st' ← handle_packets active packets
    end ← ask w.monotonic
    (if leb st'.activity_deadline end || leb st'.frame_deadline end
        then raise timeout_error
        else pure st')

  -- and the whole.
  pub round : Stream → M Stream
  unfolding beat next_packets treat
  round st = do beaten ← beat st; packets ← next_packets beaten; treat beaten packets

  -- `while self._socket is not None`: the stream goes on until it fails, so the first argument says
  -- how many rounds are looked at. `some st` is a stream that goes on, `none` one that has ended.
  pub frames_loop : ℕ → Stream → M (Option Stream)
  unfolding round
  frames_loop zero st s = (s, ok (some st))
  frames_loop (suc rounds) st s =
      (if s.is_open then (do st' ← round st; frames_loop rounds st') else pure none) s

  abbrev pub first_stream : Reassembler → ℕ → ℕ → Stream
  first_stream media start beat_at = record {
    reassembler = media;
    activity_deadline = start + settings.frame_timeout;
    frame_deadline = start + settings.frame_timeout;
    next_heartbeat = beat_at + heartbeat_interval;
    latest_av_sequence = none;
  }

  -- The loop with its first deadlines.
  pub stream : ℕ → List ℕ → M (Option Stream)
  unfolding frames_loop stopped
  stream rounds prefix = do
    media ← lift (reassembler prefix max_frame_bytes)
    start ← ask w.monotonic
    beat_at ← ask w.monotonic
    λ s. stopped (frames_loop rounds (first_stream media start beat_at) s)

  -- `if self._socket is None or self._session_prefix is None`
  frames_with : ℕ → Option (List ℕ) → M (Option Stream)
  unfolding stream
  frames_with rounds none s = (s, err camera_error)
  frames_with rounds (some prefix) s =
      (if s.is_open then stream rounds prefix else raise camera_error) s

  unfoldable pub frames : ℕ → M (Option Stream)
  unfolding frames_with
  frames rounds s = frames_with rounds s.session_prefix s
