-- ===== src/Camera/Client/Connect.antt =====
-- `connect`, `start_audio` and the waits they are made of, in camera.py.
pub mod Kept
pub mod Closed
pub mod Media
pub mod Arrived
pub mod Answer
pub mod Total
use ino_a9_local_bridge.Base.{
  ℕ, zero, suc, ◌+◌, ◌*◌, List, [], ◌∷◌, ◌++◌, Option, none, some, Bool, true, false, not, ◌&&◌,
  ◌||◌,
}
use ino_a9_local_bridge.Base.Tests.{ltb, leb, ◌==◌, if◌then◌else◌}
use ino_a9_local_bridge.Base.Lists.{length}
use ino_a9_local_bridge.Base.Int.{pos}
use ino_a9_local_bridge.Base.Except.{
  Result, ok, err, camera_error, timeout_error, os_error, out_of_fuel, require,
}
use ino_a9_local_bridge.Crypto.{Primitives}
use ino_a9_local_bridge.Packet.{Packet, rpc, RpcPacket}
use ino_a9_local_bridge.Protobuf.{
  build_lan_auth_request, encode_protobuf_varint, first_bytes_field, first_varint_field,
}
use ino_a9_local_bridge.Camera.Rpc.{decrypt_rpc_payload, rpc_request, rpc_response}
use ino_a9_local_bridge.Camera.Reassembler.{g711_alaw_format}
use ino_a9_local_bridge.Camera.Client.{
  second, lan_auth_command, sync_command, video_start_command, audio_start_command, video_max_qos,
  g711_alaw_sample_rate, Settings, World, Client, M, ◌>>=◌, ◌>>◌, pure, raise, lift, modify, ask,
  or_else, handled, close, send_request, is_time_request, handle_rpc_request, receive,
}

abbrev pub put_back : Packet → M (Unit {0})
put_back packet = modify λ s. record s { pending = s.pending ++ (packet ∷ []) }

-- The response to a request.
abbrev pub answers : ℕ → ℕ → Packet → Option RpcPacket
answers sequence command_id (rpc p) =
    if p.rpc_type == rpc_response && (p.sequence == sequence && p.command_id == command_id)
    then some p
    else none
answers sequence command_id _ = none

-- `string.hexdigits`
abbrev pub is_hex_digit : ℕ → Bool
is_hex_digit b = (leb 48 b && leb b 57) || ((leb 97 b && leb b 102) || (leb 65 b && leb b 70))

abbrev pub all_hex : List ℕ → Bool
all_hex [] = true
all_hex (b ∷ bytes) = is_hex_digit b && all_hex bytes

-- A session prefix is what the frames' key is derived from.
abbrev pub is_session_prefix : List ℕ → Bool
is_session_prefix prefix = length prefix == 32 && all_hex prefix

abbrev pub code_is_zero : RpcPacket → Bool
code_is_zero packet = elim packet.response_code [ none ↦ false | some code ↦ code == 0 ]

abbrev pub time_request : Packet → Option RpcPacket
time_request (rpc p) = if is_time_request p then some p else none
time_request _ = none

module _ (c : Primitives) (w : World) (settings : Settings) where
  -- A packet that is no answer: a time request is answered, all else waits for `frames`.
  pub set_aside : Packet → M (Unit {0})
  set_aside (rpc p) = do
    done ← handle_rpc_request c w settings p
    if done then pure tt else put_back (rpc p)
  set_aside packet = put_back packet

  -- A packet of one call of `_receive`, with the answer found before; the last answer counts.
  sort_packet : Packet → Option RpcPacket → Option RpcPacket → M (Option RpcPacket)
  unfolding set_aside
  sort_packet packet (some p) found = pure (some p)
  sort_packet packet none found = do set_aside packet; pure found

  pub sort_packets : ℕ → ℕ → List Packet → Option RpcPacket → M (Option RpcPacket)
  unfolding sort_packet
  sort_packets sequence command_id [] found = pure found
  sort_packets sequence command_id (packet ∷ packets) found = do
    found' ← sort_packet packet (answers sequence command_id packet) found
    sort_packets sequence command_id packets found'

  -- The answer of a round, or the next round.
  judge : Option RpcPacket → M RpcPacket → M RpcPacket
  judge (some p) next = if code_is_zero p then pure p else raise camera_error
  judge none next = next

  wait_loop : ℕ → ℕ → ℕ → ℕ → M RpcPacket
  unfolding sort_packets judge
  wait_loop zero sequence command_id deadline = raise out_of_fuel
  wait_loop (suc fuel) sequence command_id deadline = do
    now ← ask w.monotonic
    (if ltb now deadline
        then (do
          packets ← receive c w settings deadline
          found ← sort_packets sequence command_id packets none
          judge found (wait_loop fuel sequence command_id deadline))
        else raise timeout_error)

  -- `_wait_response`
  pub wait_response : ℕ → ℕ → M RpcPacket
  unfolding wait_loop receive
  wait_response sequence command_id = do
    now ← ask w.monotonic
    let deadline = now + settings.connect_timeout
    wait_loop (suc deadline) sequence command_id deadline

  -- A packet of one call of `_receive`, with the replies so far.
  answer_packet : Packet → Option RpcPacket → ℕ → M ℕ
  answer_packet packet (some p) replies = do
    _ ← handle_rpc_request c w settings p
    pure (replies + 1)
  answer_packet packet none replies = do put_back packet; pure replies

  pub answer_packets : List Packet → ℕ → M ℕ
  unfolding answer_packet
  answer_packets [] replies = pure replies
  answer_packets (packet ∷ packets) replies = do
    replies' ← answer_packet packet (time_request packet) replies
    answer_packets packets replies'

  sync_loop : ℕ → ℕ → ℕ → M (Unit {0})
  unfolding answer_packets
  sync_loop zero deadline replies = raise out_of_fuel
  sync_loop (suc fuel) deadline replies = do
    now ← ask w.monotonic
    (if ltb now deadline && ltb replies 2
        then (do
          packets ← receive c w settings deadline
          replies' ← answer_packets packets replies
          sync_loop fuel deadline replies')
        else pure tt)

  -- `_answer_initial_time_syncs`
  pub answer_initial_time_syncs : M (Unit {0})
  unfolding sync_loop
  answer_initial_time_syncs = do
    now ← ask w.monotonic
    let deadline = now + 2 * second
    sync_loop (suc deadline) deadline 0

  -- A request and the wait for its answer.
  unfoldable pub exchange : ℕ → ℕ → List ℕ → M RpcPacket
  unfolding wait_response
  exchange sequence command_id plaintext = do
    send_request c w settings sequence command_id plaintext
    wait_response sequence command_id

  -- The requests of `connect` behind the one for a connection: the session prefix is read and tested,
  pub authenticate : M (List ℕ)
  unfolding exchange
  authenticate = do
    credentials ← lift (build_lan_auth_request settings.user settings.lan_password)
    auth ← exchange 1 lan_auth_command credentials
    payload ← lift (decrypt_rpc_payload c auth settings.bootstrap_prefix)
    prefix ← lift (first_bytes_field payload 1)
    lift (require (is_session_prefix prefix) camera_error)
    pure prefix

  -- and then the clocks are compared and the video is started.
  pub start_video : M (Unit {0})
  unfolding exchange answer_initial_time_syncs
  start_video = do
    sync ← lift (encode_protobuf_varint (pos 1) (pos 1))
    _ ← exchange 2 sync_command sync
    answer_initial_time_syncs
    qos ← lift (encode_protobuf_varint (pos 2) (pos video_max_qos))
    _ ← exchange 3 video_start_command qos
    pure tt

  pub handshake : M (Unit {0})
  unfolding authenticate start_video
  handshake = do
    prefix ← authenticate
    modify (λ s. record s { session_prefix = some prefix })
    start_video

  -- `connect` with the new socket.
  pub opened : Client → Client
  opened s = record s {
    is_open = true;
    buffer = [];
    pending = [];
    calls = record s.calls { next_sequence = 5 };
  }

  pub open_socket : M (Unit {0})
  unfolding handshake opened
  open_socket = do
    connected ← ask w.connects
    if connected then (λ s. handled (handshake (opened s)) (close w)) else raise os_error

  unfoldable pub connect : M (Unit {0})
  unfolding open_socket
  connect = do close w; open_socket

  -- The format of the sound is tested.
  pub request_audio : M (Unit {0})
  unfolding exchange
  request_audio = do
    response ← exchange 4 audio_start_command []
    payload ← lift (decrypt_rpc_payload c response settings.bootstrap_prefix)
    media_format ← lift (first_varint_field payload 5)
    sample_rate ← lift (first_varint_field payload 6)
    lift (
        require (media_format == g711_alaw_format && sample_rate == g711_alaw_sample_rate)
          camera_error)

  pub start_audio : M (Unit {0})
  unfolding request_audio
  start_audio s = (if s.is_open then request_audio else raise camera_error) s
