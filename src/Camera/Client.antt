-- ===== src/Camera/Client.antt =====
-- `CameraClient` of ino_a9_bridge/src/wificam_bridge/camera.py, as the thread that connects and reads
-- sees it: its fields, the calls it makes of its surroundings, and sending and receiving. Times are in
-- nanoseconds.
pub mod Connect
pub mod Frames
pub mod Steps
pub mod Reads
pub mod Collects
pub mod Ends
pub mod Examples
use ino_a9_local_bridge.Base.{
  ℕ, zero, suc, ◌+◌, ◌*◌, List, [], ◌∷◌, ◌++◌, Option, none, some, Bool, true, false, not, ◌&&◌,
}
use ino_a9_local_bridge.Base.Tests.{ltb, ◌==◌, if◌then◌else◌}
use ino_a9_local_bridge.Base.Lists.{is_empty}
use ino_a9_local_bridge.Base.Int.{ℤ}
use ino_a9_local_bridge.Base.Except.{
  Exception, Result, ok, err, camera_error, os_error, value_error, out_of_fuel, require,
}
use ino_a9_local_bridge.Crypto.{Primitives}
use ino_a9_local_bridge.Packet.{Packet, rpc, RpcPacket, iter_tcp_packets}
use ino_a9_local_bridge.Protobuf.{build_time_sync_response}
use ino_a9_local_bridge.Camera.Rpc.{pack_rpc, decrypt_rpc_payload, rpc_request, rpc_response}
use ino_a9_local_bridge.Camera.Pending.{Calls, allocate_sequence, fail_pending}

abbrev pub second : ℕ
second = 1000000000

abbrev pub lan_auth_command : ℕ
lan_auth_command = 2650

abbrev pub sync_command : ℕ
sync_command = 106

abbrev pub time_sync_command : ℕ
time_sync_command = 107

abbrev pub video_start_command : ℕ
video_start_command = 2610

abbrev pub audio_start_command : ℕ
audio_start_command = 2614

abbrev pub video_max_qos : ℕ
video_max_qos = 30

abbrev pub g711_alaw_sample_rate : ℕ
g711_alaw_sample_rate = 8000

-- The credentials as bytes, and the timeouts.
pub record Settings : Type 0 where
  pub bootstrap_prefix : List ℕ
  pub user : List ℕ
  pub lan_password : List ℕ
  pub connect_timeout : ℕ
  pub frame_timeout : ℕ
  pub control_timeout : ℕ

-- The tests of `__init__` on the timeouts.
pub camera_settings : Settings → Option ℕ → Result Settings
camera_settings s control_timeout =
    if not (ltb 0 s.frame_timeout) then err value_error else elim control_timeout [
      | none ↦ ok (record s { control_timeout = s.connect_timeout })
      | some t ↦ if ltb 0 t then ok (record s { control_timeout = t }) else err value_error
    ]

-- What `recv` does: it times out, raises, or returns bytes, none of them at the end of the stream.
pub data Arrival : Type 0 where
  timed_out : Arrival
  failed : Arrival
  bytes : List ℕ → Arrival

-- What the client calls: the two clocks, the socket, and its consumer, which may raise or leave. The
-- calls are numbered, and each has its answer.
pub record World : Type 0 where
  pub monotonic : ℕ → ℕ
  pub wall_clock : ℕ → ℤ
  pub connects : ℕ → Bool
  pub recv : ℕ → Arrival
  pub sends : ℕ → Bool
  pub closes : ℕ → Bool
  pub consume : ℕ → Option Exception

-- What a client hands to its consumer.
pub data Output : Type 0 where
  audio : List ℕ → Output
  frame : List ℕ → Output

-- The fields of `CameraClient`, of which `calls` holds those that its threads share; then how many
-- calls of the world were made, and what went to the socket, came from it, and was handed on.
pub record Client : Type 0 where
  pub is_open : Bool
  pub buffer : List ℕ
  pub pending : List Packet
  pub session_prefix : Option (List ℕ)
  pub calls : Calls
  pub tick : ℕ
  pub sent : List (List ℕ)
  pub received : List ℕ
  pub outputs : List Output

-- A method may change the client and may raise.
abbrev pub M : Type 0 → Type 0
M A = Client → Client × Result A

abbrev pub after : {A B : Type 0} → Client × Result A → (A → M B) → Client × Result B
after (s, ok a) rest = rest a s
after (s, err e) rest = (s, err e)

infixl 5 ◌>>=◌ ◌>>◌
abbrev pub ◌>>=◌ : {A B : Type 0} → M A → (A → M B) → M B
◌>>=◌ call rest s = after (call s) rest

abbrev pub ◌>>◌ : {B : Type 0} → M (Unit {0}) → M B → M B
call >> rest = call >>= λ _. rest

abbrev pub pure : {A : Type 0} → A → M A
pure a s = (s, ok a)

abbrev pub raise : {A : Type 0} → Exception → M A
raise e s = (s, err e)

-- A call that does not touch the client.
abbrev pub lift : {A : Type 0} → Result A → M A
lift r s = (s, r)

abbrev pub modify : (Client → Client) → M (Unit {0})
modify f s = (f s, ok tt)

-- The answer to the next call of the world.
abbrev pub ask : {A : Type 0} → (ℕ → A) → M A
ask answer s = (record s { tick = s.tick + 1 }, ok (answer s.tick))

-- A loop that was left, or its next round.
abbrev pub or_else : {A : Type 0} → Option A → M A → M A
or_else (some a) next = pure a
or_else none next = next

-- `except Exception: handler(); raise`; what the handler raises is raised instead.
abbrev pub handled : {A : Type 0} → Client × Result A → M (Unit {0}) → Client × Result A
handled (s, ok a) handler = (s, ok a)
handled (s, err e) handler = after (handler s) (λ _. raise e)

-- The `try` of `close`: the socket is given up also where closing it raises.
unfoldable pub close_socket : World → M (Unit {0})
close_socket w = do
  closed ← ask w.closes
  modify (λ s. record s { is_open = false })
  if closed then pure tt else raise os_error

-- What `close` does behind the socket.
abbrev pub cleared : Client → Client
cleared s = record s {
  session_prefix = none;
  buffer = [];
  pending = [];
  calls = fail_pending camera_error s.calls;
}

-- `close`
unfoldable pub close : World → M (Unit {0})
unfolding close_socket
close w = do λ s. (if s.is_open then close_socket w else pure tt) s; modify cleared

-- `_allocate_sequence`
pub next_sequence : M ℕ
next_sequence s = let (n, calls) = allocate_sequence s.calls in (record s { calls = calls }, ok n)

abbrev pub is_time_request : RpcPacket → Bool
is_time_request packet = packet.rpc_type == rpc_request && packet.command_id == time_sync_command

module _ (c : Primitives) (w : World) (settings : Settings) where
  -- `_send`, behind its test.
  pub sendall : List ℕ → M (Unit {0})
  sendall data_bytes = do
    sent ← ask w.sends
    if sent then modify (λ s. record s { sent = s.sent ++ (data_bytes ∷ []) }) else raise os_error

  -- `_send`
  pub send : List ℕ → M (Unit {0})
  unfolding sendall
  send data_bytes s = (if s.is_open then sendall data_bytes else raise camera_error) s

  -- `_send_request`
  unfoldable pub send_request : ℕ → ℕ → List ℕ → M (Unit {0})
  unfolding send
  send_request sequence command_id plaintext = do
    packed ← lift (pack_rpc c sequence command_id plaintext settings.bootstrap_prefix rpc_request 0)
    send packed

  -- The answer to a time request.
  pub answer_time_request : RpcPacket → M (Unit {0})
  unfolding send
  answer_time_request packet = do
    request ← lift (decrypt_rpc_payload c packet settings.bootstrap_prefix)
    current ← ask w.wall_clock
    response ← lift (build_time_sync_response request current)
    packed ← lift (
        pack_rpc c packet.sequence time_sync_command response settings.bootstrap_prefix rpc_response
          0)
    send packed

  -- `_handle_rpc_request`
  pub handle_rpc_request : RpcPacket → M Bool
  unfolding answer_time_request
  handle_rpc_request packet =
      if is_time_request packet then (do answer_time_request packet; pure true) else pure false

  -- Bytes from the socket go through the stream reader; what it leaves stays in the buffer.
  pub take_bytes : List ℕ → M (List Packet)
  take_bytes received s =
      (do
        (packets, rest) ← lift (iter_tcp_packets (s.buffer ++ received))
        modify (λ s'. record s' { buffer = rest })
        pure packets)
        (record s { received = s.received ++ received })

  -- What `recv` returned; `some packets` leaves the loop.
  pub arrived : Arrival → M (Option (List Packet))
  unfolding take_bytes
  arrived timed_out = pure none
  arrived failed = raise os_error
  arrived (bytes received) =
      if is_empty received
      then raise camera_error
      else do packets ← take_bytes received; pure (if is_empty packets then none else some packets)

  -- A round of `_receive` behind its test.
  pub read_socket : M (Option (List Packet))
  unfolding arrived
  read_socket = do _ ← ask w.monotonic; arrival ← ask w.recv; arrived arrival

  -- `while time.monotonic() < deadline`; the first argument bounds the rounds.
  receive_loop : ℕ → ℕ → M (List Packet)
  receive_loop zero deadline = raise out_of_fuel
  receive_loop (suc fuel) deadline = do
    now ← ask w.monotonic
    (if ltb now deadline
        then (do found ← read_socket; or_else found (receive_loop fuel deadline))
        else pure [])

  -- `_receive`. Each call of the world takes a nanosecond at least, so the deadline bounds the rounds.
  pub receive : ℕ → M (List Packet)
  unfolding receive_loop read_socket
  receive deadline s =
      (if s.is_open then receive_loop (suc deadline) deadline else raise camera_error) s
