-- ===== src/Camera/Client/Examples.antt =====
-- A camera that lets a client in and sends one chunk of sound.
use ino_a9_local_bridge.Varint.{decode_loop, decode_varint}
use ino_a9_local_bridge.Base.Tests.{◌==◌, if◌then◌else◌}
use ino_a9_local_bridge.Packet.{
  parse_rpc, parse_packet, parse_fixed_header, read_next, iter_loop, iter_tcp_packets, RpcPacket,
}
use ino_a9_local_bridge.Camera.Rpc.{pack_rpc, rpc_request}
use ino_a9_local_bridge.Camera.Client.{
  send_request, second, Settings, World, Client, Arrival, timed_out, bytes,
}
use ino_a9_local_bridge.Camera.Client.Connect.{connect, exchange}
use ino_a9_local_bridge.Base.{◌≤◌, arith, ℕ, ◌*◌, ◌≡◌, refl, List, [], ◌∷◌, none, some, true, false}
use ino_a9_local_bridge.Base.Int.{pos}
use ino_a9_local_bridge.Base.Except.{ok}
use ino_a9_local_bridge.Crypto.Examples.{plain, copies, padded}
use ino_a9_local_bridge.Camera.Pending.{no_calls}
use ino_a9_local_bridge.Camera.Client.Connect.Closed.{IsConcluded, connect-IsConcluded}
use ino_a9_local_bridge.Camera.Client.Connect.Answer.{IsAnswer, exchange-IsAnswer}
use ino_a9_local_bridge.Camera.Client.Connect.Total.{connect-Ends}
use ino_a9_local_bridge.Base.Raises.{Raises, IsPython}

abbrev pub settings : Settings
settings = record {
  bootstrap_prefix = copies 4 65;
  user = 117 ∷ [];
  lan_password = 112 ∷ [];
  connect_timeout = 100 * second;
  frame_timeout = 100 * second;
  control_timeout = 100 * second;
}

-- The authentication's answer, with a prefix of 32 letters; the next two answers; a media packet.
abbrev pub answer : ℕ → Arrival
answer n =
    if n == 6
    then bytes (0x48 ∷ 0x35 ∷ 1 ∷ 0xda ∷ 0x14 ∷ 13 ∷ 0 ∷ padded (0x0a ∷ 0x20 ∷ copies 32 97))
    else if n == 12
    then bytes (0x48 ∷ 4 ∷ 2 ∷ 0x6a ∷ 1 ∷ 0 ∷ [])
    else if n == 40
    then bytes (0x48 ∷ 5 ∷ 3 ∷ 0xb2 ∷ 0x14 ∷ 1 ∷ 0 ∷ [])
    else if n == 47
    then bytes (0x68 ∷ 9 ∷ 21 ∷ 0 ∷ 0 ∷ 1 ∷ 0 ∷ 0 ∷ 1 ∷ 0 ∷ 77 ∷ [])
    else timed_out

abbrev pub world : World
world = record {
  monotonic = λ n. n * 100000000;
  wall_clock = λ n. pos n;
  connects = λ n. true;
  closes = λ n. true;
  recv = answer;
  sends = λ n. true;
  consume = λ n. none;
}

abbrev pub fresh : Client
fresh = record {
  is_open = false;
  buffer = [];
  pending = [];
  session_prefix = none;
  calls = no_calls;
  tick = 0;
  sent = [];
  received = [];
  outputs = [];
}

connect-IsConcluded_example : IsConcluded world (connect plain world settings fresh)
connect-IsConcluded_example = connect-IsConcluded plain world settings fresh

runs : (n : ℕ) → n ≤ world.monotonic n
runs n = omega arith

connect-Ends_example : Raises IsPython (connect plain world settings fresh).1
connect-Ends_example = connect-Ends plain world settings runs fresh

-- The client before it asks for video.
abbrev synchronised : Client
synchronised = record fresh { is_open = true; tick = 35 }

abbrev video_response : RpcPacket
video_response = record {
  header = record { message_type = 4; flag = 8; body_length = 5; is_udp = false; size = 2 };
  sequence = 3;
  command_id = 2610;
  encryption_type = 0;
  rpc_type = 1;
  response_code = some 0;
  payload = [];
}

started : Client
unfolding exchange
started = (exchange plain world settings 3 2610 [] synchronised).0

video_starts : exchange plain world settings 3 2610 [] synchronised ≡ (started, ok video_response)
unfolding decode_loop decode_varint exchange iter_loop iter_tcp_packets pack_rpc parse_fixed_header
    parse_packet parse_rpc read_next send_request started
video_starts = refl

exchange-IsAnswer_example :
    IsAnswer 3 2610 video_response
    × ((message : List ℕ) × (more : List (List ℕ)) × (pack_rpc plain 3 2610 []
            settings.bootstrap_prefix rpc_request 0
          ≡ ok message)
        × (started.sent ≡ message ∷ more))
exchange-IsAnswer_example =
    exchange-IsAnswer plain world settings 3 2610 [] synchronised started video_response
      video_starts
