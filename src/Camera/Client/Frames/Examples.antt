-- ===== src/Camera/Client/Frames/Examples.antt =====
-- A camera whose every chunk of bytes is an image in two packets, with deadlines of a few calls.
use ino_a9_local_bridge.Crypto.{derive_av_key}
use ino_a9_local_bridge.Crypto.{aes_cbc_decrypt_unpadded}
use ino_a9_local_bridge.Base.{ℕ, suc, ◌+◌, ◌≤◌, ◌≡◌, refl, List, [], ◌∷◌, ◌++◌, some, true, arith}
use ino_a9_local_bridge.Base.Except.{ok}
use ino_a9_local_bridge.Crypto.Examples.{plain, copies}
use ino_a9_local_bridge.Camera.Client.{Settings, World, Client, bytes, receive}
use ino_a9_local_bridge.Camera.Client.Examples.{settings, world, fresh}
use native.Mathlib.Decide.{dec_le}
use ino_a9_local_bridge.Varint.{decode_loop, decode_varint}
use ino_a9_local_bridge.Base.Tests.{lt_wf}
use ino_a9_local_bridge.Packet.{
  parse_av, parse_rpc, parse_packet, parse_fixed_header, read_next, iter_loop, iter_tcp_packets,
}
use ino_a9_local_bridge.Camera.Reassembler.{
  Reassembler, reassembler, push, extract_g711_alaw_payload,
}
use ino_a9_local_bridge.Camera.Client.Frames.{Stream, max_frame_bytes, frames}
use ino_a9_local_bridge.Camera.Client.Frames.Live.{Fed, frames_alive}

abbrev image : List ℕ
image =
    (0x68 ∷ 25 ∷ 0x84 ∷ 0 ∷ 0 ∷ 5 ∷ 0 ∷ 16 ∷ 1 ∷ 1 ∷ 0 ∷ 0xff ∷ 0xd8 ∷ copies 14 0)
    ++ (0x68 ∷ 11 ∷ 0x84 ∷ 0 ∷ 0 ∷ 5 ∷ 0 ∷ 0 ∷ 1 ∷ 0xff ∷ 0 ∷ 0xff ∷ 0xd9 ∷ [])

abbrev filming : World
filming = record world { monotonic = λ n. n + 1000; recv = λ n. bytes image }

abbrev impatient : Settings
impatient = record settings { frame_timeout = 7 }

abbrev connected : Client
connected = record fresh { is_open = true; session_prefix = some (copies 32 97) }

abbrev empty : Reassembler
empty = record {
  session_prefix = copies 32 97;
  max_frame_bytes = max_frame_bytes;
  fragments = [];
  sizes = [];
  metadata = [];
  expected_index = [];
}

abbrev afterwards : Stream
afterwards = record {
  reassembler = empty;
  activity_deadline = 1077;
  frame_deadline = 1078;
  next_heartbeat = 500001001;
  latest_av_sequence = some 5;
}

last : Client
unfolding frames
last = (frames plain filming impatient 8 connected).0

films_on : frames plain filming impatient 8 connected ≡ (last, ok (some afterwards))
unfolding aes_cbc_decrypt_unpadded dec_le decode_loop decode_varint derive_av_key
    extract_g711_alaw_payload frames iter_loop iter_tcp_packets last lt_wf parse_av
    parse_fixed_header parse_packet parse_rpc push read_next reassembler receive
films_on = refl

runs : (n : ℕ) → n + 1000 + 1 ≤ suc n + 1000
runs n = omega arith

frames_alive_example :
    Fed plain filming impatient runs (frames plain filming impatient) 1 connected last
frames_alive_example =
    frames_alive plain filming impatient runs 1 7 afterwards connected last (omega arith)
      (omega arith) films_on
