-- ===== src/Camera/Examples.antt =====
-- One image of two fragments, with a fragment of another image in between.
use ino_a9_local_bridge.Base.{
  ℕ, ◌≡◌, ◌≢◌, refl, List, [], ◌∷◌, ◌++◌, none, some, true, false, arith, inl, inr,
}
use ino_a9_local_bridge.Base.Dict.{nat_key}
use ino_a9_local_bridge.Base.Except.{ok}
use ino_a9_local_bridge.Crypto.Examples.{plain, copies}
use ino_a9_local_bridge.Packet.{FixedHeader, AvPacket}
use ino_a9_local_bridge.Camera.Reassembler.{Reassembler, push, decode_frame, trim_jpeg}
use ino_a9_local_bridge.Camera.Reassembler.Assembly.{advance, describe}
use ino_a9_local_bridge.Camera.Reassembler.Refinement.{IsFree, Agrees, push-advance}
use ino_a9_local_bridge.Camera.Reassembler.Delivery.{
  outputs, Carries, last, at_end, description, outputs-InOrder,
}
use ino_a9_local_bridge.Camera.Reassembler.Delivery.Image.{
  frame_key, frame_iv, decode_frame-encrypt, NoEoi,
}

abbrev header : FixedHeader
header = record { message_type = 4; flag = 8; body_length = 40; is_udp = false; size = 2 }

abbrev fragment_packet : ℕ → ℕ → ℕ → List ℕ → AvPacket
fragment_packet sequence index encrypted_length fragment = record {
  header = header;
  is_key_frame = true;
  media_format = 4;
  encryption_type = 0;
  channel = 0;
  sequence = sequence;
  timestamp = 1000;
  encrypted_length = encrypted_length;
  payload = 1 ∷ index ∷ 0 ∷ fragment;
}

abbrev first_part : List ℕ
first_part = 0xff ∷ 0xd8 ∷ copies 14 0

abbrev second_part : List ℕ
second_part = 0xff ∷ 0xd9 ∷ []

abbrev first_packet : AvPacket
first_packet = fragment_packet 5 1 16 first_part

abbrev last_packet : AvPacket
last_packet = fragment_packet 5 0xff 0 second_part

abbrev other_packet : AvPacket
other_packet = fragment_packet 6 1 0 (1 ∷ [])

abbrev empty : Reassembler
empty = record {
  session_prefix = copies 32 65;
  max_frame_bytes = 2000000;
  fragments = [];
  sizes = [];
  metadata = [];
  expected_index = [];
}

empty-IsFree : IsFree empty 5
empty-IsFree = record { no_fragments = refl; no_size = refl; no_metadata = refl; no_index = refl }

push-advance_example :
    Agrees 5
      (push plain empty first_packet)
      (advance plain (copies 32 65) 2000000 first_packet none)
push-advance_example = push-advance plain empty first_packet none empty-IsFree

six≢five : other_packet.sequence ≢ 5
six≢five e = omega (arith, e)

first-Carries : Carries first_packet 5 1 first_part
first-Carries = record { is_mjpeg = refl; is_own = refl; holds = refl }

last-Carries : Carries last_packet 5 0xff second_part
last-Carries = record { is_mjpeg = refl; is_own = refl; holds = refl }

outputs-InOrder_example :
    outputs plain 5 empty (first_packet ∷ other_packet ∷ last_packet ∷ [])
    ≡ ok none
      ∷ at_end (last_packet ∷ []) (
          decode_frame plain
            (copies 32 65)
            (description (last_packet ∷ []) (describe first_packet none))
            (first_part ++ second_part))
outputs-InOrder_example =
    outputs-InOrder plain 5 empty (first_packet ∷ other_packet ∷ last_packet ∷ []) none first_packet
      first_part (last_packet ∷ []) second_part empty-IsFree refl first-Carries
      (last last_packet second_part last-Carries) (omega arith)

decode_frame-encrypt_example :
    decode_frame plain (copies 32 65) (some first_packet) (
      plain.cbc_encrypt
        (frame_key plain (copies 32 65) first_packet)
        (frame_iv plain (copies 32 65) first_packet)
        first_part
      ++ second_part)
    ≡ ok (trim_jpeg (first_part ++ second_part))
decode_frame-encrypt_example =
    decode_frame-encrypt plain (copies 32 65) first_packet first_part second_part refl (omega arith)
      refl

body-NoEoi : NoEoi (1 ∷ 0xff ∷ 0 ∷ [])
body-NoEoi = (inl (λ e. omega (arith, e)), (inr (λ e. omega (arith, e)), λ e. omega (arith, e)))
