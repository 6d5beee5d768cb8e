-- ===== src/Camera/Reassembler/Assembly.antt =====
-- What the reassembler promises for one sequence number: a single unfinished frame, or none. This
-- machine forgets the dicts and where one fragment ends and the next begins.
use ino_a9_local_bridge.Base.{ℕ, ◌+◌, List, [], ◌∷◌, ◌++◌, Option, none, some, not, ◌&&◌, ◌||◌}
use ino_a9_local_bridge.Base.Tests.{ltb, ◌==◌, if◌then◌else◌}
use ino_a9_local_bridge.Base.Lists.{length}
use ino_a9_local_bridge.Base.Except.{Result, ok}
use ino_a9_local_bridge.Crypto.{Primitives}
use ino_a9_local_bridge.Packet.{AvPacket}
use ino_a9_local_bridge.Camera.Reassembler.{decode_frame, mjpeg_format}

-- The index of the next fragment, the bytes so far, and the first packet with an encrypted length.
pub record Assembly : Type 0 where
  pub next_index : ℕ
  pub bytes : List ℕ
  pub described_by : Option AvPacket

abbrev pub started : Assembly
started = record { next_index = 1; bytes = []; described_by = none }

abbrev pub describe : AvPacket → Option AvPacket → Option AvPacket
describe packet none = if packet.encrypted_length == 0 then none else some packet
describe packet (some m) = some m

-- A machine's state and what came out of the step.
abbrev pub Outcome : Type 0
Outcome = Option Assembly × Result (Option (List ℕ))

module _ (c : Primitives) (session_prefix : List ℕ) (max_frame_bytes : ℕ) where
  -- The fragment is the next one.
  abbrev pub extend : AvPacket → ℕ → List ℕ → Assembly → Outcome
  extend packet fragment_index fragment a =
      let bytes = a.bytes ++ fragment in
      let described_by = describe packet a.described_by in
      if ltb max_frame_bytes (length bytes)
      then (none, ok none)
      else if fragment_index == 0xff
      then (none, decode_frame c session_prefix described_by bytes)
      else (
        some (record { next_index = a.next_index + 1; bytes = bytes; described_by = described_by }),
        ok none,
      )

  abbrev pub continue : AvPacket → ℕ → List ℕ → Option Assembly → Outcome
  continue packet fragment_index fragment none = (none, ok none)
  continue packet fragment_index fragment (some a) =
      if not (fragment_index == 0xff) && not (fragment_index == a.next_index)
      then (none, ok none)
      else extend packet fragment_index fragment a

  abbrev pub receive : AvPacket → List ℕ → Option Assembly → Outcome
  receive packet (marker ∷ fragment_index ∷ reserved ∷ fragment) o =
      if not (marker == 1) || not (reserved == 0)
      then (none, ok none)
      else continue packet fragment_index fragment (if fragment_index == 1 then some started else o)
  receive packet _ o = (o, ok none)

  -- The effect of a packet on the frame of its own sequence number.
  unfoldable pub advance : AvPacket → Option Assembly → Outcome
  advance packet o =
      if not (packet.media_format == mjpeg_format)
      then (o, ok none)
      else receive packet packet.payload o
