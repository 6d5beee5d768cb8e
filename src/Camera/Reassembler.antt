-- ===== src/Camera/Reassembler.antt =====
-- `MJPEGReassembler` and `extract_g711_alaw_payload` of ino_a9_bridge/src/wificam_bridge/camera.py:
-- four dicts, each from the sequence number of an unfinished frame.
pub mod Assembly
pub mod Refinement
pub mod Delivery
use ino_a9_local_bridge.Base.{
  ℕ, ◌+◌, ◌-◌, ◌%◌, suc, List, [], ◌∷◌, ◌++◌, Option, none, some, Bool, true, false, not, ◌&&◌,
  ◌||◌,
}
use ino_a9_local_bridge.Base.Tests.{ltb, ◌==◌, if◌then◌else◌}
use ino_a9_local_bridge.Base.Lists.{length, take, drop, is_empty}
use ino_a9_local_bridge.Base.Slices.{starts_with}
use ino_a9_local_bridge.Base.Dict.{Dict, lookup, insert, remove, nat_key}
use ino_a9_local_bridge.Base.Except.{Result, ok, err, value_error, require, ◌>>=◌, ◌>>◌}
use ino_a9_local_bridge.Crypto.{Primitives, derive_av_key, aes_cbc_decrypt_unpadded}
use ino_a9_local_bridge.Packet.{AvPacket}

abbrev pub mjpeg_format : ℕ
mjpeg_format = 4

abbrev pub g711_alaw_format : ℕ
g711_alaw_format = 21

abbrev pub g711_alaw_transport_prefix : List ℕ
g711_alaw_transport_prefix = 0x01 ∷ 0x00 ∷ []

-- `payload or None` in the end: an empty chunk counts as no audio.
unfoldable pub extract_g711_alaw_payload : AvPacket → Option (List ℕ)
extract_g711_alaw_payload packet =
    if not (packet.media_format == g711_alaw_format)
      || not (packet.channel == 0)
      || not (packet.encryption_type == 0)
      || not (starts_with packet.payload g711_alaw_transport_prefix)
    then none
    else let payload = drop (length g711_alaw_transport_prefix) packet.payload in
      if is_empty payload then none else some payload

pub record Reassembler : Type 0 where
  pub session_prefix : List ℕ
  pub max_frame_bytes : ℕ
  pub fragments : Dict ℕ (List (List ℕ))
  pub sizes : Dict ℕ ℕ
  pub metadata : Dict ℕ AvPacket
  pub expected_index : Dict ℕ ℕ

-- `__init__`
unfoldable pub reassembler : List ℕ → ℕ → Result Reassembler
reassembler session_prefix max_frame_bytes = do
  require (length session_prefix == 32) value_error
  ok (record {
    session_prefix = session_prefix;
    max_frame_bytes = max_frame_bytes;
    fragments = [];
    sizes = [];
    metadata = [];
    expected_index = [];
  })

-- `_drop`
pub forget : ℕ → Reassembler → Reassembler
forget sequence s = record s {
  fragments = remove sequence s.fragments;
  sizes = remove sequence s.sizes;
  metadata = remove sequence s.metadata;
  expected_index = remove sequence s.expected_index;
}

-- The first fragment of a frame drops what was there.
pub restart : ℕ → Reassembler → Reassembler
unfolding forget
restart sequence s =
    let s1 = forget sequence s in record s1 { expected_index = insert sequence 1 s1.expected_index }

-- What a `defaultdict` holds for a key that may be missing.
abbrev pub or_default {ℓ} : {A : Type ℓ} → A → Option A → A
or_default a none = a
or_default a (some b) = b

-- `b"".join(fragments)`
abbrev pub join : List (List ℕ) → List ℕ
join [] = []
join (piece ∷ pieces) = piece ++ join pieces

-- `frame.find(b"\xff\xd9", 2)`, with the offset of the first byte as argument.
abbrev pub find_eoi : List ℕ → ℕ → Option ℕ
find_eoi [] at = none
find_eoi (b ∷ bytes) at =
    let rest = find_eoi bytes (suc at) in
    if starts_with (b ∷ bytes) (0xff ∷ 0xd9 ∷ []) then some at else rest

-- The image up to its end marker, if both markers are there.
pub trim_jpeg : List ℕ → Option (List ℕ)
trim_jpeg frame =
    if starts_with frame (0xff ∷ 0xd8 ∷ [])
    then elim (find_eoi (drop 2 frame) 2) [ none ↦ none | some eoi ↦ some (take (eoi + 2) frame) ]
    else none

-- `if packet.encrypted_length: self._metadata.setdefault(sequence, packet)`
pub note_metadata : AvPacket → Dict ℕ AvPacket → Dict ℕ AvPacket
note_metadata packet d =
    if packet.encrypted_length == 0
    then d
    else elim (lookup packet.sequence d) [ none ↦ insert packet.sequence packet d | some _ ↦ d ]

module _ (c : Primitives) where
  -- The end of `push`, behind the removal of the frame from the dicts.
  pub decode_frame : List ℕ → Option AvPacket → List ℕ → Result (Option (List ℕ))
  unfolding trim_jpeg
  decode_frame session_prefix none assembled = ok none
  decode_frame session_prefix (some m) assembled =
      if m.encrypted_length == 0
        || ltb (length assembled) m.encrypted_length
        || not (m.encrypted_length % 16 == 0)
      then ok none
      else do
        let key = derive_av_key c session_prefix m.sequence m.timestamp m.channel
        head ←
            aes_cbc_decrypt_unpadded c (take m.encrypted_length assembled) key
              (drop (length key - 16) key)
        ok (trim_jpeg (head ++ drop m.encrypted_length assembled))

  -- `push` from the append of the fragment on, at the index that was expected.
  pub take_fragment :
      Reassembler → AvPacket → ℕ → ℕ → List ℕ → Reassembler × Result (Option (List ℕ))
  unfolding forget decode_frame note_metadata
  take_fragment s packet fragment_index expected fragment =
      let sequence = packet.sequence in
      let pieces = or_default [] (lookup sequence s.fragments) ++ (fragment ∷ []) in
      let size = or_default 0 (lookup sequence s.sizes) + length fragment in
      let s1 = record s {
        fragments = insert sequence pieces s.fragments;
        sizes = insert sequence size s.sizes;
      } in
      if ltb s.max_frame_bytes size
      then (forget sequence s1, ok none)
      else let s2 = record s1 { metadata = note_metadata packet s.metadata } in
        if fragment_index == 0xff
        then (
          forget sequence s2,
          decode_frame s.session_prefix (lookup sequence s2.metadata) (join pieces),
        )
        else (
          record s2 { expected_index = insert sequence (expected + 1) s.expected_index },
          ok none,
        )

  -- `push` behind the treatment of a first fragment.
  pub accept : Reassembler → AvPacket → ℕ → List ℕ → Reassembler × Result (Option (List ℕ))
  unfolding forget take_fragment
  accept s packet fragment_index fragment = elim (lookup packet.sequence s.expected_index) [
    | none ↦ (s, ok none)
    | some expected ↦
        if not (fragment_index == 0xff) && not (fragment_index == expected)
        then (forget packet.sequence s, ok none)
        else take_fragment s packet fragment_index expected fragment
  ]

  -- `push` behind its tests of the marker and the reserved byte.
  pub push_fragment : Reassembler → AvPacket → ℕ → List ℕ → Reassembler × Result (Option (List ℕ))
  unfolding restart accept
  push_fragment s packet fragment_index fragment =
      accept (if fragment_index == 1 then restart packet.sequence s else s) packet fragment_index
        fragment

  push_payload : Reassembler → AvPacket → List ℕ → Reassembler × Result (Option (List ℕ))
  unfolding forget push_fragment
  push_payload s packet (marker ∷ fragment_index ∷ reserved ∷ fragment) =
      if not (marker == 1) || not (reserved == 0)
      then (forget packet.sequence s, ok none)
      else push_fragment s packet fragment_index fragment
  push_payload s packet _ = (s, ok none)

  -- A frame comes out with the packet that completes it.
  unfoldable pub push : Reassembler → AvPacket → Reassembler × Result (Option (List ℕ))
  unfolding push_payload
  push s packet =
      if not (packet.media_format == mjpeg_format)
      then (s, ok none)
      else push_payload s packet packet.payload
