-- ===== src/Camera/Reassembler/Refinement/Others.antt =====
-- Packets of other frames: a packet touches the entries of its own sequence number only.
use ino_a9_local_bridge.Base.{
  ℕ, ◌+◌, arith, ◌≡◌, ◌≢◌, refl, ◌∙◌, List, [], ◌∷◌, ◌++◌, Option, none, some, Bool, true, false,
  inl, inr,
}
use ino_a9_local_bridge.Base.Tests.{ltb, ◌==◌, if◌then◌else◌, Bool-cases, Option-cases}
use ino_a9_local_bridge.Base.Lists.{length}
use ino_a9_local_bridge.Base.Dict.{
  Dict, lookup, insert, nat_key, lookup-insert_other, lookup-remove_other,
}
use ino_a9_local_bridge.Base.Except.{Result, ok}
use ino_a9_local_bridge.Crypto.{Primitives}
use ino_a9_local_bridge.Packet.{AvPacket}
use ino_a9_local_bridge.Camera.Reassembler.{
  Reassembler, forget, take_fragment, restart, accept, push_fragment, push_payload, push,
  note_metadata, decode_frame, or_default, join,
}
use ino_a9_local_bridge.Camera.Reassembler.Assembly.{Assembly}
use ino_a9_local_bridge.Camera.Reassembler.Refinement.{Represents}

-- The two states hold the same under the number, with the same key and limit.
pub record Same (s s' : Reassembler) (q : ℕ) : Type 0 where
  pub same_fragments : lookup q s'.fragments ≡ lookup q s.fragments
  pub same_size : lookup q s'.sizes ≡ lookup q s.sizes
  pub same_metadata : lookup q s'.metadata ≡ lookup q s.metadata
  pub same_index : lookup q s'.expected_index ≡ lookup q s.expected_index
  pub same_prefix : s'.session_prefix ≡ s.session_prefix
  pub same_limit : s'.max_frame_bytes ≡ s.max_frame_bytes

same_refl : (s : Reassembler) (q : ℕ) → Same s s q
same_refl s q = record {
  same_fragments = refl;
  same_size = refl;
  same_metadata = refl;
  same_index = refl;
  same_prefix = refl;
  same_limit = refl;
}

module _ (q : ℕ) (p : ℕ) (h : p ≢ q) where
  forget-Same : (s s' : Reassembler) → Same s s' q → Same s (forget p s') q
  unfolding forget
  forget-Same s s' e = record {
    same_fragments = lookup-remove_other p q s'.fragments h ∙ e.same_fragments;
    same_size = lookup-remove_other p q s'.sizes h ∙ e.same_size;
    same_metadata = lookup-remove_other p q s'.metadata h ∙ e.same_metadata;
    same_index = lookup-remove_other p q s'.expected_index h ∙ e.same_index;
    same_prefix = e.same_prefix;
    same_limit = e.same_limit;
  }

  restart-Same : (s : Reassembler) → Same s (restart p s) q
  unfolding restart
  restart-Same s =
      let e = forget-Same s s (same_refl s q) in
      record {
        same_fragments = e.same_fragments;
        same_size = e.same_size;
        same_metadata = e.same_metadata;
        same_index = lookup-insert_other p q 1 (forget p s).expected_index h ∙ e.same_index;
        same_prefix = refl;
        same_limit = refl;
      }

note-other :
    (packet : AvPacket) (q : ℕ) (d : Dict ℕ AvPacket)
    → packet.sequence ≢ q
    → lookup q (note_metadata packet d) ≡ lookup q d
unfolding note_metadata
note-other packet q d h = elim (Bool-cases (packet.encrypted_length == 0)) [
  | inl e ↦ rw e refl
  | inr e ↦ rw e (go (lookup packet.sequence d))
]
  where
    go :
        (o : Option AvPacket)
        → lookup q (elim o [ none ↦ insert packet.sequence packet d | some _ ↦ d ]) ≡ lookup q d
    go none = lookup-insert_other packet.sequence q packet d h
    go (some m) = refl

-- What a step returns beside its state.
abbrev Frame : Type 0
Frame = Result (Option (List ℕ))

record Keeps (s : Reassembler) (q : ℕ) (step : Reassembler × Frame) : Type 0 where
  same : Same s step.0 q

keeps : {s : Reassembler} {q : ℕ} (s' : Reassembler) (r : Frame) → Same s s' q → Keeps s q (s', r)
keeps s' r e = record { same = e }

if-Keeps :
    {s : Reassembler} {q : ℕ} (b : Bool) (x y : Reassembler × Frame)
    → Keeps s q x
    → Keeps s q y
    → Keeps s q (if b then x else y)
if-Keeps true x y hx hy = hx
if-Keeps false x y hx hy = hy

module _ (c : Primitives) (packet : AvPacket) (q : ℕ) (h : packet.sequence ≢ q) where
  -- Each write under the packet's own number.
  written :
      (s : Reassembler) (pieces : List (List ℕ)) (size index : ℕ)
      → Same s
          (record s {
            fragments = insert packet.sequence pieces s.fragments;
            sizes = insert packet.sequence size s.sizes;
          })
          q
        × Same s
            (record s {
              fragments = insert packet.sequence pieces s.fragments;
              sizes = insert packet.sequence size s.sizes;
              metadata = note_metadata packet s.metadata;
            })
            q
        × Same s
            (record s {
              fragments = insert packet.sequence pieces s.fragments;
              sizes = insert packet.sequence size s.sizes;
              metadata = note_metadata packet s.metadata;
              expected_index = insert packet.sequence index s.expected_index;
            })
            q
  written s pieces size index =
      let fragments = lookup-insert_other packet.sequence q pieces s.fragments h in
      let sizes = lookup-insert_other packet.sequence q size s.sizes h in
      let metadata = note-other packet q s.metadata h in
      let expected_index = lookup-insert_other packet.sequence q index s.expected_index h in
      (
        record {
          same_fragments = fragments;
          same_size = sizes;
          same_metadata = refl;
          same_index = refl;
          same_prefix = refl;
          same_limit = refl;
        },
        record {
          same_fragments = fragments;
          same_size = sizes;
          same_metadata = metadata;
          same_index = refl;
          same_prefix = refl;
          same_limit = refl;
        },
        record {
          same_fragments = fragments;
          same_size = sizes;
          same_metadata = metadata;
          same_index = expected_index;
          same_prefix = refl;
          same_limit = refl;
        },
      )

  take_fragment-Keeps :
      (s : Reassembler) (index expected : ℕ) (fragment : List ℕ)
      → Keeps s q (take_fragment c s packet index expected fragment)
  unfolding take_fragment
  take_fragment-Keeps s index expected fragment =
      let pieces = or_default [] (lookup packet.sequence s.fragments) ++ (fragment ∷ []) in
      let size = or_default 0 (lookup packet.sequence s.sizes) + length fragment in
      let (stored, noted, indexed) = written s pieces size (expected + 1) in
      let metadata = note_metadata packet s.metadata in
      let frame = decode_frame c s.session_prefix (lookup packet.sequence metadata) (join pieces) in
      if-Keeps (ltb s.max_frame_bytes size) _ _
        (keeps _ (ok none) (forget-Same q packet.sequence h s _ stored))
        (if-Keeps (index == 0xff) _ _ (keeps _ frame (forget-Same q packet.sequence h s _ noted))
          (keeps _ (ok none) indexed))

  accept-Keeps :
      (s : Reassembler) (index : ℕ) (fragment : List ℕ)
      → Keeps s q (accept c s packet index fragment)
  unfolding accept
  accept-Keeps s index fragment = elim (Option-cases (lookup packet.sequence s.expected_index)) [
    | inl e ↦ rw (e, accept) (keeps _ _ (same_refl s q))
    | inr (expected, e) ↦
        rw (e, accept)
          (if-Keeps _ _ _ (keeps _ _ (forget-Same q packet.sequence h s s (same_refl s q)))
            (take_fragment-Keeps s index expected fragment))
  ]

  same_trans : {s s1 s2 : Reassembler} → Same s s1 q → Same s1 s2 q → Same s s2 q
  same_trans a b = record {
    same_fragments = b.same_fragments ∙ a.same_fragments;
    same_size = b.same_size ∙ a.same_size;
    same_metadata = b.same_metadata ∙ a.same_metadata;
    same_index = b.same_index ∙ a.same_index;
    same_prefix = b.same_prefix ∙ a.same_prefix;
    same_limit = b.same_limit ∙ a.same_limit;
  }

  push_fragment-Keeps :
      (s : Reassembler) (index : ℕ) (fragment : List ℕ)
      → Keeps s q (push_fragment c s packet index fragment)
  unfolding push_fragment
  push_fragment-Keeps s index fragment = elim (Bool-cases (index == 1)) [
    | inl e ↦
        let again = accept-Keeps (restart packet.sequence s) index fragment in
        rw e (keeps _ _ (same_trans (restart-Same q packet.sequence h s) again.same))
    | inr e ↦ rw e (accept-Keeps s index fragment)
  ]

  push_payload-Keeps :
      (s : Reassembler) (payload : List ℕ) → Keeps s q (push_payload c s packet payload)
  unfolding push_payload
  push_payload-Keeps s [] = keeps _ _ (same_refl s q)
  push_payload-Keeps s (_ ∷ []) = keeps _ _ (same_refl s q)
  push_payload-Keeps s (_ ∷ (_ ∷ [])) = keeps _ _ (same_refl s q)
  push_payload-Keeps s (marker ∷ (index ∷ (reserved ∷ fragment))) =
      if-Keeps _ _ _ (keeps _ _ (forget-Same q packet.sequence h s s (same_refl s q)))
        (push_fragment-Keeps s index fragment)

  push-Keeps : (s : Reassembler) → Keeps s q (push c s packet)
  unfolding push
  push-Keeps s = if-Keeps _ _ _ (keeps _ _ (same_refl s q)) (push_payload-Keeps s packet.payload)

-- What is held under a number is all that the representation looks at.
Represents-Same :
    (s s' : Reassembler) (q : ℕ) (o : Option Assembly)
    → Same s s' q
    → Represents s q o
    → Represents s' q o
Represents-Same s s' q none e h = record {
  no_fragments = e.same_fragments ∙ h.no_fragments;
  no_size = e.same_size ∙ h.no_size;
  no_metadata = e.same_metadata ∙ h.no_metadata;
  no_index = e.same_index ∙ h.no_index;
}
Represents-Same s s' q (some a) e h = record {
  joined = rw e.same_fragments h.joined;
  sized = rw e.same_size h.sized;
  described = e.same_metadata ∙ h.described;
  indexed = e.same_index ∙ h.indexed;
  bounded = omega (arith, h.bounded, e.same_limit);
}

-- A packet of another frame changes nothing that is held for this one, so frames whose fragments
-- arrive interleaved do not disturb each other.
pub push-Represents_other :
    (c : Primitives) (s : Reassembler) (packet : AvPacket) (q : ℕ) (o : Option Assembly)
    → packet.sequence ≢ q
    → Represents s q o
    → Represents (push c s packet).0 q o
push-Represents_other c s packet q o h r =
    Represents-Same s (push c s packet).0 q o (push-Keeps c packet q h s).same r

-- The key and the limit stay what `__init__` made them.
pub push_keeps_limits :
    (c : Primitives) (s : Reassembler) (packet : AvPacket)
    → ((push c s packet).0.session_prefix ≡ s.session_prefix)
      × ((push c s packet).0.max_frame_bytes ≡ s.max_frame_bytes)
push_keeps_limits c s packet =
    let e = (push-Keeps c packet (packet.sequence + 1) (omega arith) s).same in
    (e.same_prefix, e.same_limit)
