-- ===== src/Camera/Reassembler/Refinement.antt =====
-- The reassembler's four dicts implement one machine for each sequence number.
pub mod Others
use ino_a9_local_bridge.Base.{
  ℕ, ◌+◌, ◌≤◌, ◌<◌, ◌≡◌, ◌≢◌, refl, sym, ap, ap₂, ◌∙◌, List, [], ◌∷◌, ◌++◌, append-nil,
  append_assoc, Option, none, some, Bool, true, false, not, ◌&&◌, ◌||◌, arith, inl, inr,
}
use ino_a9_local_bridge.Base.Tests.{ltb, ◌==◌, if◌then◌else◌, Bool-cases, ==_iff, ltb→le}
use ino_a9_local_bridge.Base.Lists.{length, length-append}
use ino_a9_local_bridge.Base.Dict.{
  Dict, lookup, insert, remove, nat_key, lookup-insert, lookup-remove,
}
use ino_a9_local_bridge.Base.Except.{Result, ok}
use ino_a9_local_bridge.Crypto.{Primitives}
use ino_a9_local_bridge.Packet.{AvPacket}
use ino_a9_local_bridge.Camera.Reassembler.{
  Reassembler, forget, or_default, join, take_fragment, restart, accept, push_fragment,
  push_payload, push, note_metadata, decode_frame, mjpeg_format,
}
use ino_a9_local_bridge.Camera.Reassembler.Assembly.{
  Assembly, started, describe, Outcome, extend, continue, receive, advance,
}

-- No dict has the sequence number.
pub record IsFree (s : Reassembler) (q : ℕ) : Type 0 where
  pub no_fragments : lookup q s.fragments ≡ none
  pub no_size : lookup q s.sizes ≡ none
  pub no_metadata : lookup q s.metadata ≡ none
  pub no_index : lookup q s.expected_index ≡ none

-- The dicts hold the frame under the sequence number, its bytes within the limit.
pub record IsHeld (s : Reassembler) (q : ℕ) (a : Assembly) : Type 0 where
  pub joined : join (or_default [] (lookup q s.fragments)) ≡ a.bytes
  pub sized : or_default 0 (lookup q s.sizes) ≡ length a.bytes
  pub described : lookup q s.metadata ≡ a.described_by
  pub indexed : lookup q s.expected_index ≡ some a.next_index
  pub bounded : length a.bytes ≤ s.max_frame_bytes

abbrev pub Represents : Reassembler → ℕ → Option Assembly → Type 0
Represents s q none = IsFree s q
Represents s q (some a) = IsHeld s q a

join-append : (xs : List (List ℕ)) (x : List ℕ) → join (xs ++ (x ∷ [])) ≡ join xs ++ x
join-append [] x = append-nil x
join-append (y ∷ xs) x = ap (λ r. y ++ r) (join-append xs x) ∙ sym (append_assoc y (join xs) x)

pub forget-IsFree : (q : ℕ) (s : Reassembler) → IsFree (forget q s) q
unfolding forget
forget-IsFree q s = record {
  no_fragments = lookup-remove q s.fragments;
  no_size = lookup-remove q s.sizes;
  no_metadata = lookup-remove q s.metadata;
  no_index = lookup-remove q s.expected_index;
}

-- The first fragment starts the frame again, whatever is held.
restart-IsHeld : (q : ℕ) (s : Reassembler) → IsHeld (restart q s) q started
unfolding restart
restart-IsHeld q s =
    let free = forget-IsFree q s in
    record {
      joined = rw free.no_fragments refl;
      sized = rw free.no_size refl;
      described = free.no_metadata;
      indexed = lookup-insert q 1 (forget q s).expected_index;
      bounded = omega arith;
    }

lookup-note :
    (packet : AvPacket) (d : Dict ℕ AvPacket)
    → lookup packet.sequence (note_metadata packet d) ≡ describe packet (lookup packet.sequence d)
unfolding note_metadata
lookup-note packet d = ground (arith, lookup-insert packet.sequence packet d)

-- Two outcomes agree, and the state behind the step represents the machine's.
abbrev pub Agrees : ℕ → Reassembler × Result (Option (List ℕ)) → Outcome → Type 0
Agrees q (s, r) (o, r') = Represents s q o × (r ≡ r')

module _ (c : Primitives) where
  take_fragment-extend :
      (s : Reassembler) (packet : AvPacket) (index : ℕ) (fragment : List ℕ) (a : Assembly)
      → IsHeld s packet.sequence a
      → Agrees packet.sequence
          (take_fragment c s packet index a.next_index fragment)
          (extend c s.session_prefix s.max_frame_bytes packet index fragment a)
  unfolding take_fragment
  take_fragment-extend s packet index fragment a h =
      let q = packet.sequence in
      let pieces = or_default [] (lookup q s.fragments) ++ (fragment ∷ []) in
      let size = or_default 0 (lookup q s.sizes) + length fragment in
      let joined : join pieces ≡ a.bytes ++ fragment =
        join-append (or_default [] (lookup q s.fragments)) fragment
        ∙ ap (λ r. r ++ fragment) h.joined in
      let sized : size ≡ length (a.bytes ++ fragment) =
        ap (λ r. r + length fragment) h.sized ∙ sym (length-append a.bytes fragment) in
      let described : lookup q (note_metadata packet s.metadata) ≡ describe packet a.described_by =
        lookup-note packet s.metadata ∙ ap (describe packet) h.described in
      elim (Bool-cases (ltb s.max_frame_bytes (length (a.bytes ++ fragment)))) [
        | inl e ↦ rw (sized, e) (forget-IsFree q _, refl)
        | inr e ↦ elim (Bool-cases (index == 0xff)) [
          | inl e' ↦
              rw (sized, e, e')
                (forget-IsFree q _, ap₂ (decode_frame c s.session_prefix) described joined)
          | inr e' ↦
              rw (sized, e, e')
                (
                  record {
                    joined = rw (lookup-insert q pieces s.fragments) joined;
                    sized = rw (lookup-insert q (length (a.bytes ++ fragment)) s.sizes) refl;
                    described = described;
                    indexed = lookup-insert q (a.next_index + 1) s.expected_index;
                    bounded = ltb→le _ _ e;
                  },
                  refl,
                )
        ]
      ]

  accept-continue :
      (s : Reassembler) (packet : AvPacket) (index : ℕ) (fragment : List ℕ) (o : Option Assembly)
      → Represents s packet.sequence o
      → Agrees packet.sequence
          (accept c s packet index fragment)
          (continue c s.session_prefix s.max_frame_bytes packet index fragment o)
  unfolding accept
  accept-continue s packet index fragment none h = rw (h.no_index, accept) (h, refl)
  accept-continue s packet index fragment (some a) h =
      elim (Bool-cases (not (index == 0xff) && not (index == a.next_index))) [
        | inl e ↦ rw (h.indexed, e, accept) (forget-IsFree packet.sequence _, refl)
        | inr e ↦ rw (h.indexed, e, accept) (take_fragment-extend s packet index fragment a h)
      ]

  push_fragment-continue :
      (s : Reassembler) (packet : AvPacket) (index : ℕ) (fragment : List ℕ) (o : Option Assembly)
      → Represents s packet.sequence o
      → Agrees packet.sequence (push_fragment c s packet index fragment) (
          continue c s.session_prefix s.max_frame_bytes packet index fragment
            (if index == 1 then some started else o))
  unfolding push_fragment
  push_fragment-continue s packet index fragment o h = elim (Bool-cases (index == 1)) [
    | inl e ↦
        rw (e, push_fragment)
          (accept-continue (restart packet.sequence s) packet index fragment (some started)
            (restart-IsHeld packet.sequence s))
    | inr e ↦ rw (e, push_fragment) (accept-continue s packet index fragment o h)
  ]

  push_payload-Agrees :
      (s : Reassembler) (packet : AvPacket) (payload : List ℕ) (o : Option Assembly)
      → Represents s packet.sequence o
      → Agrees packet.sequence
          (push_payload c s packet payload)
          (receive c s.session_prefix s.max_frame_bytes packet payload o)
  unfolding push_payload
  push_payload-Agrees s packet [] o h = (h, refl)
  push_payload-Agrees s packet (_ ∷ []) o h = (h, refl)
  push_payload-Agrees s packet (_ ∷ (_ ∷ [])) o h = (h, refl)
  push_payload-Agrees s packet (marker ∷ (index ∷ (reserved ∷ fragment))) o h =
      elim (Bool-cases (not (marker == 1) || not (reserved == 0))) [
        | inl e ↦ rw e (forget-IsFree packet.sequence s, refl)
        | inr e ↦ rw e (push_fragment-continue s packet index fragment o h)
      ]

  -- If the dicts hold a machine's state for the packet's sequence number, `push` returns what the
  -- machine returns, and leaves dicts that hold the machine's next state: a frame restarts at
  -- fragment 1, grows in order, and is forgotten on a gap, on a wrong marker, above the limit, and
  -- when it ends.
  pub push-advance :
      (s : Reassembler) (packet : AvPacket) (o : Option Assembly)
      → Represents s packet.sequence o
      → Agrees packet.sequence
          (push c s packet)
          (advance c s.session_prefix s.max_frame_bytes packet o)
  unfolding push advance
  push-advance s packet o h = elim (Bool-cases (not (packet.media_format == mjpeg_format))) [
    | inl e ↦ rw e (h, refl)
    | inr e ↦ rw e (push_payload-Agrees s packet packet.payload o h)
  ]
