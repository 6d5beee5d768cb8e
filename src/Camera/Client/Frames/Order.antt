-- ===== src/Camera/Client/Frames/Order.antt =====
-- Packets are handled in the order in which they waited or came.
use ino_a9_local_bridge.Base.{
  ℕ, ◌+◌, ◌*◌, ◌≡◌, refl, sym, ap, ap₂, subst, ◌∙◌, List, [], ◌∷◌, ◌++◌, append_assoc, append-nil,
}
use ino_a9_local_bridge.Base.Except.{ok, ok-injective}
use ino_a9_local_bridge.Crypto.{Primitives}
use ino_a9_local_bridge.Packet.{Packet, iter_tcp_packets}
use ino_a9_local_bridge.Camera.Reassembler.{Reassembler}
use ino_a9_local_bridge.Camera.Client.{second, Settings, World, Client, Output}
use ino_a9_local_bridge.Camera.Client.Steps.{Keeps-at, receive-Keeps}
use ino_a9_local_bridge.Camera.Client.Reads.{IsRead, Reads, Reads-same, Reads-chain, receive-Heard}
use ino_a9_local_bridge.Camera.Client.Collects.{media, media-append}
use ino_a9_local_bridge.Camera.Client.Connect.Kept.{Linked-IsKept}
use ino_a9_local_bridge.Camera.Client.Frames.{Stream, smaller, next_packets, next_packets_from}
use ino_a9_local_bridge.Camera.Client.Frames.Emits.{
  delivered, delivered-append, pushed, pushed-append, Emitted,
}

-- Packets were taken, from those that wait or from the socket.
pub record Next (hand : List Packet) (s t : Client) : Type 0 where
  pub packets : List Packet
  pub reads : Reads s packets t
  pub queue : hand ++ t.pending ≡ s.pending ++ packets
  pub outputs : t.outputs ≡ s.outputs
  pub session_prefix : t.session_prefix ≡ s.session_prefix

-- Packets were handled in the order in which they waited or came, and what their media packets are
-- worth was handed on.
pub record Handles (c : Primitives) (r r' : Reassembler) (s t : Client) : Type 0 where
  pub packets : List Packet
  pub handled : List Packet
  pub reads : Reads s packets t
  pub queue : handled ++ t.pending ≡ s.pending ++ packets
  pub outputs : t.outputs ≡ s.outputs ++ delivered c r (media handled)
  pub reassembler : r' ≡ pushed c r (media handled)
  pub session_prefix : t.session_prefix ≡ s.session_prefix

pub Reads-between :
    {s t u v : Client} {ps : List Packet} {xs ys : List Output}
    → Emitted xs s t
    → Reads t ps u
    → Emitted ys u v
    → Reads s ps v
Reads-between {ps = ps} a h b = record {
  stream = h.stream;
  heard = b.received ∙ h.heard ∙ ap (λ x. x ++ h.stream) a.received;
  parsed =
      ap (λ x. iter_tcp_packets (x ++ h.stream)) (sym a.buffer)
      ∙ h.parsed
      ∙ ap (λ x. ok (ps, x)) (sym b.buffer);
}

module _ (c : Primitives) where
  pub Handles-same : (r : Reassembler) (s : Client) → IsRead s.buffer → Handles c r r s s
  Handles-same r s h = record {
    packets = [];
    handled = [];
    reads = Reads-same s h;
    queue = sym (append-nil s.pending);
    outputs = sym (append-nil s.outputs);
    reassembler = refl;
    session_prefix = refl;
  }

  -- The clock's calls are not seen.
  pub Handles-tick :
      {r r' : Reassembler} {t : Client} (n : ℕ) (s : Client)
      → Handles c r r' (record s { tick = n }) t
      → Handles c r r' s t
  Handles-tick n s h = record {
    packets = h.packets;
    handled = h.handled;
    reads = record { stream = h.reads.stream; heard = h.reads.heard; parsed = h.reads.parsed };
    queue = h.queue;
    outputs = h.outputs;
    reassembler = h.reassembler;
    session_prefix = h.session_prefix;
  }

  pub Handles-chain :
      {r r' r'' : Reassembler} {s t u : Client}
      → Handles c r r' s t
      → Handles c r' r'' t u
      → Handles c r r'' s u
  Handles-chain {r} {r'} {r''} {s} {t} {u} h k =
      let split = media-append h.handled k.handled in
      record {
        packets = h.packets ++ k.packets;
        handled = h.handled ++ k.handled;
        reads = Reads-chain h.reads k.reads;
        queue =
            append_assoc h.handled k.handled u.pending
            ∙ ap (λ x. h.handled ++ x) k.queue
            ∙ sym (append_assoc h.handled t.pending k.packets)
            ∙ ap (λ x. x ++ k.packets) h.queue
            ∙ append_assoc s.pending h.packets k.packets;
        outputs =
            k.outputs
            ∙ ap₂ (λ x y. x ++ delivered c y (media k.handled)) h.outputs h.reassembler
            ∙ append_assoc s.outputs (delivered c r (media h.handled))
                (delivered c (pushed c r (media h.handled)) (media k.handled))
            ∙ ap (λ x. s.outputs ++ x)
                (sym (delivered-append c r (media h.handled) (media k.handled))
                  ∙ ap (delivered c r) (sym split));
        reassembler =
            k.reassembler
            ∙ ap (λ x. pushed c x (media k.handled)) h.reassembler
            ∙ sym (pushed-append c r (media h.handled) (media k.handled))
            ∙ ap (pushed c r) (sym split);
        session_prefix = k.session_prefix ∙ h.session_prefix;
      }

  module _ (w : World) (st : Settings) where
    -- What waits comes before what the socket has.
    next_packets_from-Next :
        (v : Stream) (s t : Client) (waiting hand : List Packet)
        → IsRead s.buffer
        → s.pending ≡ waiting
        → next_packets_from c w st v waiting s ≡ (t, ok hand)
        → Next hand s t
    unfolding next_packets_from
    next_packets_from-Next v s t (p ∷ ps) hand read q e =
        let state : record s { pending = ps } ≡ t = ap (λ x. x.0) e in
        let taken : p ∷ [] ≡ hand = ok-injective (ap (λ x. x.1) e) in
        let none_read = Reads-same s read in
        subst (λ x. Next hand s x) state
          (subst (λ x. Next x s (record s { pending = ps })) taken
            (record {
              packets = [];
              reads = record {
                stream = none_read.stream;
                heard = none_read.heard;
                parsed = none_read.parsed;
              };
              queue = sym (append-nil s.pending ∙ q);
              outputs = refl;
              session_prefix = refl;
            }))
    next_packets_from-Next v s t [] hand read q e =
        let s1 = record s { tick = s.tick + 1 } in
        let deadline =
          smaller (smaller (w.monotonic s.tick + 2 * second) v.activity_deadline)
            v.next_heartbeat in
        let heard = receive-Heard c w st deadline s1 t hand read e in
        let linked = Keeps-at s1 t (ok hand) (receive-Keeps Linked-IsKept c w st deadline) e in
        record {
          packets = hand;
          reads = record {
            stream = heard.reads.stream;
            heard = heard.reads.heard;
            parsed = heard.reads.parsed;
          };
          queue =
              ap (λ x. hand ++ x) (heard.pending ∙ q)
              ∙ append-nil hand
              ∙ ap (λ x. x ++ hand) (sym q);
          outputs = linked.outputs;
          session_prefix = linked.session_prefix;
        }

    pub next_packets-Next :
        (v : Stream) (s t : Client) (hand : List Packet)
        → IsRead s.buffer
        → next_packets c w st v s ≡ (t, ok hand)
        → Next hand s t
    unfolding next_packets
    next_packets-Next v s t hand read e = next_packets_from-Next v s t s.pending hand read refl e
