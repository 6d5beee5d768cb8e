-- ===== src/Camera/Client/Reads.antt =====
-- What was read from the socket: the bytes that `recv` returned, cut into packets by the stream
-- reader, whatever the pieces were.
use mathlib.Core.List.{tail}
use ino_a9_local_bridge.Base.{
  ℕ, zero, suc, ◌+◌, ◌≡◌, refl, sym, ap, ap₂, subst, ◌∙◌, List, [], ◌∷◌, ◌++◌, append_assoc,
  append-nil, Option, none, some, inl, inr,
}
use ino_a9_local_bridge.Base.Tests.{ltb, if◌then◌else◌, Bool-cases}
use ino_a9_local_bridge.Base.Lists.{is_empty}
use ino_a9_local_bridge.Base.Except.{Result, ok, err, camera_error, ok-injective, ok_pair}
use ino_a9_local_bridge.Crypto.{Primitives}
use ino_a9_local_bridge.Packet.{Packet, iter_tcp_packets}
use ino_a9_local_bridge.Packet.Stream.{prepend}
use ino_a9_local_bridge.Packet.Stream.Chunks.{iter_tcp_packets-append}
use ino_a9_local_bridge.Camera.Client.{
  Settings, World, Client, Arrival, timed_out, failed, bytes, or_else, take_bytes, arrived,
  read_socket, receive_loop, receive,
}
use ino_a9_local_bridge.Camera.Client.Steps.{after-eq-ok, lift-eq-ok, guard-eq-ok}

-- Nothing but the start of a packet waits in the buffer.
abbrev pub IsRead : List ℕ → Type 0
IsRead buffer = iter_tcp_packets buffer ≡ ok ([], buffer)

-- From one state to the other the socket gave bytes that make up the packets.
pub record Reads (s : Client) (packets : List Packet) (t : Client) : Type 0 where
  pub stream : List ℕ
  pub heard : t.received ≡ s.received ++ stream
  pub parsed : iter_tcp_packets (s.buffer ++ stream) ≡ ok (packets, t.buffer)

-- The bytes read, and nothing put back.
pub record Heard (s : Client) (packets : List Packet) (t : Client) : Type 0 where
  pub reads : Reads s packets t
  pub pending : t.pending ≡ s.pending

append-left_nil : (ps qs : List Packet) → ps ++ qs ≡ ps → qs ≡ []
append-left_nil [] qs e = e
append-left_nil (p ∷ ps) qs e = append-left_nil ps qs (ap tail e)

prepend-eq_self :
    (ps : List Packet) (r : Result (List Packet × List ℕ)) (rest : List ℕ)
    → prepend ps r ≡ ok (ps, rest)
    → r ≡ ok ([], rest)
prepend-eq_self ps (ok (qs, rest')) rest e =
    let (same, left) = ok_pair e in ap₂ (λ a b. ok (a, b)) (append-left_nil ps qs same) left
prepend-eq_self ps (err x) rest e = cc

pub Reads-IsRead : {s t : Client} {packets : List Packet} → Reads s packets t → IsRead t.buffer
Reads-IsRead {s} {t} {packets} h = prepend-eq_self packets (iter_tcp_packets t.buffer) t.buffer (
    ap (λ b. prepend packets (iter_tcp_packets b)) (sym (append-nil t.buffer))
    ∙ sym (iter_tcp_packets-append (s.buffer ++ h.stream) [] packets t.buffer h.parsed)
    ∙ ap iter_tcp_packets (append-nil (s.buffer ++ h.stream))
    ∙ h.parsed)

pub Reads-same : (s : Client) → IsRead s.buffer → Reads s [] s
Reads-same s h = record {
  stream = [];
  heard = sym (append-nil s.received);
  parsed = ap iter_tcp_packets (append-nil s.buffer) ∙ h;
}

pub Reads-chain :
    {s t u : Client} {ps qs : List Packet} → Reads s ps t → Reads t qs u → Reads s (ps ++ qs) u
Reads-chain {s} {t} {u} {ps} {qs} h k = record {
  stream = h.stream ++ k.stream;
  heard = k.heard ∙ ap (λ b. b ++ k.stream) h.heard ∙ append_assoc s.received h.stream k.stream;
  parsed =
      ap iter_tcp_packets (sym (append_assoc s.buffer h.stream k.stream))
      ∙ iter_tcp_packets-append (s.buffer ++ h.stream) k.stream ps t.buffer h.parsed
      ∙ ap (prepend ps) k.parsed;
}

abbrev found_in : Option (List Packet) → List Packet
found_in none = []
found_in (some packets) = packets

found_in-some : (ps : List Packet) → found_in (if is_empty ps then none else some ps) ≡ ps
found_in-some [] = refl
found_in-some (p ∷ ps) = refl

module _ (c : Primitives) (w : World) (st : Settings) where
  take_bytes-Heard :
      (stream : List ℕ) (s t : Client) (packets : List Packet)
      → take_bytes c w st stream s ≡ (t, ok packets)
      → Heard s packets t
  unfolding take_bytes
  take_bytes-Heard stream s t packets e =
      let s1 = record s { received = s.received ++ stream } in
      let ((ps, rest), parsed, e1) =
        lift-eq-ok (iter_tcp_packets (s.buffer ++ stream)) _ s1 t packets e in
      let same : ps ≡ packets = ok-injective (ap (λ x. x.1) e1) in
      let state : record s1 { buffer = rest } ≡ t = ap (λ x. x.0) e1 in
      record {
        reads = record {
          stream = stream;
          heard = ap (λ x. x.received) (sym state);
          parsed = parsed ∙ ap₂ (λ a b. ok (a, b)) same (ap (λ x. x.buffer) state);
        };
        pending = ap (λ x. x.pending) (sym state);
      }

  arrived-Heard :
      (arrival : Arrival) (s t : Client) (found : Option (List Packet))
      → IsRead s.buffer
      → arrived c w st arrival s ≡ (t, ok found)
      → Heard s (found_in found) t
  unfolding arrived
  arrived-Heard timed_out s t found h e =
      let state : s ≡ t = ap (λ x. x.0) e in
      let none_there : none ≡ found = ok-injective (ap (λ x. x.1) e) in
      subst (λ x. Heard s (found_in found) x) state
        (subst (λ o. Heard s (found_in o) s) none_there
          (record { reads = Reads-same s h; pending = refl }))
  arrived-Heard failed s t found h e = cc
  arrived-Heard (bytes stream) s t found h e = elim (Bool-cases (is_empty stream)) [
    | inl q ↦ cc
    | inr q ↦
        let (ps, t1, taken, e1) = after-eq-ok (take_bytes c w st stream s) _ t found (rw q at e) in
        let state : t1 ≡ t = ap (λ x. x.0) e1 in
        let result : (if is_empty ps then none else some ps) ≡ found =
          ok-injective (ap (λ x. x.1) e1) in
        subst (λ x. Heard s (found_in found) x) state
          (subst (λ qs. Heard s qs t1) (sym (found_in-some ps) ∙ ap found_in result)
            (take_bytes-Heard stream s t1 ps taken))
  ]

  -- The clock and the socket are asked first; neither call changes what was read.
  asked :
      {s t : Client} {packets : List Packet} (n : ℕ)
      → Heard (record s { tick = n }) packets t
      → Heard s packets t
  asked n h = record {
    reads = record { stream = h.reads.stream; heard = h.reads.heard; parsed = h.reads.parsed };
    pending = h.pending;
  }

  read_socket-Heard :
      (s t : Client) (found : Option (List Packet))
      → IsRead s.buffer
      → read_socket c w st s ≡ (t, ok found)
      → Heard s (found_in found) t
  unfolding read_socket
  read_socket-Heard s t found h e =
      asked (s.tick + 1 + 1)
        (arrived-Heard (w.recv (s.tick + 1)) (record s { tick = s.tick + 1 + 1 }) t found h e)

  Heard-chain : {s t u : Client} {qs : List Packet} → Heard s [] t → Heard t qs u → Heard s qs u
  Heard-chain h k = record { reads = Reads-chain h.reads k.reads; pending = k.pending ∙ h.pending }

  receive_loop-Heard :
      (fuel deadline : ℕ) (s t : Client) (packets : List Packet)
      → IsRead s.buffer
      → receive_loop c w st fuel deadline s ≡ (t, ok packets)
      → Heard s packets t
  unfolding receive_loop
  receive_loop-Heard zero deadline s t packets h e = cc
  receive_loop-Heard (suc fuel) deadline s t packets h e =
      let s1 = record s { tick = s.tick + 1 } in
      elim (Bool-cases (ltb (w.monotonic s.tick) deadline)) [
        | inr q ↦
            let ended = rw q at e in
            let state : s1 ≡ t = ap (λ x. x.0) ended in
            subst (λ x. Heard s packets x) state
              (subst (λ ps. Heard s ps s1) (ok-injective (ap (λ x. x.1) ended))
                (asked (s.tick + 1) (record { reads = Reads-same s1 h; pending = refl })))
        | inl q ↦
            let (found, s2, read, rest) =
              after-eq-ok (read_socket c w st s1) _ t packets (rw q at e) in
            let heard = asked (s.tick + 1) (read_socket-Heard s1 s2 found h read) in
            next found s2 heard rest (receive_loop-Heard fuel deadline s2 t packets)
      ]
    where
      next :
          (found : Option (List Packet)) (s2 : Client)
          → Heard s (found_in found) s2
          → or_else found (receive_loop c w st fuel deadline) s2 ≡ (t, ok packets)
          → (IsRead s2.buffer
              → receive_loop c w st fuel deadline s2 ≡ (t, ok packets)
              → Heard s2 packets t)
          → Heard s packets t
      next (some ps) s2 heard rest later =
          let state : s2 ≡ t = ap (λ x. x.0) rest in
          subst (λ x. Heard s packets x) state
            (subst (λ qs. Heard s qs s2) (ok-injective (ap (λ x. x.1) rest)) heard)
      next none s2 heard rest later = Heard-chain heard (later (Reads-IsRead heard.reads) rest)

  -- The packets that `_receive` returns are those that the bytes make up that it took.
  pub receive-Heard :
      (deadline : ℕ) (s t : Client) (packets : List Packet)
      → IsRead s.buffer
      → receive c w st deadline s ≡ (t, ok packets)
      → Heard s packets t
  unfolding receive
  receive-Heard deadline s t packets h e =
      let loop = receive_loop c w st (suc deadline) deadline in
      receive_loop-Heard (suc deadline) deadline s t packets h
        (guard-eq-ok s.is_open loop camera_error s t packets e).1
